-- ===== src/Server/Packing.antt =====
-- What `add_dirent` of src/api/server/sync_io.rs leaves in the buffer of a listing.
use fuse_backend_rs.Prelude.{
  ℕ, zero, suc, ◌+◌, ◌-◌, ◌*◌, ◌/◌, ◌^◌, ◌≤◌, ◌<◌, ◌≡◌, refl, sym, ap, ◌∙◌, true, false, List, [],
  ◌++◌, Option, none, some, length, take, ltb, leb, if◌then◌else◌, ◌⊎◌, inl, inr, arith,
  length-append, append_assoc, append-nil, Bool-cases, ltb_cases, leb_fits,
}
use fuse_backend_rs.Prelude.Run.{Run, result, ◌>>◌}
use fuse_backend_rs.Prelude.Outcome.{Outcome, ok, err}
use fuse_backend_rs.Prelude.Parts.{length-take_le}
use fuse_backend_rs.Prelude.Words.{to_bytes}
use fuse_backend_rs.Fs.{u64_mod}
use fuse_backend_rs.Fusedev.{Dev, FuseDevWriter, IoError, raw_os_error, write_all}
use fuse_backend_rs.Fusedev.Messages.{Holds, write_all-Holds}
use fuse_backend_rs.Server.ReadDir.{
  DirEntry, Driver, finish, offers, add_dirent, drive, eoverflow, dirent_padding, write_dirent,
  write_entry, write_padding,
}
use fuse_backend_rs.Server.Wire.{Entry, entry_out, dirent, Dirent}

-- The bytes that `n` are padded with to a multiple of 8.
abbrev pub padding_of : ℕ → ℕ
padding_of n = (n + 7) / 8 * 8 - n

abbrev pub entry_bytes : Option Entry → List ℕ
entry_bytes none = []
entry_bytes (some e) = entry_out e

-- An entry as it lies in a listing.
unfoldable pub encoded : DirEntry → Option Entry → List ℕ
encoded d entry =
    entry_bytes entry
    ++ (dirent (record { ino = d.ino; off = d.offset; namelen = length d.name; type_ = d.type_ })
        ++ (d.name ++ take (padding_of (24 + length d.name)) dirent_padding))

length-entry_out : (e : Entry) → length (entry_out e) ≡ 128
unfolding entry_out to_bytes
length-entry_out e = refl

length-dirent : (d : Dirent) → length (dirent d) ≡ 24
unfolding dirent to_bytes
length-dirent d = refl

padding_small : (n : ℕ) → padding_of n ≤ 8
padding_small n = omega arith

length-padding : (n : ℕ) → n ≤ 8 → length (take n dirent_padding) ≡ n
length-padding n h = length-take_le n dirent_padding h

positive : (n : ℕ) → ltb 0 (suc n) ≡ true
positive n = ground arith

-- The lengths of the parts.
abbrev entry_size : Option Entry → ℕ
entry_size none = 0
entry_size (some e) = 128

length-entry_bytes : (e : Option Entry) → length (entry_bytes e) ≡ entry_size e
length-entry_bytes none = refl
length-entry_bytes (some e) = length-entry_out e

pub length-encoded :
    (d : DirEntry) (entry : Option Entry)
    → length (encoded d entry) ≡ (24 + length d.name + 7) / 8 * 8 + entry_size entry
unfolding encoded
length-encoded d entry =
    let head =
      dirent (record { ino = d.ino; off = d.offset; namelen = length d.name; type_ = d.type_ }) in
    let tail = take (padding_of (24 + length d.name)) dirent_padding in
    omega (
      arith,
      length-append (entry_bytes entry) (head ++ (d.name ++ tail)),
      length-append head (d.name ++ tail),
      length-append d.name tail,
      length-entry_bytes entry,
      length-dirent
          (record { ino = d.ino; off = d.offset; namelen = length d.name; type_ = d.type_ }),
      length-padding (padding_of (24 + length d.name)) (padding_small (24 + length d.name)),
    )

-- The listing that a file system's offers make in `max` bytes, and the file system's result.
unfoldable pub packed : ℕ → Driver → List ℕ → List ℕ × Outcome IoError (Unit {0})
packed max (finish o) payload = (payload, o)
packed max (offers d entry next) payload =
    let too_long = packed max (next (inl (raw_os_error eoverflow))) payload in
    let full = packed max (next (inr 0)) payload in
    let added = packed max (next (inr (length (encoded d entry)))) (payload ++ encoded d entry) in
    if ltb (2 ^ 32 - 1) (length d.name)
    then too_long
    else (if ltb (max - length payload) (length (encoded d entry)) then full else added)

module _ (device : List (List ℕ) → List ℕ → ℕ ⊎ ℕ) where
  -- A step that adds `bytes` and answers with `a`.
  abbrev Writes : {A : Type 0} → Run Dev IoError A → List ℕ → A → Type 0
  Writes step bytes a =
      (d : Dev) (payload : List ℕ) (room : ℕ)
      → Holds d.writer payload room
      → length payload + length bytes ≤ room
      → (w : FuseDevWriter) × (step d ≡ (record d { writer = w }, ok a))
        × Holds w (payload ++ bytes) room

  write_all-Writes : (bytes : List ℕ) → Writes (write_all device bytes) bytes tt
  write_all-Writes bytes d payload room h fits = write_all-Holds device d payload bytes room h fits

  write_entry-Writes :
      (entry : Option Entry) → Writes (write_entry device entry) (entry_bytes entry) tt
  write_entry-Writes none d payload room h fits = (d.writer, refl, rw (append-nil payload) h)
  write_entry-Writes (some e) d payload room h fits =
      write_all-Writes (entry_out e) d payload room h fits

  write_padding-Writes : (n : ℕ) → Writes (write_padding device n) (take n dirent_padding) tt
  write_padding-Writes zero d payload room h fits = (d.writer, refl, rw (append-nil payload) h)
  write_padding-Writes (suc n) d payload room h fits =
      rw (positive n) (write_all-Writes (take (suc n) dirent_padding) d payload room h fits)

  then-Writes :
      {A : Type 0} {a : A} {first : Run Dev IoError (Unit {0})} {second : Run Dev IoError A}
      (xs ys : List ℕ)
      → Writes first xs tt
      → Writes second ys a
      → Writes (first >> second) (xs ++ ys) a
  then-Writes xs ys one two d payload room h fits =
      let (w, at, h1) = one d payload room h (omega (arith, length-append xs ys)) in
      let (w', at', h2) =
        two (record d { writer = w }) (payload ++ xs) room h1
          (omega (arith, length-append xs ys, length-append payload xs)) in
      (w', rw (at, at') refl, rw (sym (append_assoc payload xs ys)) h2)

  answering-Writes :
      {first : Run Dev IoError (Unit {0})} (n : ℕ) (xs : List ℕ)
      → Writes first xs tt
      → Writes (first >> result (ok n)) xs n
  answering-Writes n xs one d payload room h fits =
      let (w, at, h1) = one d payload room h fits in (w, rw at refl, h1)

  write_dirent-Writes :
      (n : ℕ) (e : DirEntry) (entry : Option Entry)
      → Writes (write_dirent device e entry (padding_of (24 + length e.name)) n) (encoded e entry) n
  unfolding encoded
  write_dirent-Writes n e entry =
      let head =
        dirent (record { ino = e.ino; off = e.offset; namelen = length e.name; type_ = e.type_ }) in
      let tail = take (padding_of (24 + length e.name)) dirent_padding in
      then-Writes (entry_bytes entry) (head ++ (e.name ++ tail)) (write_entry-Writes entry) (
        then-Writes head (e.name ++ tail) (write_all-Writes head) (
          then-Writes e.name tail (write_all-Writes e.name)
            (answering-Writes n tail (write_padding-Writes (padding_of (24 + length e.name))))))

  add_dirent_long :
      (d : Dev) (max : ℕ) (e : DirEntry)
      → ltb (2 ^ 32 - 1) (length e.name) ≡ true
      → (entry : Option Entry) → add_dirent device max e entry d ≡ (d, err (raw_os_error eoverflow))
  unfolding add_dirent
  add_dirent_long d max e long entry = rw long refl

  module _ (d : Dev) (max : ℕ) (e : DirEntry)
      (short : ltb (2 ^ 32 - 1) (length e.name) ≡ false) where
    name_fits : length e.name < 2 ^ 32
    name_fits = ground arith

    first_fits : leb u64_mod (24 + length e.name) ≡ false
    first_fits = leb_fits u64_mod (24 + length e.name) (omega (arith, name_fits))

    second_fits : leb u64_mod (24 + length e.name + 7) ≡ false
    second_fits = leb_fits u64_mod (24 + length e.name + 7) (omega (arith, name_fits))

    third_fits : leb u64_mod ((24 + length e.name + 7) / 8 * 8 + 128) ≡ false
    third_fits =
        leb_fits u64_mod ((24 + length e.name + 7) / 8 * 8 + 128) (omega (arith, name_fits))

    plain_total : (24 + length e.name + 7) / 8 * 8 ≡ length (encoded e none)
    plain_total = omega (arith, length-encoded e none)

    plus_total : (x : Entry) → (24 + length e.name + 7) / 8 * 8 + 128 ≡ length (encoded e (some x))
    plus_total x = sym (length-encoded e (some x))

    add_dirent_full :
        (entry : Option Entry)
        → ltb (max - d.writer.len) (length (encoded e entry)) ≡ true
        → add_dirent device max e entry d ≡ (d, ok 0)
    unfolding add_dirent
    add_dirent_full none full = rw (short, first_fits, second_fits, plain_total, full) refl
    add_dirent_full (some x) full =
        rw (short, first_fits, second_fits, third_fits, plus_total x, full) refl

    add_dirent_fits :
        (entry : Option Entry)
        → ltb (max - d.writer.len) (length (encoded e entry)) ≡ false
        → add_dirent device max e entry d
          ≡ write_dirent device e entry
              (padding_of (24 + length e.name))
              (length (encoded e entry))
              d
    unfolding add_dirent
    add_dirent_fits none full = rw (short, first_fits, second_fits, plain_total, full) refl
    add_dirent_fits (some x) full =
        rw (short, first_fits, second_fits, third_fits, plus_total x, full) refl

  counted :
      (d : Dev) (max : ℕ) (payload : List ℕ) (room : ℕ)
      → Holds d.writer payload room
      → (n : ℕ) → ltb (max - d.writer.len) n ≡ ltb (max - length payload) n
  counted d max payload room h n = ap (λ w. ltb (max - w.len) n) h.is

  -- The closure and the file system make the listing of the specification, while the buffer has
  -- room for all that the request asks for; nothing is sent.
  pub drive-packed :
      (max : ℕ) (driver : Driver) (d : Dev) (payload : List ℕ) (room : ℕ)
      → Holds d.writer payload room
      → length payload ≤ max
      → max ≤ room
      → (w : FuseDevWriter) × (drive device max driver d
          ≡ (record d { writer = w }, (packed max driver payload).1))
        × Holds w (packed max driver payload).0 room
        × (length (packed max driver payload).0 ≤ max)
  unfolding drive packed
  drive-packed max (finish o) d payload room h le fits = (d.writer, refl, h, le)
  drive-packed max (offers e entry next) d payload room h le fits =
      elim (Bool-cases (ltb (2 ^ 32 - 1) (length e.name))) [
        | inl long ↦
            rw (long, add_dirent_long d max e long entry)
              (drive-packed max (next (inl (raw_os_error eoverflow))) d payload room h le fits)
        | inr short ↦ elim (ltb_cases (max - length payload) (length (encoded e entry))) [
          | inl (t, lt) ↦
              rw
                (
                  short,
                  t,
                  add_dirent_full d max e short entry
                      (counted d max payload room h (length (encoded e entry)) ∙ t),
                )
                (drive-packed max (next (inr 0)) d payload room h le fits)
          | inr (f, ge) ↦
              let (w, at, holds) =
                write_dirent-Writes (length (encoded e entry)) e entry d payload room h
                  (omega arith) in
              let (w', at', holds', bound) =
                drive-packed max (next (inr (length (encoded e entry)))) (record d { writer = w })
                  (payload ++ encoded e entry) room holds
                  (omega (arith, length-append payload (encoded e entry))) fits in
              (
                w',
                rw
                    (
                      short,
                      f,
                      add_dirent_fits d max e short entry
                          (counted d max payload room h (length (encoded e entry)) ∙ f),
                      at,
                    )
                    at',
                rw (short, f) holds',
                rw (short, f) bound,
              )
        ]
      ]
