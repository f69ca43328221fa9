-- ===== src/Server/Listing.antt =====
-- A listing of src/api/server/sync_io.rs as the kernel reads it.
use fuse_backend_rs.Prelude.{
  ℕ, zero, suc, ◌+◌, ◌-◌, ◌*◌, ◌/◌, ◌^◌, ◌<◌, ◌≤◌, ◌≡◌, Bool, ◌⊎◌, inl, inr, refl, sym, ap, ap₂,
  ◌∙◌, false, List, [], ◌∷◌, ◌++◌, Option, none, some, length, take, drop, ltb, if◌then◌else◌,
  arith, length-append, append_assoc, append-nil, Bool-cases,
}
use fuse_backend_rs.Prelude.Words.{
  to_bytes, from_bytes, field, from_bytes-to_bytes_4, from_bytes-to_bytes_8,
}
use fuse_backend_rs.Prelude.Outcome.{Outcome, ok, err, panic}
use fuse_backend_rs.Fusedev.{Dev, IoError, raw_os_error}
use fuse_backend_rs.Server.{Error}
use fuse_backend_rs.Server.Sending.{
  Gives, fresh, listing_reply, length-out_header, do_readdir-Gives,
}
use fuse_backend_rs.Server.Packing.{padding_of, encoded, packed, length-encoded}
use fuse_backend_rs.Server.ReadDir.{
  dirent_padding, DirEntry, Driver, ReadIn, finish, offers, eoverflow, do_readdir,
}
use fuse_backend_rs.Server.Wire.{dirent, out_header}

short : (n : ℕ) → ltb (2 ^ 32 - 1) n ≡ false → n < 2 ^ 32
short n h = ground arith

abbrev cons_entry : DirEntry → Option (List DirEntry) → Option (List DirEntry)
cons_entry d none = none
cons_entry d (some ds) = some (d ∷ ds)

-- An entry at the front of a listing: its fields at their places, then as many bytes as it says.
abbrev entry_at : List ℕ → DirEntry
entry_at bytes = record {
  ino = field 0 8 bytes;
  offset = field 8 8 bytes;
  type_ = field 20 4 bytes;
  name = take (field 16 4 bytes) (drop 24 bytes);
}

-- Entry by entry, each at a multiple of 8 bytes; `none` is for fuel that ran out.
unfoldable pub parse : ℕ → List ℕ → Option (List DirEntry)
parse zero bytes = none
parse (suc fuel) [] = some []
parse (suc fuel) (b ∷ bytes) =
    cons_entry (entry_at (b ∷ bytes))
      (parse fuel (drop ((24 + field 16 4 (b ∷ bytes) + 7) / 8 * 8) (b ∷ bytes)))

-- An entry whose numbers have the widths of their fields.
pub record Fitting (d : DirEntry) : Type 0 where
  pub ino_fits : d.ino < 2 ^ 64
  pub offset_fits : d.offset < 2 ^ 64
  pub type_fits : d.type_ < 2 ^ 32
  pub name_fits : length d.name < 2 ^ 32

drop_whole : (k : ℕ) (xs ys : List ℕ) → length xs ≡ k → drop k (xs ++ ys) ≡ ys
drop_whole zero [] ys e = refl
drop_whole zero (x ∷ xs) ys e = absurd (omega (arith, e))
drop_whole (suc k) [] ys e = absurd (omega (arith, e))
drop_whole (suc k) (x ∷ xs) ys e = drop_whole k xs ys (omega (arith, e))

take_front : (xs ys : List ℕ) → take (length xs) (xs ++ ys) ≡ xs
take_front [] ys = refl
take_front (x ∷ xs) ys = ap (λ l. x ∷ l) (take_front xs ys)

namelen-encoded :
    (d : DirEntry) (rest : List ℕ) → Fitting d → field 16 4 (encoded d none ++ rest) ≡ length d.name
unfolding encoded dirent to_bytes from_bytes
namelen-encoded d rest h = from_bytes-to_bytes_4 (length d.name) h.name_fits

entry_at-encoded :
    (d : DirEntry) (rest : List ℕ) → Fitting d → entry_at (encoded d none ++ rest) ≡ d
unfolding encoded dirent to_bytes from_bytes
entry_at-encoded d rest h =
    let bytes = encoded d none ++ rest in
    let pad = take (padding_of (24 + length d.name)) dirent_padding in
    ap₂
      (λ a b. record {
        ino = a;
        offset = b;
        type_ = field 20 4 bytes;
        name = take (field 16 4 bytes) (drop 24 bytes);
      })
      (from_bytes-to_bytes_8 d.ino h.ino_fits) (from_bytes-to_bytes_8 d.offset h.offset_fits)
    ∙ ap₂ (λ t n. record { ino = d.ino; offset = d.offset; type_ = t; name = n })
        (from_bytes-to_bytes_4 d.type_ h.type_fits)
        (ap (λ k. take k (drop 24 bytes)) (from_bytes-to_bytes_4 (length d.name) h.name_fits)
          ∙ ap (take (length d.name)) (append_assoc d.name pad rest)
          ∙ take_front d.name (pad ++ rest))

parse-encoded :
    (fuel : ℕ) (d : DirEntry) (rest : List ℕ)
    → Fitting d
    → parse (suc fuel) (encoded d none ++ rest) ≡ cons_entry d (parse fuel rest)
unfolding parse encoded dirent to_bytes from_bytes
parse-encoded fuel d rest h =
    let bytes = encoded d none ++ rest in
    ap₂ cons_entry (entry_at-encoded d rest h) (
      ap (parse fuel) (
        ap (λ k. drop ((24 + k + 7) / 8 * 8) bytes) (namelen-encoded d rest h)
        ∙ drop_whole ((24 + length d.name + 7) / 8 * 8) (encoded d none) rest
            (omega (arith, length-encoded d none))))

-- The entries that come to lie in `max` bytes, of which `used` are taken.
unfoldable pub accepted : ℕ → Driver → ℕ → List DirEntry
accepted max (finish o) used = []
accepted max (offers d entry next) used =
    let too_long = accepted max (next (inl (raw_os_error eoverflow))) used in
    let full = accepted max (next (inr 0)) used in
    let added =
      accepted max (next (inr (length (encoded d entry)))) (used + length (encoded d entry)) in
    if ltb (2 ^ 32 - 1) (length d.name)
    then too_long
    else (if ltb (max - used) (length (encoded d entry)) then full else d ∷ added)

abbrev laid_out : List DirEntry → List ℕ
laid_out [] = []
laid_out (d ∷ ds) = encoded d none ++ laid_out ds

-- A file system that offers entries without attributes, as readdir does, whatever it is answered.
abbrev pub Plain : Driver → Type 0
Plain (finish o) = Unit {0}
Plain (offers d none next) =
    ((d.ino < 2 ^ 64) × (d.offset < 2 ^ 64) × (d.type_ < 2 ^ 32))
    × ((answer : IoError ⊎ ℕ) → Plain (next answer))
Plain (offers d (some e) next) = ⊥

packed-accepted :
    (max : ℕ) (driver : Driver) (payload : List ℕ)
    → Plain driver
    → (packed max driver payload).0 ≡ payload ++ laid_out (accepted max driver (length payload))
unfolding packed accepted
packed-accepted max (finish o) payload h = sym (append-nil payload)
packed-accepted max (offers d (some e) next) payload h = elim h [ ]
packed-accepted max (offers d none next) payload (sizes, h) =
    elim (Bool-cases (ltb (2 ^ 32 - 1) (length d.name))) [
      | inl t ↦ rw t (packed-accepted max (next (inl (raw_os_error eoverflow))) payload (h _))
      | inr f ↦ elim (Bool-cases (ltb (max - length payload) (length (encoded d none)))) [
        | inl t ↦ rw (f, t) (packed-accepted max (next (inr 0)) payload (h _))
        | inr f' ↦
            let goes_on = next (inr (length (encoded d none))) in
            rw (f, f')
              (packed-accepted max (next (inr (length (encoded d none))))
                  (payload ++ encoded d none) (h _)
                ∙ ap (λ k. (payload ++ encoded d none) ++ laid_out (accepted max goes_on k))
                    (length-append payload (encoded d none))
                ∙ append_assoc payload (encoded d none)
                    (laid_out (accepted max goes_on (length payload + length (encoded d none)))))
      ]
    ]

abbrev AllFitting : List DirEntry → Type 0
AllFitting [] = Unit {0}
AllFitting (d ∷ ds) = Fitting d × AllFitting ds

accepted-AllFitting :
    (max : ℕ) (driver : Driver) (used : ℕ) → Plain driver → AllFitting (accepted max driver used)
unfolding accepted
accepted-AllFitting max (finish o) used h = tt
accepted-AllFitting max (offers d (some e) next) used h = elim h [ ]
accepted-AllFitting max (offers d none next) used ((hi, ho, ht), h) =
    elim (Bool-cases (ltb (2 ^ 32 - 1) (length d.name))) [
      | inl t ↦ rw t (accepted-AllFitting max (next (inl (raw_os_error eoverflow))) used (h _))
      | inr f ↦ elim (Bool-cases (ltb (max - used) (length (encoded d none)))) [
        | inl t ↦ rw (f, t) (accepted-AllFitting max (next (inr 0)) used (h _))
        | inr f' ↦
            rw (f, f')
              (
                record {
                  ino_fits = hi;
                  offset_fits = ho;
                  type_fits = ht;
                  name_fits = short (length d.name) f;
                },
                accepted-AllFitting max (next (inr (length (encoded d none))))
                    (used + length (encoded d none)) (h _),
              )
      ]
    ]

parse-laid_out :
    (ds : List DirEntry) → AllFitting ds → parse (suc (length ds)) (laid_out ds) ≡ some ds
unfolding parse
parse-laid_out [] h = refl
parse-laid_out (d ∷ ds) (h, hs) =
    parse-encoded (suc (length ds)) d (laid_out ds) h ∙ ap (cons_entry d) (parse-laid_out ds hs)

parse-packed :
    (max : ℕ) (driver : Driver)
    → Plain driver
    → parse (suc (length (accepted max driver 0))) (packed max driver []).0
      ≡ some (accepted max driver 0)
parse-packed max driver h =
    ap (parse (suc (length (accepted max driver 0)))) (packed-accepted max driver [] h)
    ∙ parse-laid_out (accepted max driver 0) (accepted-AllFitting max driver 0 h)

-- One message more was sent, and behind its header the kernel reads these entries.
abbrev pub Reads : List (List ℕ) → Dev → List DirEntry → Type 0
Reads sent d ds =
    (m : List ℕ) × (d.sent ≡ sent ++ m ∷ []) × (parse (suc (length ds)) (drop 16 m) ≡ some ds)

Gives-Reads :
    (sent : List (List ℕ)) (unique : ℕ) (payload : List ℕ) (o : Outcome IoError (Unit {0}))
    (answer : Dev × Outcome Error ℕ) (ds : List DirEntry)
    → o ≡ ok tt
    → parse (suc (length ds)) payload ≡ some ds
    → Gives sent (listing_reply unique (payload, o)) answer
    → Reads sent answer.0 ds
Gives-Reads sent unique payload (err e) answer ds done reads gives = absurd (cc done)
Gives-Reads sent unique payload panic answer ds done reads gives = absurd (cc done)
Gives-Reads sent unique payload (ok one) answer ds done reads (at, result) =
    let header = out_header (record { len = 16 + length payload; error = 0; unique = unique }) in
    let sized =
      length-out_header (record { len = 16 + length payload; error = 0; unique = unique }) in
    (
      header ++ payload,
      at,
      ap (parse (suc (length ds))) (drop_whole 16 header payload sized) ∙ reads,
    )

module _ (device : List (List ℕ) → List ℕ → ℕ ⊎ ℕ)
    -- The device takes every message whole.
    (takes : (sent : List (List ℕ)) (bytes : List ℕ) → device sent bytes ≡ inr (length bytes)) where
  -- A listing on a writer with nothing in it yet, that has room for the header and for all that the
  -- request asks for, where the device takes messages whole: if the file system offers entries
  -- without attributes, whose numbers have the widths of their fields, whatever it is answered, and
  -- ends without an error, then one message is sent, and behind its header the kernel reads back
  -- the entries that fit into the size asked for, each with the number, offset, type and name that
  -- it was offered with.
  pub parse-do_readdir :
      (sent : List (List ℕ)) (buffered : Bool) (memory : List ℕ) (unique : ℕ) (fs : ReadIn → Driver)
      (request : ReadIn)
      → 16 + request.size ≤ length memory
      → length memory < 2 ^ 32
      → Plain (fs request)
      → (packed request.size (fs request) []).1 ≡ ok tt
      → Reads sent
          ((do_readdir device unique fs request
            (record { sent = sent; writer = fresh buffered memory })).0)
          (accepted request.size (fs request) 0)
  parse-do_readdir sent buffered memory unique fs request fits small plain done =
      let driver = fs request in
      Gives-Reads sent unique (packed request.size driver []).0 (packed request.size driver []).1
        (do_readdir device unique fs request
          (record { sent = sent; writer = fresh buffered memory }))
        (accepted request.size driver 0) done (parse-packed request.size driver plain)
        (do_readdir-Gives device takes sent buffered memory unique fs request fits small)
