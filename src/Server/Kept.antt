-- ===== src/Server/Kept.antt =====
-- What a buffered writer is given stays in it: no step of a listing or of a read in
-- src/api/server/sync_io.rs sends anything before the reply is committed.
use fuse_backend_rs.Prelude.{
  ℕ, zero, suc, ◌+◌, ◌-◌, ◌*◌, ◌/◌, ◌^◌, ◌≡◌, refl, ◌⊎◌, inl, inr, Bool, true, false, Bool-cases,
  Option, none, some, List, [], ◌∷◌, length, leb, ltb, if◌then◌else◌,
}
use fuse_backend_rs.Prelude.Outcome.{Outcome, ok, err, panic}
use fuse_backend_rs.Prelude.Run.{Run, result, get_state, goes_on, ◌>>=◌}
use fuse_backend_rs.Fs.{u64_mod}
use fuse_backend_rs.Fusedev.{
  Dev, IoError, of_kind, raw_os_error, bytes_written, interrupted, write, write_all, write_all_loop,
  write_rest, check_available_space,
}
use fuse_backend_rs.Fusedev.Messages.{kept}
use fuse_backend_rs.Server.Handlers.Transfer.{fill, put_answer}
use fuse_backend_rs.Server.ReadDir.{
  DirEntry, Driver, finish, offers, add_dirent, drive, reacted, checked_add, with_entry,
  write_entry, write_padding, write_dirent, eoverflow,
}
use fuse_backend_rs.Server.Request.{Filler, ends, puts}
use fuse_backend_rs.Server.Wire.{Entry}

-- These messages were sent, and the writer is buffered.
abbrev pub Stays : List (List ℕ) → Dev → Type 0
Stays sent d =
    (memory : List ℕ) × (len : ℕ) × (d ≡ record { sent = sent; writer = kept memory len })

pub record Keeps (sent : List (List ℕ)) {A : Type 0} (m : Run Dev IoError A) : Type 0 where
  pub at :
      (memory : List ℕ) (len : ℕ)
      → Stays sent (m (record { sent = sent; writer = kept memory len })).0

module _ {sent : List (List ℕ)} where
  Keeps-result : {A : Type 0} (o : Outcome IoError A) → Keeps sent (result o)
  Keeps-result o = record { at = λ memory len. (memory, len, refl) }

  goes_on-Stays :
      {A B : Type 0} (x : Dev × Outcome IoError A) (k : A → Run Dev IoError B)
      → Stays sent x.0
      → ((a : A) → Keeps sent (k a))
      → Stays sent (goes_on x k).0
  goes_on-Stays (d, ok a) k (memory, len, e) rest = rw e ((rest a).at memory len)
  goes_on-Stays (d, err e') k stays rest = stays
  goes_on-Stays (d, panic) k stays rest = stays

  Keeps-bind :
      {A B : Type 0} (m : Run Dev IoError A) (k : A → Run Dev IoError B)
      → Keeps sent m
      → ((a : A) → Keeps sent (k a))
      → Keeps sent (m >>= k)
  Keeps-bind m k hm hk = record {
    at = λ memory len.
        goes_on-Stays (m (record { sent = sent; writer = kept memory len })) k (hm.at memory len)
          hk;
  }

  Keeps-get :
      {A : Type 0} (k : Dev → Run Dev IoError A)
      → ((d : Dev) → Keeps sent (k d))
      → Keeps sent (get_state >>= k)
  Keeps-get k hk = record {
    at = λ memory len. (hk (record { sent = sent; writer = kept memory len })).at memory len;
  }

  Keeps-if :
      {A : Type 0} (test : Bool) (m n : Run Dev IoError A)
      → Keeps sent m
      → Keeps sent n
      → Keeps sent (if test then m else n)
  Keeps-if true m n hm hn = hm
  Keeps-if false m n hm hn = hn

  module _ (device : List (List ℕ) → List ℕ → ℕ ⊎ ℕ) where
    write-Keeps : (bytes : List ℕ) → Keeps sent (write device bytes)
    unfolding write check_available_space
    write-Keeps bytes = record {
      at = λ memory len. elim (Bool-cases (ltb (length memory - len) (length bytes))) [
        | inl t ↦ (memory, len, rw t refl)
        | inr f ↦
            let after = (write device bytes (record { sent = sent; writer = kept memory len })).0 in
            (after.writer.memory, after.writer.len, rw f refl)
      ];
    }

    write_rest-Stays :
        (again : List ℕ → Run Dev IoError (Unit {0})) (bytes : List ℕ) (x : Dev × Outcome IoError ℕ)
        → Stays sent x.0
        → ((rest : List ℕ) → Keeps sent (again rest))
        → Stays sent (write_rest device again bytes x).0
    write_rest-Stays again bytes (d, ok zero) stays rest = stays
    write_rest-Stays again bytes (d, ok (suc n)) (memory, len, e) rest =
        rw e ((rest _).at memory len)
    write_rest-Stays again bytes (d, err (of_kind interrupted)) (memory, len, e) rest =
        rw e ((rest bytes).at memory len)
    write_rest-Stays again bytes (d, err e) stays rest = stays
    write_rest-Stays again bytes (d, panic) stays rest = stays

    write_all_loop-Keeps :
        (fuel : ℕ) (bytes : List ℕ) → Keeps sent (write_all_loop device fuel bytes)
    unfolding write_all_loop
    write_all_loop-Keeps zero bytes = record { at = λ memory len. (memory, len, refl) }
    write_all_loop-Keeps (suc fuel) [] = record { at = λ memory len. (memory, len, refl) }
    write_all_loop-Keeps (suc fuel) (b ∷ bytes) =
        let again = λ (rest : List ℕ). write_all_loop-Keeps fuel rest in
        record {
          at = λ memory len.
              write_rest-Stays (λ rest. write_all_loop device fuel rest) (b ∷ bytes)
                (write device (b ∷ bytes) (record { sent = sent; writer = kept memory len }))
                ((write-Keeps (b ∷ bytes)).at memory len) again;
        }

    write_all-Keeps : (bytes : List ℕ) → Keeps sent (write_all device bytes)
    unfolding write_all
    write_all-Keeps bytes = write_all_loop-Keeps (suc (length bytes)) bytes

    checked_add-Keeps : (a b : ℕ) → Keeps sent (checked_add a b)
    checked_add-Keeps a b = Keeps-if (leb u64_mod (a + b)) _ _ (Keeps-result _) (Keeps-result _)

    with_entry-Keeps :
        (entry : Option Entry) (padded : ℕ) → Keeps sent (with_entry device entry padded)
    with_entry-Keeps none padded = Keeps-result _
    with_entry-Keeps (some e) padded = checked_add-Keeps padded 128

    write_entry-Keeps : (entry : Option Entry) → Keeps sent (write_entry device entry)
    write_entry-Keeps none = Keeps-result _
    write_entry-Keeps (some e) = write_all-Keeps _

    write_padding-Keeps : (padding : ℕ) → Keeps sent (write_padding device padding)
    write_padding-Keeps padding = Keeps-if (ltb 0 padding) _ _ (write_all-Keeps _) (Keeps-result _)

    write_dirent-Keeps :
        (d : DirEntry) (entry : Option Entry) (padding total_len : ℕ)
        → Keeps sent (write_dirent device d entry padding total_len)
    write_dirent-Keeps d entry padding total_len =
        Keeps-bind (write_entry device entry) _ (write_entry-Keeps entry) λ _.
          Keeps-bind (write_all device _) _ (write_all-Keeps _) λ _.
            Keeps-bind (write_all device d.name) _ (write_all-Keeps d.name) λ _.
              Keeps-bind (write_padding device padding) _ (write_padding-Keeps padding)
                λ _. Keeps-result (ok total_len)

    -- From the padded length on.
    sized-Keeps :
        (max : ℕ) (d : DirEntry) (entry : Option Entry) (padding padded : ℕ)
        → Keeps sent (do
          total_len ← with_entry device entry padded
          cursor ← get_state
          if ltb (max - bytes_written cursor.writer) total_len
              then result (ok 0)
              else write_dirent device d entry padding total_len)
    sized-Keeps max d entry padding padded =
        Keeps-bind (with_entry device entry padded) _ (with_entry-Keeps entry padded) λ total_len.
          Keeps-get _ λ cursor.
            Keeps-if (ltb (max - bytes_written cursor.writer) total_len) (result (ok 0))
              (write_dirent device d entry padding total_len) (Keeps-result (ok 0))
              (write_dirent-Keeps d entry padding total_len)

    add_dirent-Keeps :
        (max : ℕ) (d : DirEntry) (entry : Option Entry) → Keeps sent (add_dirent device max d entry)
    unfolding add_dirent
    add_dirent-Keeps max d entry =
        Keeps-if (ltb (2 ^ 32 - 1) (length d.name)) (result (err (raw_os_error eoverflow))) _
          (Keeps-result _)
          (Keeps-bind (checked_add 24 (length d.name)) _ (checked_add-Keeps 24 (length d.name))
            λ dirent_len.
              Keeps-bind (checked_add dirent_len 7) _ (checked_add-Keeps dirent_len 7)
                λ rounded. sized-Keeps max d entry (rounded / 8 * 8 - dirent_len) (rounded / 8 * 8))

    reacted-Stays :
        (next : IoError ⊎ ℕ → Run Dev IoError (Unit {0})) (x : Dev × Outcome IoError ℕ)
        → Stays sent x.0
        → ((answer : IoError ⊎ ℕ) → Keeps sent (next answer))
        → Stays sent (reacted device next x).0
    reacted-Stays next (d, ok n) (memory, len, e) rest = rw e ((rest (inr n)).at memory len)
    reacted-Stays next (d, err e') (memory, len, e) rest = rw e ((rest (inl e')).at memory len)
    reacted-Stays next (d, panic) stays rest = stays

    pub drive-Keeps : (max : ℕ) (driver : Driver) → Keeps sent (drive device max driver)
    unfolding drive
    drive-Keeps max (finish o) = record { at = λ memory len. (memory, len, refl) }
    drive-Keeps max (offers entry plus next) =
        let again = λ (answer : IoError ⊎ ℕ). drive-Keeps max (next answer) in
        record {
          at = λ memory len.
              reacted-Stays (λ answer. drive device max (next answer))
                (add_dirent device max entry plus
                  (record { sent = sent; writer = kept memory len }))
                ((add_dirent-Keeps max entry plus).at memory len) again;
        }

    put_answer-Stays :
        (next : IoError ⊎ ℕ → Run Dev IoError ℕ) (x : Dev × Outcome IoError ℕ)
        → Stays sent x.0
        → ((answer : IoError ⊎ ℕ) → Keeps sent (next answer))
        → Stays sent (put_answer device next x).0
    put_answer-Stays next (d, ok n) (memory, len, e) rest = rw e ((rest (inr n)).at memory len)
    put_answer-Stays next (d, err e') (memory, len, e) rest = rw e ((rest (inl e')).at memory len)
    put_answer-Stays next (d, panic) stays rest = stays

    pub fill-Keeps : (filler : Filler) → Keeps sent (fill device filler)
    unfolding fill
    fill-Keeps (ends (inl e)) = record { at = λ memory len. (memory, len, refl) }
    fill-Keeps (ends (inr n)) = record { at = λ memory len. (memory, len, refl) }
    fill-Keeps (puts bytes next) =
        let again = λ (answer : IoError ⊎ ℕ). fill-Keeps (next answer) in
        record {
          at = λ memory len.
              put_answer-Stays (λ answer. fill device (next answer))
                (write device bytes (record { sent = sent; writer = kept memory len }))
                ((write-Keeps bytes).at memory len) again;
        }
