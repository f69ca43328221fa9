-- ===== src/Fusedev/Messages.antt =====
-- What the writer of src/transport/fusedev/mod.rs keeps, and which messages it gives to the device.
use fuse_backend_rs.Prelude.{
  ℕ, suc, ◌+◌, ◌-◌, ◌≤◌, ◌≡◌, refl, sym, ap, ◌∙◌, true, false, List, [], ◌∷◌, ◌++◌, ltb, length,
  take, drop, arith, length-append, append-nil, append_assoc, ◌⊎◌,
}
use fuse_backend_rs.Prelude.Outcome.{ok}
use fuse_backend_rs.Fusedev.{
  FuseDevWriter, Dev, check_available_space, write, write_all_loop, write_all,
}
use fuse_backend_rs.Fusedev.{write_rest}
use fuse_backend_rs.Prelude.Parts.{drop_all, take_all, take-append, length-take_le, length-drop}

spent : (k : ℕ) (xs : List ℕ) → length xs ≡ k → k - length xs ≡ 0
spent k xs e = omega arith

take_whole : (k : ℕ) (xs ys : List ℕ) → length xs ≡ k → take k (xs ++ ys) ≡ xs
take_whole k xs ys e =
    rw (take-append k xs ys, take_all k xs (omega arith), spent k xs e) (append-nil xs)

-- A buffered writer over `memory`.
abbrev pub kept : List ℕ → ℕ → FuseDevWriter
kept memory len = record { buffered = true; memory = memory; len = len }

-- A writer that keeps `payload` for later, in a buffer of `room` bytes.
pub record Holds (w : FuseDevWriter) (payload : List ℕ) (room : ℕ) : Type 0 where
  pub memory : List ℕ
  pub is : w ≡ kept memory (length payload)
  pub shows : take (length payload) memory ≡ payload
  pub has_room : length memory ≡ room

pub not_beyond : (m n : ℕ) → n ≤ m → ltb m n ≡ false
not_beyond m n h = ground arith

-- The memory after `bytes` were written behind `payload`.
abbrev overwritten : List ℕ → List ℕ → List ℕ → List ℕ
overwritten memory payload bytes =
    take (length payload) memory ++ (bytes ++ drop (length payload + length bytes) memory)

take-overwritten :
    (memory payload bytes : List ℕ)
    → take (length payload) memory ≡ payload
    → take (length payload + length bytes) (overwritten memory payload bytes) ≡ payload ++ bytes
take-overwritten memory payload bytes shows =
    let behind = drop (length payload + length bytes) memory in
    rw (shows, ← append_assoc payload bytes behind)
      (take_whole (length payload + length bytes) (payload ++ bytes) behind
        (length-append payload bytes))

length-overwritten :
    (memory payload bytes : List ℕ)
    → length payload + length bytes ≤ length memory
    → length (overwritten memory payload bytes) ≡ length memory
length-overwritten memory payload bytes fits = omega (
  arith,
  length-append (take (length payload) memory)
      (bytes ++ drop (length payload + length bytes) memory),
  length-append bytes (drop (length payload + length bytes) memory),
  length-take_le (length payload) memory (omega arith),
  length-drop (length payload + length bytes) memory,
)

module _ (device : List (List ℕ) → List ℕ → ℕ ⊎ ℕ) where
  write-kept :
      (sent : List (List ℕ)) (memory payload bytes : List ℕ)
      → length payload + length bytes ≤ length memory
      → write device bytes (record { sent = sent; writer = kept memory (length payload) }) ≡ (
        record {
          sent = sent;
          writer = kept (overwritten memory payload bytes) (length payload + length bytes);
        },
        ok (length bytes),
      )
  unfolding write check_available_space
  write-kept sent memory payload bytes fits =
      rw (not_beyond (length memory - length payload) (length bytes) (omega arith)) refl

  extended-Holds :
      (memory payload bytes : List ℕ) (room : ℕ)
      → take (length payload) memory ≡ payload
      → length memory ≡ room
      → length payload + length bytes ≤ room
      → Holds
          (kept (overwritten memory payload bytes) (length payload + length bytes))
          (payload ++ bytes)
          room
  extended-Holds memory payload bytes room shows has_room fits = record {
    memory = overwritten memory payload bytes;
    is = ap (kept (overwritten memory payload bytes)) (sym (length-append payload bytes));
    shows = rw (length-append payload bytes) (take-overwritten memory payload bytes shows);
    has_room = length-overwritten memory payload bytes (omega (arith, has_room)) ∙ has_room;
  }

  write_all-kept :
      (sent : List (List ℕ)) (memory payload bytes : List ℕ) (room : ℕ)
      → take (length payload) memory ≡ payload
      → length memory ≡ room
      → length payload + length bytes ≤ room
      → (w : FuseDevWriter) × (write_all device bytes
            (record { sent = sent; writer = kept memory (length payload) })
          ≡ (record { sent = sent; writer = w }, ok tt))
        × Holds w (payload ++ bytes) room
  unfolding write_all write_all_loop
  write_all-kept sent memory payload [] room shows has_room fits = (
    kept memory (length payload),
    refl,
    rw (append-nil payload)
        (record { memory = memory; is = refl; shows = shows; has_room = has_room }),
  )
  write_all-kept sent memory payload (b ∷ bytes) room shows has_room fits = (
    kept (overwritten memory payload (b ∷ bytes)) (length payload + length (b ∷ bytes)),
    ap (write_rest device (λ rest. write_all_loop device (suc (length bytes)) rest) (b ∷ bytes))
          (write-kept sent memory payload (b ∷ bytes) (omega (arith, has_room)))
        ∙ ap
            (λ rest. write_all_loop device (suc (length bytes)) rest (record {
              sent = sent;
              writer =
                  kept (overwritten memory payload (b ∷ bytes))
                    (length payload + length (b ∷ bytes));
            }))
            (drop_all (length bytes) bytes (omega arith)),
    extended-Holds memory payload (b ∷ bytes) room shows has_room fits,
  )

  -- What fits is kept behind what was kept before, and nothing is sent.
  pub write_all-Holds :
      (d : Dev) (payload bytes : List ℕ) (room : ℕ)
      → Holds d.writer payload room
      → length payload + length bytes ≤ room
      → (w : FuseDevWriter) × (write_all device bytes d ≡ (record d { writer = w }, ok tt))
        × Holds w (payload ++ bytes) room
  write_all-Holds d payload bytes room h fits =
      let (w, at, holds) =
        write_all-kept d.sent h.memory payload bytes room h.shows h.has_room fits in
      (w, ap (λ u. write_all device bytes (record d { writer = u })) h.is ∙ at, holds)

  pub write-Holds :
      (d : Dev) (payload bytes : List ℕ) (room : ℕ)
      → Holds d.writer payload room
      → length payload + length bytes ≤ room
      → (w : FuseDevWriter) × (write device bytes d ≡ (record d { writer = w }, ok (length bytes)))
        × Holds w (payload ++ bytes) room
  write-Holds d payload bytes room h fits = (
    kept (overwritten h.memory payload bytes) (length payload + length bytes),
    ap (λ u. write device bytes (record d { writer = u })) h.is
        ∙ write-kept d.sent h.memory payload bytes (omega (arith, h.has_room)),
    extended-Holds h.memory payload bytes room h.shows h.has_room fits,
  )
