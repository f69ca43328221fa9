-- ===== src/Server/NoRoom.antt =====
-- `reply_ok` of src/api/server/sync_io.rs on a writer without room for the reply.
use fuse_backend_rs.Prelude.{
  ℕ, ◌+◌, ◌-◌, ◌^◌, ◌%◌, ◌<◌, ◌≡◌, refl, true, false, List, [], ◌∷◌, ltb, length, ◌⊎◌, arith,
}
use fuse_backend_rs.Prelude.Outcome.{Outcome, err}
use fuse_backend_rs.Fusedev.{
  Dev, IoError, of_kind, invalid_data, write, write_vectored, check_available_space, total_of,
}
use fuse_backend_rs.Server.{encode_message}
use fuse_backend_rs.Server.Reply.{reply_ok, write_parts}
use fuse_backend_rs.Server.Sending.{fresh, length-out_header}
use fuse_backend_rs.Server.Wire.{out_header}

beyond : (m n : ℕ) → m < n → ltb m n ≡ true
beyond m n h = ground arith

module _ (device : List (List ℕ) → List ℕ → ℕ ⊎ ℕ) (sent : List (List ℕ)) (memory : List ℕ) where
  abbrev start : Dev
  start = record { sent = sent; writer = fresh false memory }

  abbrev full : Dev × Outcome IoError ℕ
  full = (start, err (of_kind invalid_data))

  vectored-full :
      (bufs : List (List ℕ))
      → length memory < total_of bufs
      → write_vectored device bufs start ≡ full
  unfolding write_vectored check_available_space
  vectored-full bufs h = rw (beyond (length memory - 0) (total_of bufs) (omega arith)) refl

  write_parts-full :
      (unique : ℕ) (header out data3 : List ℕ)
      → length memory < length header + length out + length data3
      → write_parts device unique header out data3 start ≡ full
  unfolding write check_available_space
  write_parts-full unique header [] [] h =
      rw (beyond (length memory - 0) (length header) (omega arith)) refl
  write_parts-full unique header [] (c ∷ data3) h =
      vectored-full (header ∷ (c ∷ data3) ∷ []) (omega arith)
  write_parts-full unique header (b ∷ out) [] h =
      vectored-full (header ∷ (b ∷ out) ∷ []) (omega arith)
  write_parts-full unique header (b ∷ out) (c ∷ data3) h =
      vectored-full (header ∷ (b ∷ out) ∷ (c ∷ data3) ∷ []) (omega arith)

  -- Nothing is sent then, and the error is the caller's.
  pub reply_ok-full :
      (unique : ℕ) (out data3 : List ℕ)
      → length memory < 16 + length out + length data3
      → reply_ok device unique out data3 start
        ≡ (start, err (encode_message (of_kind invalid_data)))
  unfolding reply_ok
  reply_ok-full unique out data3 h =
      let len = (16 + length out + length data3) % 2 ^ 32 in
      let sized = length-out_header (record { len = len; error = 0; unique = unique }) in
      rw
        (write_parts-full unique (out_header (record { len = len; error = 0; unique = unique })) out
          data3 (omega (arith, sized)))
        refl
