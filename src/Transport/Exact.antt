-- ===== src/Transport/Exact.antt =====
-- `read_exact` and `read_obj` of the reader of src/transport/mod.rs.
use fuse_backend_rs.Prelude.{
  ℕ, zero, suc, ◌-◌, ◌≤◌, ◌<◌, ◌≡◌, refl, sym, ap, ◌∙◌, some, List, [], ◌++◌, ==_iff, ==_ne, length,
  take, drop, arith,
}
use fuse_backend_rs.Prelude.Outcome.{ok, err}
use native.Mathlib.Decide.{dec_lt}
use fuse_backend_rs.Prelude.Parts.{length-take_bound}
use fuse_backend_rs.Transport.{IoBuffers, read_exact_loop, read_obj, unexpected_eof}
use fuse_backend_rs.Transport.Consume.{used_none, left_in, used, Fits, read-take}
use fuse_backend_rs.Transport.Stream.{content}
use fuse_backend_rs.Prelude.Parts.{
  take_all, take-nil, drop_all, length-take_le, length-take-drop, length-take_pos,
}
use fuse_backend_rs.Transport.Volatile.{VolatileSlices}

module _ (slices : VolatileSlices) where
  open slices use {Slice}

  pub Fits-used :
      (b : IoBuffers slices) (rest : List Slice) (size : ℕ)
      → Fits slices b
      → content slices rest ≡ drop size (left_in slices b)
      → Fits slices (used slices b rest (length (take size (left_in slices b))))
  Fits-used b rest size fits shows =
      omega (arith, fits, ap length shows, length-take-drop size (left_in slices b))

  -- Nothing is left to read.
  read_exact_loop_zero :
      (fuel : ℕ) (b : IoBuffers slices) (size : ℕ) (done : List ℕ)
      → size ≡ 0
      → read_exact_loop slices (suc fuel) b size done ≡ some (ok (b, done))
  unfolding read_exact_loop
  read_exact_loop_zero fuel b size done h = rw ((==_iff size 0).1 h, read_exact_loop) refl

  -- Something is left to read, and no byte is there.
  read_exact_loop-eof :
      (fuel : ℕ) (b : IoBuffers slices) (size : ℕ) (done : List ℕ)
      → 0 < size
      → left_in slices b ≡ []
      → Fits slices b
      → read_exact_loop slices (suc fuel) b size done ≡ some (err unexpected_eof)
  unfolding read_exact_loop
  read_exact_loop-eof fuel b size done h empty fits =
      let (rest, at, leaves) = read-take slices b size fits in
      rw (==_ne size 0 (omega arith), read_exact_loop, at, empty, take-nil {A = ℕ} size) refl

  -- A first step that gives some bytes.
  read_exact_loop_step :
      (fuel : ℕ) (b : IoBuffers slices) (size : ℕ) (done : List ℕ)
      → 0 < size
      → 0 < length (left_in slices b)
      → Fits slices b
      → (rest : List Slice) × (read_exact_loop slices (suc fuel) b size done
          ≡ read_exact_loop slices fuel
              (used slices b rest (length (take size (left_in slices b))))
              (size - length (take size (left_in slices b)))
              (done ++ take size (left_in slices b)))
        × (content slices rest ≡ drop size (left_in slices b))
  unfolding read_exact_loop
  read_exact_loop_step fuel b size done h some_left fits =
      let (rest, at, leaves) = read-take slices b size fits in
      (
        rest,
        rw
            (
              ==_ne size 0 (omega arith),
              read_exact_loop,
              at,
              ==_ne (length (take size (left_in slices b))) 0
                  (omega (arith, length-take_pos size (left_in slices b) h some_left)),
            )
            refl,
        leaves,
      )

  -- Everything is there: one step reads it.
  pub read_obj-take :
      (b : IoBuffers slices) (size : ℕ)
      → Fits slices b
      → size ≤ length (left_in slices b)
      → (rest : List Slice) × (read_obj slices b size
          ≡ some (ok (used slices b rest size, take size (left_in slices b))))
        × (content slices rest ≡ drop size (left_in slices b))
  unfolding read_obj
  read_obj-take b zero fits h =
      (b.buffers, rw (read_exact_loop_zero 0 b 0 [] refl, used_none slices b 0 refl) refl, refl)
  read_obj-take b (suc m) fits h =
      let (rest, at, leaves) =
        read_exact_loop_step (suc m) b (suc m) [] (omega arith) (omega arith) fits in
      let n = length-take_le (suc m) (left_in slices b) h in
      (
        rest,
        at
            ∙ read_exact_loop_zero m _ _ _ (omega (arith, n))
            ∙ ap (λ k. some (ok (used slices b rest k, take (suc m) (left_in slices b)))) n,
        leaves,
      )

  pub read_obj-eof :
      (b : IoBuffers slices) (size : ℕ)
      → Fits slices b
      → length (left_in slices b) < size
      → read_obj slices b size ≡ some (err unexpected_eof)
  unfolding read_obj
  read_obj-eof b zero fits h = absurd (omega arith)
  read_obj-eof b (suc m) fits h = elim (dec_lt 0 (length (left_in slices b))) [
    | no p ↦
        read_exact_loop-eof (suc m) b (suc m) [] (omega arith)
          (sym (take_all 0 (left_in slices b) (omega arith))) fits
    | yes p ↦
        let (rest, at, leaves) = read_exact_loop_step (suc m) b (suc m) [] (omega arith) p fits in
        at
        ∙ read_exact_loop-eof m _ _ _ (omega (arith, length-take_bound (suc m) (left_in slices b)))
            (leaves ∙ drop_all (suc m) (left_in slices b) (omega arith))
            (Fits-used b rest (suc m) fits leaves)
  ]
