-- ===== src/Transport/Consume.antt =====
-- `consume`, `read` and `split_at` of src/transport/mod.rs on the bytes of the buffers.
use fuse_backend_rs.Prelude.{
  ℕ, zero, suc, ◌+◌, ◌-◌, ◌≤◌, ◌<◌, ◌≡◌, inl, inr, refl, sym, ap, ap₂, ◌∙◌, false, List, [], ◌∷◌,
  ◌++◌, ==_iff, ==_ne, length, take, drop, arith, append-nil,
}
use fuse_backend_rs.Prelude.{leb_fits, ltb_cases}
use fuse_backend_rs.Prelude.Outcome.{Outcome, ok, err}
use fuse_backend_rs.Transport.{split_result}
use fuse_backend_rs.Fs.{u64_mod}
use fuse_backend_rs.Transport.{
  IoBuffers, TransportError, allocate, mark_used, consume, copy_out, split_at, read,
  split_out_of_bounds,
}
use fuse_backend_rs.Transport.Lengths.{
  allocate-take, pop_used-drop, copy_out-take, cut_at_found, cut_at_past,
}
use fuse_backend_rs.Transport.Stream.{content, content-append}
use fuse_backend_rs.Prelude.Parts.{
  take_all, drop_all, take-take, drop-take-length, length-take_bound,
}
use fuse_backend_rs.Transport.Volatile.{VolatileSlices}

drop_of_take_nil : (n : ℕ) (xs : List ℕ) → take n xs ≡ [] → drop n xs ≡ xs
drop_of_take_nil zero xs h = refl
drop_of_take_nil (suc n) [] h = refl
drop_of_take_nil (suc n) (x ∷ xs) h = absurd (omega (arith, ap length h))

module _ (slices : VolatileSlices) where
  open slices use {Slice, len, subslice, offset, bytes, subslice_within, offset_within}

  -- The bytes that a reader can still give.
  abbrev pub left_in : IoBuffers slices → List ℕ
  left_in b = content slices b.buffers

  -- A reader after `n` more bytes, on the buffers `rest`.
  abbrev pub used : IoBuffers slices → List Slice → ℕ → IoBuffers slices
  used b rest n = record b { buffers = rest; bytes_consumed = b.bytes_consumed + n }

  pub used_none : (b : IoBuffers slices) (n : ℕ) → n ≡ 0 → used b b.buffers n ≡ b
  used_none b n h = ap (λ k. record b { bytes_consumed = k }) (omega arith)

  pub mark_used-drop :
      (b : IoBuffers slices) (n : ℕ)
      → b.bytes_consumed + n < u64_mod
      → (rest : List Slice) × (mark_used slices b n ≡ ok (used b rest n))
        × (content slices rest ≡ drop n (left_in b))
  unfolding mark_used
  mark_used-drop b n h =
      let (rest, at, shows) = pop_used-drop slices b.buffers n in
      (rest, rw (leb_fits u64_mod (b.bytes_consumed + n) h, at) refl, shows)

  -- Where `f` answers with `n` bytes for every list of slices that shows the first bytes.
  pub consume-drop :
      {A : Type 0} (f : List Slice → Outcome TransportError (ℕ × A)) (idle : A)
      (b : IoBuffers slices) (count n : ℕ) (a : A)
      → ((bufs : List Slice) → content slices bufs ≡ take count (left_in b) → f bufs ≡ ok (n, a))
      → (take count (left_in b) ≡ [] → ◌≡◌ {A = ℕ × A} (n, a) (0, idle))
      → b.bytes_consumed + n < u64_mod
      → (rest : List Slice) × (consume slices false count f idle b ≡ ok (used b rest n, (n, a)))
        × (content slices rest ≡ drop n (left_in b))
  unfolding consume content
  consume-drop f idle b count n a answers idles h =
      let (bufs, at, shows) = allocate-take slices b.buffers count in
      elim bufs
          as (λ bs.
            allocate slices b.buffers count ≡ ok bs
            → content slices bs ≡ take count (left_in b)
            → (rest : List Slice) × (consume slices false count f idle b
                ≡ ok (used b rest n, (n, a)))
              × (content slices rest ≡ drop n (left_in b))) [
                | [] ↦ λ at shows.
                    let same = idles (sym shows) in
                    let n0 = ap (λ p. p.0) same in
                    (
                      b.buffers,
                      rw at (sym (ap₂ (λ u p. ok (u, p)) (used_none b n n0) same)),
                      rw n0 refl,
                    )
                | buf ∷ more ↦ λ at shows.
                    let (rest, marks, leaves) = mark_used-drop b n h in
                    (rest, rw (at, answers (buf ∷ more) shows, marks) refl, leaves)
              ]
        at shows

  -- A reader whose bytes do not overflow its count.
  abbrev pub Fits : IoBuffers slices → Type 0
  Fits b = b.bytes_consumed + length (left_in b) < u64_mod

  pub read-take :
      (b : IoBuffers slices) (size : ℕ)
      → Fits b
      → (rest : List Slice) × (read slices b size
          ≡ ok (
            used b rest (length (take size (left_in b))),
            (length (take size (left_in b)), take size (left_in b)),
          ))
        × (content slices rest ≡ drop size (left_in b))
  unfolding read
  read-take b size fits =
      let (rest, at, leaves) =
        consume-drop (λ bufs. ok (copy_out slices bufs size)) [] b size
          (length (take size (left_in b))) (take size (left_in b))
          (λ bufs shows.
            rw (copy_out-take slices bufs size, shows, take-take size (left_in b)) refl)
          (λ e. rw e refl) (omega (arith, length-take_bound size (left_in b))) in
      (rest, at, leaves ∙ drop-take-length size (left_in b))

  -- The two readers of `split_at`.
  abbrev pub kept : IoBuffers slices → List Slice → IoBuffers slices
  kept b front = record b { buffers = front }

  abbrev pub given : List Slice → IoBuffers slices
  given back = record { buffers = back; bytes_consumed = 0; dirty = [] }

  -- What `split_at` makes of the buffers, where `left` bytes of `front` still belong to the first.
  abbrev pub Parts :
      IoBuffers slices → ℕ → Outcome TransportError (IoBuffers slices × IoBuffers slices) → Type 0
  Parts b off result =
      (front back : List Slice) × (result ≡ ok (kept b front, given back))
      × (content slices front ≡ take off (left_in b))
      × (content slices back ≡ drop off (left_in b))

  split_result-Parts :
      (b : IoBuffers slices) (off left : ℕ) (before : List Slice) (front : Slice)
      (rest : List Slice)
      → left < len front
      → content slices before ++ take left (bytes front) ≡ take off (left_in b)
      → drop left (bytes front) ++ content slices rest ≡ drop off (left_in b)
      → Parts b off (split_result slices b off (before, (left, front ∷ rest)))
  unfolding content
  split_result-Parts b off left before front rest lt first second = elim (ltb_cases 0 left) [
    | inl (t, pos) ↦
        let (head, at, shows) = subslice_within front left (omega arith) in
        let (tail, at', shows') = offset_within front left (omega arith) in
        (
          before ++ head ∷ [],
          tail ∷ rest,
          rw (t, at, at') refl,
          rw (content-append slices before (head ∷ []), append-nil (bytes head), shows) first,
          rw shows' second,
        )
    | inr (f, le) ↦
        let e : 0 ≡ left = omega arith in
        (
          before,
          front ∷ rest,
          rw f refl,
          sym (append-nil (content slices before))
              ∙ ap (λ k. content slices before ++ take k (bytes front)) e
              ∙ first,
          ap (λ k. drop k (bytes front) ++ content slices rest) e ∙ second,
        )
  ]

  pub split_at-Parts :
      (b : IoBuffers slices) (off : ℕ)
      → off ≤ length (left_in b)
      → Parts b off (split_at slices b off)
  unfolding split_at content
  split_at-Parts b off h = elim (ltb_cases off (length (left_in b))) [
    | inl (t, lt) ↦
        let (before, left, front, rest, at, less, first, second) =
          cut_at_found slices b.buffers off lt in
        rw at (split_result-Parts b off left before front rest less first second)
    | inr (f, le) ↦ (
      b.buffers,
      [],
      rw
          (
            cut_at_past slices b.buffers off le,
            (==_iff (off - length (left_in b)) 0).1 (omega arith),
          )
          refl,
      sym (take_all off (left_in b) le),
      sym (drop_all off (left_in b) le),
    )
  ]

  pub split_at_past :
      (b : IoBuffers slices) (off : ℕ)
      → length (left_in b) < off
      → split_at slices b off ≡ err (split_out_of_bounds off)
  unfolding split_at
  split_at_past b off h =
      rw
        (
          cut_at_past slices b.buffers off (omega arith),
          ==_ne (off - length (left_in b)) 0 (omega arith),
        )
        refl
