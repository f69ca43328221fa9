-- ===== src/Transport/Lengths.antt =====
-- What the loops over the buffers in src/transport/mod.rs leave and hand out, as bytes.
use fuse_backend_rs.Prelude.{
  ℕ, ◌+◌, ◌-◌, ◌≤◌, ◌<◌, ◌≡◌, inl, inr, refl, sym, ap, List, [], ◌∷◌, ◌++◌, ◌==◌, length, take,
  drop, arith, length-append, append-nil, append_assoc, Bool-cases, ltb_cases, ==_iff,
}
use fuse_backend_rs.Prelude.Outcome.{ok}
use fuse_backend_rs.Transport.{total_len, local_buf, allocate, pop_used, cut_at, copy_out}
use fuse_backend_rs.Transport.Stream.{content}
use fuse_backend_rs.Prelude.Parts.{
  take_all, drop_all, take-append, drop-append, take-nil, drop-nil, monus-length-take,
  length-take_le,
}
use fuse_backend_rs.Transport.Volatile.{VolatileSlices}

module _ (slices : VolatileSlices) where
  open slices use {
    Slice, len, subslice, offset, bytes, length-bytes, subslice_within, offset_within,
  }

  pub total_len-eq :
      (bufs : List Slice) (count : ℕ)
      → total_len slices bufs count ≡ count + length (content slices bufs)
  unfolding content
  total_len-eq [] count = omega arith
  total_len-eq (buf ∷ bufs) count = omega (
    arith,
    total_len-eq bufs (count + len buf),
    length-append (bytes buf) (content slices bufs),
    length-bytes buf,
  )

  take-len : (buf : Slice) (rem : ℕ) → len buf ≤ rem → take rem (bytes buf) ≡ bytes buf
  take-len buf rem h = take_all rem (bytes buf) (omega (arith, length-bytes buf))

  drop-len : (buf : Slice) (rem : ℕ) → len buf ≤ rem → drop rem (bytes buf) ≡ []
  drop-len buf rem h = drop_all rem (bytes buf) (omega (arith, length-bytes buf))

  none_behind : (buf : Slice) (rem : ℕ) → rem < len buf → rem - length (bytes buf) ≡ 0
  none_behind buf rem h = omega (arith, length-bytes buf)

  local_buf-take :
      (buf : Slice) (rem : ℕ)
      → (l : Slice) × (local_buf slices buf rem ≡ ok l) × (bytes l ≡ take rem (bytes buf))
  local_buf-take buf rem = elim (ltb_cases rem (len buf)) [
    | inl (t, lt) ↦
        let (l, at, shows) = subslice_within buf rem (omega arith) in (l, rw (t, at) refl, shows)
    | inr (f, le) ↦ (buf, rw f refl, sym (take-len buf rem le))
  ]

  behind :
      (buf l : Slice) (rem : ℕ)
      → bytes l ≡ take rem (bytes buf)
      → rem - len l ≡ rem - length (bytes buf)
  behind buf l rem shows =
      omega (arith, monus-length-take rem (bytes buf), length-bytes l, ap length shows)

  pub allocate-take :
      (bufs : List Slice) (rem : ℕ)
      → (bs : List Slice) × (allocate slices bufs rem ≡ ok bs)
        × (content slices bs ≡ take rem (content slices bufs))
  unfolding allocate content
  allocate-take [] rem = ([], refl, sym (take-nil rem))
  allocate-take (buf ∷ bufs) rem = elim (Bool-cases (rem == 0)) [
    | inl t ↦ ([], rw (t, allocate) refl, rw ((==_iff rem 0).0 t) refl)
    | inr f ↦
        let (l, at, shows) = local_buf-take buf rem in
        let (bs, more, rest) = allocate-take bufs (rem - len l) in
        (
          l ∷ bs,
          rw (f, allocate, at, more) refl,
          rw (shows, rest, behind buf l rem shows)
              (sym (take-append rem (bytes buf) (content slices bufs))),
        )
  ]

  pub pop_used-drop :
      (bufs : List Slice) (rem : ℕ)
      → (rest : List Slice) × (pop_used slices bufs rem ≡ ok rest)
        × (content slices rest ≡ drop rem (content slices bufs))
  unfolding pop_used content
  pop_used-drop [] rem = ([], refl, sym (drop-nil rem))
  pop_used-drop (buf ∷ bufs) rem = elim (ltb_cases rem (len buf)) [
    | inl (t, lt) ↦
        let (s, at, shows) = offset_within buf rem (omega arith) in
        (
          s ∷ bufs,
          rw (t, at) refl,
          rw (shows, drop-append rem (bytes buf) (content slices bufs), none_behind buf rem lt)
              refl,
        )
    | inr (f, le) ↦
        let (rest, more, shows) = pop_used-drop bufs (rem - len buf) in
        (
          rest,
          rw (f, more) refl,
          rw
              (
                shows,
                drop-append rem (bytes buf) (content slices bufs),
                drop-len buf rem le,
                length-bytes buf,
              )
              refl,
        )
  ]

  joined :
      (n : ℕ) (xs ys ys' zs : List ℕ)
      → n ≡ length xs
      → ys' ≡ ys
      → zs ≡ xs ++ ys
      → ◌≡◌ {A = ℕ × List ℕ} (n + length ys', xs ++ ys') (length zs, zs)
  joined n xs ys ys' zs hn hy hz =
      rw (hz, hy, hn) (ap (λ k. (k, xs ++ ys)) (sym (length-append xs ys)))

  pub copy_out-take :
      (bufs : List Slice) (rem : ℕ)
      → copy_out slices bufs rem
        ≡ (length (take rem (content slices bufs)), take rem (content slices bufs))
  unfolding copy_out content
  copy_out-take [] rem = rw (take-nil {A = ℕ} rem) refl
  copy_out-take (buf ∷ bufs) rem = elim (ltb_cases rem (len buf)) [
    | inl (t, lt) ↦
        rw (t, copy_out, copy_out-take bufs (rem - rem))
          (joined _ _ _ _ _ (sym (length-take_le rem (bytes buf) (omega (arith, length-bytes buf))))
            (ap (λ k. take k (content slices bufs)) (omega (arith, length-bytes buf)))
            (take-append rem (bytes buf) (content slices bufs)))
    | inr (f, le) ↦
        rw (f, copy_out, copy_out-take bufs (rem - len buf))
          (joined _ _ _ _ _
            (sym (length-take_le (len buf) (bytes buf) (omega (arith, length-bytes buf)))) refl
            (rw
              (
                take-append rem (bytes buf) (content slices bufs),
                take-len buf rem le,
                take-len buf (len buf) (omega arith),
                length-bytes buf,
              )
              refl))
  ]

  pub cut_at_found :
      (bufs : List Slice) (off : ℕ)
      → off < length (content slices bufs)
      → (before : List Slice) × (left : ℕ) × (front : Slice) × (rest : List Slice) × (cut_at slices
            bufs off
          ≡ (before, (left, front ∷ rest)))
        × (left < len front)
        × (content slices before ++ take left (bytes front) ≡ take off (content slices bufs))
        × (drop left (bytes front) ++ content slices rest ≡ drop off (content slices bufs))
  unfolding cut_at content
  cut_at_found [] off h = absurd (omega arith)
  cut_at_found (buf ∷ bufs) off h = elim (ltb_cases off (len buf)) [
    | inl (t, lt) ↦ (
      [],
      off,
      buf,
      bufs,
      rw (t, cut_at) refl,
      lt,
      rw (take-append off (bytes buf) (content slices bufs), none_behind buf off lt)
          (sym (append-nil (take off (bytes buf)))),
      rw (drop-append off (bytes buf) (content slices bufs), none_behind buf off lt) refl,
    )
    | inr (f, le) ↦
        let (before, left, front, rest, at, lt, first, second) =
          cut_at_found bufs (off - len buf)
            (omega (arith, length-bytes buf, length-append (bytes buf) (content slices bufs))) in
        (
          buf ∷ before,
          left,
          front,
          rest,
          rw (f, cut_at, at) refl,
          lt,
          rw
              (
                append_assoc (bytes buf) (content slices before) (take left (bytes front)),
                first,
                take-append off (bytes buf) (content slices bufs),
                take-len buf off le,
                length-bytes buf,
              )
              refl,
          rw
              (
                second,
                drop-append off (bytes buf) (content slices bufs),
                drop-len buf off le,
                length-bytes buf,
              )
              refl,
        )
  ]

  pub cut_at_past :
      (bufs : List Slice) (off : ℕ)
      → length (content slices bufs) ≤ off
      → cut_at slices bufs off ≡ (bufs, (off - length (content slices bufs), []))
  unfolding cut_at content
  cut_at_past [] off h = ap (λ k. ([], (k, []))) (omega arith)
  cut_at_past (buf ∷ bufs) off h = elim (ltb_cases off (len buf)) [
    | inl (t, lt) ↦
        absurd (omega (arith, length-bytes buf, length-append (bytes buf) (content slices bufs)))
    | inr (f, le) ↦
        rw
          (
            f,
            cut_at,
            cut_at_past bufs (off - len buf)
                (omega (arith, length-bytes buf, length-append (bytes buf) (content slices bufs))),
          )
          (ap (λ k. (buf ∷ bufs, (k, [])))
            (omega (arith, length-bytes buf, length-append (bytes buf) (content slices bufs))))
  ]
