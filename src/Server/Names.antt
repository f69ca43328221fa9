-- ===== src/Server/Names.antt =====
-- `extract_two_cstrs` of src/api/server/mod.rs.
use fuse_backend_rs.Prelude.{
  ℕ, zero, suc, ◌+◌, ◌<◌, ◌≡◌, ◌≢◌, ◌⊎◌, inl, inr, refl, ap, ◌∙◌, none, some, List, [], ◌∷◌, ◌++◌,
  ==_ne, arith,
}
use fuse_backend_rs.Prelude.Outcome.{Outcome, ok, err}
use fuse_backend_rs.Fusedev.{raw_os_error}
use fuse_backend_rs.Server.{
  Error, decode_message, invalid_cstring, einval, at_zero, bytes_to_cstr, extract_two_cstrs,
}

-- Bytes none of which is zero.
abbrev pub NoZero : List ℕ → Type 0
NoZero [] = Unit {0}
NoZero (b ∷ bs) = (b ≢ 0) × NoZero bs

abbrev pub count_zeros : List ℕ → ℕ
count_zeros [] = 0
count_zeros (zero ∷ bs) = 1 + count_zeros bs
count_zeros (suc b ∷ bs) = count_zeros bs

count_zeros-NoZero : (bs : List ℕ) → NoZero bs → count_zeros bs ≡ 0
count_zeros-NoZero [] h = refl
count_zeros-NoZero (zero ∷ bs) (ne, h) = absurd (ne refl)
count_zeros-NoZero (suc b ∷ bs) (ne, h) = count_zeros-NoZero bs h

count_zeros-append : (a r : List ℕ) → NoZero a → count_zeros (a ++ 0 ∷ r) ≡ 1 + count_zeros r
count_zeros-append [] r h = refl
count_zeros-append (zero ∷ a) r (ne, h) = absurd (ne refl)
count_zeros-append (suc b ∷ a) r (ne, h) = count_zeros-append a r h

-- Where the first zero is, if there is one.
first_zero :
    (buf : List ℕ)
    → (NoZero buf × (at_zero buf ≡ none))
      ⊎ ((a r : List ℕ) × (buf ≡ a ++ 0 ∷ r) × NoZero a × (at_zero buf ≡ some (a, r)))
unfolding at_zero
first_zero [] = inl (tt, refl)
first_zero (zero ∷ bs) = inr ([], bs, refl, tt, refl)
first_zero (suc b ∷ bs) = elim (first_zero bs) [
  | inl (h, e) ↦
      inl ((λ p. absurd (omega (arith, p)), h), rw (==_ne (suc b) 0 (omega arith), e) refl)
  | inr (a, r, is, h, e) ↦ inr (
    suc b ∷ a,
    r,
    ap (λ l. suc b ∷ l) is,
    (λ p. absurd (omega (arith, p)), h),
    rw (==_ne (suc b) 0 (omega arith), e) refl,
  )
]

-- Two names that end with a zero each, or fewer than two zeros and an error.
abbrev TwoNames : List ℕ → Outcome Error (List ℕ × List ℕ) → Type 0
TwoNames buf result =
    ((a b rest : List ℕ) × NoZero a
      × NoZero b
      × (buf ≡ a ++ 0 ∷ (b ++ 0 ∷ rest))
      × (result ≡ ok (a, b)))
    ⊎ ((count_zeros buf < 2) × ((e : Error) × (result ≡ err e)))

-- A body gives two names if there are two zeros in it at least: the bytes before the first, and
-- those between it and the second. With fewer zeros it is refused.
extract_two_cstrs-TwoNames : (buf : List ℕ) → TwoNames buf (extract_two_cstrs buf)
unfolding extract_two_cstrs bytes_to_cstr
extract_two_cstrs-TwoNames buf = elim (first_zero buf) [
  | inl (h, e) ↦ inr (
    omega (arith, count_zeros-NoZero buf h),
    (decode_message (inr (raw_os_error einval)), rw (e, extract_two_cstrs) refl),
  )
  | inr (a, [], is, h, e) ↦ inr (
    omega (arith, ap count_zeros is, count_zeros-append a [] h),
    (decode_message (inr (raw_os_error einval)), rw (e, extract_two_cstrs) refl),
  )
  | inr (a, c ∷ r, is, h, e) ↦ elim (first_zero (c ∷ r)) [
    | inl (h', e') ↦ inr (
      omega
          (arith, ap count_zeros is, count_zeros-append a (c ∷ r) h, count_zeros-NoZero (c ∷ r) h'),
      (invalid_cstring, rw (e, extract_two_cstrs, e', bytes_to_cstr) refl),
    )
    | inr (b, rest, is', h', e') ↦ inl (
      a,
      b,
      rest,
      h,
      h',
      is ∙ ap (λ l. a ++ 0 ∷ l) is',
      rw (e, extract_two_cstrs, e', bytes_to_cstr) refl,
    )
  ]
]
