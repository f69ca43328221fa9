-- ===== src/Prelude/Map.antt =====
-- Maps with numbers for keys (the source's HashMap and BTreeMap), as association lists.
use Prim.Native.Nat.{ℕ}
use mathlib.Core.Path.{◌≡◌, sym, ap, ◌∙◌}
use mathlib.Core.Logic.{◌⊎◌, inl, inr}
use mathlib.Core.Option.{Option, none, some}
use mathlib.Core.List.{List, [], ◌∷◌}
use native.Mathlib.Omega.{arith}
use fuse_backend_rs.Prelude.Tests.{◌==◌, ==_iff, Bool-cases, if◌then◌else◌}

abbrev pub Map {ℓ} : Type ℓ → Type ℓ
Map V = List (ℕ × V)

module _ {ℓ} {V : Type ℓ} where
  unfoldable pub get : ℕ → Map V → Option V
  get k [] = none
  get k ((j, v) ∷ m) = if j == k then some v else get k m

  unfoldable pub remove : ℕ → Map V → Map V
  remove k [] = []
  remove k ((j, v) ∷ m) = let rest = remove k m in if j == k then rest else (j, v) ∷ rest

  unfoldable pub insert : ℕ → V → Map V → Map V
  unfolding remove
  insert k v m = (k, v) ∷ remove k m

  pub get-remove : (k j : ℕ) (m : Map V) → get j (remove k m) ≡ (if k == j then none else get j m)
  unfolding get remove
  get-remove k j [] = ground arith
  get-remove k j ((i, v) ∷ m) = ground (arith, get-remove k j m)

  pub get-insert :
      (k j : ℕ) (v : V) (m : Map V) → get j (insert k v m) ≡ (if k == j then some v else get j m)
  unfolding get insert
  get-insert k j v m = ground (arith, get-remove k j m)

  -- Where an entry comes from.
  pub insert_cases :
      (k j : ℕ) (v w : V) (m : Map V)
      → get j (insert k v m) ≡ some w
      → ((k ≡ j) × (v ≡ w)) ⊎ (get j m ≡ some w)
  insert_cases k j v w m e = elim (Bool-cases (k == j)) [
    | inl t ↦
        let shown : some v ≡ some w =
          ap (λ b. if b then some v else get j m) (sym t) ∙ sym (get-insert k j v m) ∙ e in
        inl ((==_iff k j).0 t, cc shown)
    | inr f ↦ inr (ap (λ b. if b then some v else get j m) (sym f) ∙ sym (get-insert k j v m) ∙ e)
  ]

  pub get-remove-some :
      (k j : ℕ) (w : V) (m : Map V) → get j (remove k m) ≡ some w → get j m ≡ some w
  get-remove-some k j w m e = ground (arith, get-remove k j m)

pub ruleset map_laws = (get-remove, get-insert)
