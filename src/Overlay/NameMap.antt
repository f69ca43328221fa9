-- ===== src/Overlay/NameMap.antt =====
-- Maps from names, for the hash tables of src/overlayfs/mod.rs. The order of the entries is not
-- that of a hash table, and what is proved does not depend on it.
use fuse_backend_rs.Prelude.{
  ◌≡◌, refl, ap, Bool, false, ◌||◌, Bool-cases, inl, inr, Option, none, some, List, [], ◌∷◌, ◌++◌,
  append-nil, append_assoc, if◌then◌else◌, bytes_eq, bytes_eq_iff, arith,
}
use fuse_backend_rs.Fs.{Name}

module _ {ℓ} {V : Type ℓ} where
  unfoldable pub find : Name → List (Name × V) → Option V
  find n [] = none
  find n ((m, v) ∷ entries) = if bytes_eq m n then some v else find n entries

  -- `insert` of a hash table.
  unfoldable pub put : Name → V → List (Name × V) → List (Name × V)
  put n v [] = (n, v) ∷ []
  put n v ((m, w) ∷ entries) =
      let rest = put n v entries in if bytes_eq m n then (m, v) ∷ entries else (m, w) ∷ rest

  pub find-put :
      (n j : Name) (v : V) (entries : List (Name × V))
      → find j (put n v entries) ≡ (if bytes_eq n j then some v else find j entries)
  unfolding find put
  find-put n j v [] = refl
  find-put n j v ((m, w) ∷ entries) =
      ground (arith, bytes_eq_iff m n, bytes_eq_iff m j, bytes_eq_iff n j, find-put n j v entries)

module _ {ℓ} {V : Type ℓ} where
  -- `match map.get_mut(&name) { Some(v) => v.push(item), None => map.insert(name, vec![item]) }`
  unfoldable pub push : Name → V → List (Name × List V) → List (Name × List V)
  push n v [] = (n, v ∷ []) ∷ []
  push n v ((m, vs) ∷ entries) =
      let rest = push n v entries in
      if bytes_eq m n then (m, vs ++ v ∷ []) ∷ entries else (m, vs) ∷ rest

  -- A vector, where there is one, with more behind it.
  abbrev pub appended : Option (List V) → List V → Option (List V)
  appended (some vs) more = some (vs ++ more)
  appended none [] = none
  appended none (v ∷ more) = some (v ∷ more)

  abbrev pub one : Option V → List V
  one none = []
  one (some v) = v ∷ []

  pub appended-nil : (o : Option (List V)) → appended o [] ≡ o
  appended-nil none = refl
  appended-nil (some vs) = ap some (append-nil vs)

  pub appended-append :
      (o : Option (List V)) (vs ws : List V) → appended (appended o vs) ws ≡ appended o (vs ++ ws)
  appended-append none [] ws = refl
  appended-append none (v ∷ vs) ws = refl
  appended-append (some us) vs ws = ap some (append_assoc us vs ws)

  pub find-push :
      (n j : Name) (v : V) (entries : List (Name × List V))
      → find j (push n v entries)
        ≡ (if bytes_eq n j then appended (find j entries) (v ∷ []) else find j entries)
  unfolding find push
  find-push n j v [] = refl
  find-push n j v ((m, vs) ∷ entries) =
      ground (arith, bytes_eq_iff m n, bytes_eq_iff m j, bytes_eq_iff n j, find-push n j v entries)

module _ {ℓ} {V : Type ℓ} where
  -- No name has two entries.
  abbrev pub Unique : List (Name × V) → Type ℓ
  Unique [] = Unit
  Unique ((n, v) ∷ entries) = (find n entries ≡ none) × Unique entries

  pub put-Unique :
      (n : Name) (v : V) (entries : List (Name × V)) → Unique entries → Unique (put n v entries)
  unfolding put find
  put-Unique n v [] unique = (refl, tt)
  put-Unique n v ((m, w) ∷ entries) (fresh, unique) = elim (Bool-cases (bytes_eq m n)) [
    | inl t ↦ rw t (fresh, unique)
    | inr f ↦ rw f (
      ground (arith, find-put n m v entries, f, fresh, bytes_eq_iff m n, bytes_eq_iff n m),
      put-Unique n v entries unique,
    )
  ]

abbrev pub listed : Name → List Name → Bool
listed n [] = false
listed n (m ∷ names) = bytes_eq m n || listed n names
