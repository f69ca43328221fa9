-- ===== src/Xattr/Prefixes.antt =====
-- src/passthrough/xattrmap.rs: prefixes of names, and lists of names with their closing zeros.
use fuse_backend_rs.Prelude.{
  ℕ, ◌≡◌, refl, true, false, List, [], ◌∷◌, ◌++◌, arith, ◌||◌, length, drop,
}
use fuse_backend_rs.Xattr.{starts_with, has_zero, split_zero, unprocessed}

pub starts_with-append : (p n : List ℕ) → starts_with (p ++ n) p ≡ true
unfolding starts_with
starts_with-append [] n = refl
starts_with-append (c ∷ p) n = ground (arith, starts_with-append p n)

pub drop-append : (p n : List ℕ) → drop (length p) (p ++ n) ≡ n
drop-append [] n = refl
drop-append (c ∷ p) n = drop-append p n

pub has_zero-append : (p n : List ℕ) → has_zero (p ++ n) ≡ (has_zero p || has_zero n)
has_zero-append [] n = refl
has_zero-append (c ∷ p) n = ground (arith, has_zero-append p n)

-- Names, each with a closing zero.
abbrev pub listing : List (List ℕ) → List ℕ
listing [] = []
listing (n ∷ ns) = n ++ 0 ∷ listing ns

-- A name as the system gives it: it has bytes, and no zero among them.
pub record IsName (n : List ℕ) : Type 0 where
  pub byte : ℕ
  pub others : List ℕ
  pub is : n ≡ byte ∷ others
  pub no_zero : has_zero n ≡ false

split_zero-append :
    (n rest : List ℕ)
    → has_zero n ≡ false
    → split_zero (n ++ 0 ∷ rest) ≡ (n, (split_zero rest).0 ∷ (split_zero rest).1)
unfolding split_zero
split_zero-append [] rest h = refl
split_zero-append (c ∷ n) rest h = ground (arith, split_zero-append n rest)

pub unprocessed-append :
    (n rest : List ℕ) → IsName n → unprocessed (n ++ 0 ∷ rest) ≡ n ∷ unprocessed rest
unfolding unprocessed
unprocessed-append n rest p = rw (split_zero-append n rest p.no_zero, p.is)
