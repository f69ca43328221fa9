-- ===== src/Xattr/Total.antt =====
-- src/passthrough/xattrmap.rs: the parser returns for every input.
use fuse_backend_rs.Prelude.{
  ℕ, zero, suc, ◌+◌, ◌%◌, ◌≤◌, ◌<◌, ◌≡◌, refl, Bool, true, false, Option, some, List, [], ◌∷◌, ◌++◌,
  arith, ◌==◌, if◌then◌else◌, length, Bool-cases, inl, inr,
}
use fuse_backend_rs.Prelude.Outcome.{Outcome, ok, err, panic, ◌>>=◌}
use fuse_backend_rs.Xattr.{ErrorKind, Error, Scope, RuleType, Rule, cstring, all}
use fuse_backend_rs.Xattr.Parse.{
  next_token, fields_from_tokens, from_tokens, type_from_bytes, scope_from_bytes, is_map, added,
  is_ascii_whitespace, parse_rules, try_from, trim_start, trim_end, at_rule,
}

-- A step that succeeds leaves fewer than `n` characters.
module _ {A : Type 0} where
  abbrev Shrinks : ℕ → Outcome ErrorKind (A × List ℕ) → Type 0
  Shrinks n (ok (a, rest)) = length rest < n
  Shrinks n (err e) = Unit {0}
  Shrinks n panic = Unit {0}

  Shrinks-mono : (m n : ℕ) (o : Outcome ErrorKind (A × List ℕ)) → m ≤ n → Shrinks m o → Shrinks n o
  Shrinks-mono m n (ok (a, rest)) le h = omega arith
  Shrinks-mono m n (err e) le h = tt
  Shrinks-mono m n panic le h = tt

  if-Shrinks :
      (n : ℕ) (b : Bool) (x y : Outcome ErrorKind (A × List ℕ))
      → Shrinks n x
      → Shrinks n y
      → Shrinks n (if b then x else y)
  if-Shrinks n true x y p q = p
  if-Shrinks n false x y p q = q

module _ {A B : Type 0} where
  bind-Shrinks :
      (n : ℕ) (m : Outcome ErrorKind (A × List ℕ)) (f : A × List ℕ → Outcome ErrorKind (B × List ℕ))
      → Shrinks n m
      → ((a : A) (rest : List ℕ) → length rest < n → Shrinks n (f (a, rest)))
      → Shrinks n (m >>= f)
  bind-Shrinks n (ok (a, rest)) f p q = q a rest p
  bind-Shrinks n (err e) f p q = tt
  bind-Shrinks n panic f p q = tt

  any-Shrinks :
      (n : ℕ) (m : Outcome ErrorKind A) (f : A → Outcome ErrorKind (B × List ℕ))
      → ((a : A) → Shrinks n (f a))
      → Shrinks n (m >>= f)
  any-Shrinks n (ok a) f q = q a
  any-Shrinks n (err e) f q = tt
  any-Shrinks n panic f q = tt

next_token-Shrinks :
    (delim : ℕ) (tokens : List ℕ) → Shrinks (length tokens) (next_token delim tokens)
unfolding next_token
next_token-Shrinks delim [] = tt
next_token-Shrinks delim (ch ∷ tokens) =
    let n : ℕ = suc (length tokens) in
    if-Shrinks n (ch == delim) (ok ([], tokens))
      (next_token delim tokens >>= λ (bytes, rest). ok ((ch % 256) ∷ bytes, rest)) (omega arith)
      (bind-Shrinks n (next_token delim tokens) (λ (bytes, rest). ok ((ch % 256) ∷ bytes, rest))
        (Shrinks-mono (length tokens) n (next_token delim tokens) (omega arith)
          (next_token-Shrinks delim tokens))
        (λ bytes rest h. h))

-- A token that is read from fewer than `n` characters, and what follows it.
then-Shrinks :
    {B : Type 0} (n delim : ℕ) (tokens : List ℕ)
    (f : List ℕ × List ℕ → Outcome ErrorKind (B × List ℕ))
    → length tokens ≤ n
    → ((bytes rest : List ℕ) → length rest < n → Shrinks n (f (bytes, rest)))
    → Shrinks n (next_token delim tokens >>= f)
then-Shrinks n delim tokens f le q =
    bind-Shrinks n (next_token delim tokens) f
      (Shrinks-mono (length tokens) n (next_token delim tokens) le
        (next_token-Shrinks delim tokens))
      q

fields-Shrinks :
    (n delim : ℕ) (t : RuleType) (s : Scope) (tokens : List ℕ)
    → length tokens ≤ n
    → Shrinks n (fields_from_tokens delim t s tokens)
unfolding fields_from_tokens
fields-Shrinks n delim t s tokens le = then-Shrinks n delim tokens _ le (λ k rest h.
    any-Shrinks n (cstring k) _ (λ key.
      then-Shrinks n delim rest _ (omega arith)
        (λ p rest' h'. any-Shrinks n (cstring p) _ (λ prepend. h'))))

from_tokens-Shrinks : (tokens : List ℕ) → Shrinks (length tokens) (from_tokens tokens)
unfolding from_tokens
from_tokens-Shrinks [] = tt
from_tokens-Shrinks (delim ∷ tokens) =
    let n : ℕ = suc (length tokens) in
    then-Shrinks n delim tokens _ (omega arith) (λ t rest h.
      any-Shrinks n (type_from_bytes t) _ (λ type_.
        if-Shrinks n (is_map type_) (fields_from_tokens delim type_ all rest) _
          (fields-Shrinks n delim type_ all rest (omega arith))
          (then-Shrinks n delim rest _ (omega arith) (λ s rest' h'.
            any-Shrinks n (scope_from_bytes s) _
              (λ scope. fields-Shrinks n delim type_ scope rest' (omega arith))))))

-- What the parser returns, if it does.
abbrev pub Returns : Option (Outcome Error (List Rule)) → Type 0
Returns o = (r : Outcome Error (List Rule)) × (o ≡ some r)

-- The step of the loop for a rule.
rule-Returns :
    (fuel n : ℕ) (rules : List Rule) (o : Outcome ErrorKind (Rule × List ℕ))
    → Shrinks n o
    → ((rest : List ℕ) (more : List Rule)
        → length rest < n
        → Returns (parse_rules fuel rest (rules ++ more)))
    → Returns (elim o [
      | err e ↦ some (err (at_rule (length rules + 1) e))
      | panic ↦ some panic
      | ok (r, rest) ↦ elim (added (length rules + 1) r rest) [
        | err e ↦ some (err e)
        | panic ↦ some panic
        | ok more ↦ parse_rules fuel rest (rules ++ more)
      ]
    ])
rule-Returns fuel n rules (err e) h next = (err (at_rule (length rules + 1) e), refl)
rule-Returns fuel n rules panic h next = (panic, refl)
rule-Returns fuel n rules (ok (r, rest)) h next = by_more (added (length rules + 1) r rest)
  where
    by_more :
        (m : Outcome Error (List Rule))
        → Returns (elim m [
          | err e ↦ some (err e)
          | panic ↦ some panic
          | ok more ↦ parse_rules fuel rest (rules ++ more)
        ])
    by_more (err e) = (err e, refl)
    by_more panic = (panic, refl)
    by_more (ok more) = next rest more h

parse_rules-Returns :
    (fuel : ℕ) (unparsed : List ℕ) (rules : List Rule)
    → length unparsed < fuel
    → Returns (parse_rules fuel unparsed rules)
unfolding parse_rules
parse_rules-Returns zero unparsed rules h = absurd (omega arith)
parse_rules-Returns (suc fuel) [] rules h = (_, refl)
parse_rules-Returns (suc fuel) (ch ∷ unparsed) rules h =
    elim (Bool-cases (is_ascii_whitespace ch)) [
      | inl t ↦ rw t (parse_rules-Returns fuel unparsed rules (omega arith))
      | inr f ↦ rw f (
          rule-Returns fuel (suc (length unparsed)) rules (from_tokens (ch ∷ unparsed))
            (from_tokens-Shrinks (ch ∷ unparsed))
            (λ rest more lt. parse_rules-Returns fuel rest (rules ++ more) (omega arith)))
    ]

-- The parser of rules ends for every text: with rules, with an error, or with a panic.
pub try_from-Returns : (input : List ℕ) → Returns (try_from input)
unfolding try_from
try_from-Returns input =
    let trimmed = trim_end (trim_start input) in
    parse_rules-Returns (length trimmed + 1) trimmed [] (omega arith)
