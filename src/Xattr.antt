-- ===== src/Xattr.antt =====
-- src/passthrough/xattrmap.rs: the map between names of extended attributes at the client and on
-- the host. Names are lists of bytes without the closing zero.
mod Prefixes
pub mod Parse
mod Translate
mod Written
mod Total
mod Tests
use fuse_backend_rs.Prelude.{
  ℕ, Bool, true, false, Option, none, some, List, [], ◌∷◌, ◌++◌, ◌==◌, ◌&&◌, ◌||◌, not, ltb,
  if◌then◌else◌, length, drop,
}
use fuse_backend_rs.Prelude.Outcome.{Outcome, ok, err, panic, ◌>>=◌}

pub data ErrorKind : Type 0 where
  invalid_scope invalid_type : List ℕ → ErrorKind
  invalid_delimiter incomplete_rule map_rule_violation no_rules_provided : ErrorKind
  unterminated_mapping : ErrorKind

pub record Error : Type 0 where
  pub cause : ErrorKind
  pub rule : Option ℕ

-- The sets of flags that rules have.
pub data Scope : Type 0 where
  client server all : Scope

pub data RuleType : Type 0 where
  prefix okay bad unsupported map_ : RuleType

pub record Rule : Type 0 where
  pub scope : Scope
  pub type_ : RuleType
  pub key : List ℕ
  pub prepend : List ℕ

abbrev pub contains : Scope → Scope → Bool
contains all scope = true
contains client client = true
contains client server = false
contains client all = false
contains server client = false
contains server server = true
contains server all = false

unfoldable pub starts_with : List ℕ → List ℕ → Bool
starts_with name [] = true
starts_with [] (p ∷ ps) = false
starts_with (c ∷ cs) (p ∷ ps) = (c == p) && starts_with cs ps

-- `matches`, once the rule's own scope has been found to contain the one asked for.
abbrev pub matches_in : Rule → Scope → List ℕ → Outcome Error Bool
matches_in r client name = ok (starts_with name r.key)
matches_in r server name = ok (starts_with name r.prepend)
matches_in r all name = panic

abbrev pub matches : Rule → Scope → List ℕ → Outcome Error Bool
matches r scope name = if contains r.scope scope then matches_in r scope name else ok false

unfoldable pub find_rule : List Rule → Scope → List ℕ → Outcome Error Rule
find_rule [] scope name = err (record { cause = unterminated_mapping; rule = none })
find_rule (r ∷ rs) scope name = do
  found ← matches r scope name
  let rest = find_rule rs scope name
  if found then ok r else rest

abbrev pub has_zero : List ℕ → Bool
has_zero [] = false
has_zero (c ∷ cs) = (c == 0) || has_zero cs

-- `CString::new(bytes).unwrap()`
abbrev pub cstring {ℓ} : {E : Type ℓ} → List ℕ → Outcome E (List ℕ)
cstring bytes = if has_zero bytes then panic else ok bytes

pub data AppliedRule : Type 0 where
  pass : List ℕ → AppliedRule
  deny not_supported : AppliedRule

abbrev pub apply_client : Rule → List ℕ → Outcome Error AppliedRule
apply_client r name = elim r.type_ [
  | okay ↦ ok (pass name)
  | bad ↦ ok deny
  | unsupported ↦ ok not_supported
  | prefix ↦ do concat ← cstring (r.prepend ++ name); ok (pass concat)
  | map_ ↦ panic
]

unfoldable pub map_client_xattr : List Rule → List ℕ → Outcome Error AppliedRule
unfolding find_rule
map_client_xattr rules name = do r ← find_rule rules client name; apply_client r name

-- `split(|b| *b == 0)`: the first piece, and the others.
unfoldable pub split_zero : List ℕ → List ℕ × List (List ℕ)
split_zero [] = ([], [])
split_zero (b ∷ bs) =
    let (first, others) = split_zero bs in
    if b == 0 then ([], first ∷ others) else (b ∷ first, others)

abbrev pub non_empty : List (List ℕ) → List (List ℕ)
non_empty [] = []
non_empty ([] ∷ pieces) = non_empty pieces
non_empty ((b ∷ bs) ∷ pieces) = (b ∷ bs) ∷ non_empty pieces

unfoldable pub unprocessed : List ℕ → List (List ℕ)
unfolding split_zero
unprocessed xattr_names = let (first, others) = split_zero xattr_names in non_empty (first ∷ others)

-- `&bytes[from..]`
abbrev pub slice_from {ℓ} : {E : Type ℓ} → List ℕ → ℕ → Outcome E (List ℕ)
slice_from bytes from = if ltb (length bytes) from then panic else ok (drop from bytes)

-- What is shown of a name; `none` hides it.
abbrev pub apply_server : Rule → List ℕ → Outcome Error (Option (List ℕ))
apply_server r name = elim r.type_ [
  | bad ↦ ok none
  | unsupported ↦ ok none
  | okay ↦ ok (some name)
  | prefix ↦ do shown ← slice_from name (length r.prepend); ok (some shown)
  | map_ ↦ panic
]

abbrev pub push_name : List ℕ → Option (List ℕ) → List ℕ
push_name filtered none = filtered
push_name filtered (some shown) = filtered ++ (shown ++ 0 ∷ [])

unfoldable pub map_names : List Rule → List (List ℕ) → List ℕ → Outcome Error (List ℕ)
unfolding find_rule
map_names rules [] filtered = ok filtered
map_names rules (name ∷ names) filtered = do
  r ← find_rule rules server name
  shown ← apply_server r name
  map_names rules names (push_name filtered shown)

abbrev pub or_empty : List ℕ → List ℕ
or_empty [] = 0 ∷ []
or_empty (b ∷ bs) = b ∷ bs

unfoldable pub map_server_xattrlist : List Rule → List ℕ → Outcome Error (List ℕ)
unfolding map_names unprocessed
map_server_xattrlist rules xattr_names = do
  filtered ← map_names rules (unprocessed xattr_names) []
  ok (or_empty filtered)
