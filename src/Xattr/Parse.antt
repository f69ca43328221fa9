-- ===== src/Xattr/Parse.antt =====
-- src/passthrough/xattrmap.rs: the parser of rules. Its input is a list of characters.
use fuse_backend_rs.Prelude.{
  ℕ, zero, suc, ◌+◌, ◌%◌, Bool, true, false, Option, none, some, List, [], ◌∷◌, ◌++◌, ◌==◌, ◌&&◌,
  ◌||◌, leb, if◌then◌else◌, bytes_eq, length,
}
use fuse_backend_rs.Prelude.Outcome.{Outcome, ok, err, panic, ◌>>=◌}
use fuse_backend_rs.Prelude.Text.{codes}
use fuse_backend_rs.Xattr.{
  ErrorKind, Error, Scope, client, server, all, RuleType, prefix, okay, bad, unsupported, map_,
  Rule, cstring, invalid_scope, invalid_type, invalid_delimiter, incomplete_rule,
  map_rule_violation, no_rules_provided,
}

unfoldable pub scope_from_bytes : List ℕ → Outcome ErrorKind Scope
unfolding bytes_eq
scope_from_bytes bytes =
    if bytes_eq bytes (codes "all")
    then ok all
    else if bytes_eq bytes (codes "client")
    then ok client
    else if bytes_eq bytes (codes "server")
    then ok server
    else err (invalid_scope bytes)

unfoldable pub type_from_bytes : List ℕ → Outcome ErrorKind RuleType
unfolding bytes_eq
type_from_bytes bytes =
    if bytes_eq bytes (codes "prefix")
    then ok prefix
    else if bytes_eq bytes (codes "ok")
    then ok okay
    else if bytes_eq bytes (codes "bad")
    then ok bad
    else if bytes_eq bytes (codes "unsupported")
    then ok unsupported
    else if bytes_eq bytes (codes "map")
    then ok map_
    else err (invalid_type bytes)

-- The bytes up to the delimiter, and the characters behind it. `*ch as u8` keeps the low 8 bits.
unfoldable pub next_token : ℕ → List ℕ → Outcome ErrorKind (List ℕ × List ℕ)
next_token delim [] = err incomplete_rule
next_token delim (ch ∷ tokens) =
    let more = (do (bytes, rest) ← next_token delim tokens; ok ((ch % 256) ∷ bytes, rest)) in
    if ch == delim then ok ([], tokens) else more

-- The key and the text to prepend, which end each rule.
unfoldable pub fields_from_tokens :
    ℕ → RuleType → Scope → List ℕ → Outcome ErrorKind (Rule × List ℕ)
unfolding next_token
fields_from_tokens delim type_ scope tokens = do
  (k, tokens1) ← next_token delim tokens
  key ← cstring k
  (p, tokens2) ← next_token delim tokens1
  prepend ← cstring p
  ok (record { scope = scope; type_ = type_; key = key; prepend = prepend }, tokens2)

abbrev pub is_map : RuleType → Bool
is_map map_ = true
is_map prefix = false
is_map okay = false
is_map bad = false
is_map unsupported = false

unfoldable pub from_tokens : List ℕ → Outcome ErrorKind (Rule × List ℕ)
unfolding next_token type_from_bytes scope_from_bytes fields_from_tokens
from_tokens [] = err invalid_delimiter
from_tokens (delim ∷ tokens) = do
  (t, tokens1) ← next_token delim tokens
  type_ ← type_from_bytes t
  if is_map type_ then fields_from_tokens delim type_ all tokens1 else do
    (s, tokens2) ← next_token delim tokens1
    scope ← scope_from_bytes s
    fields_from_tokens delim type_ scope tokens2

abbrev pub everything : List ℕ → List ℕ → RuleType → Rule
everything key prepend type_ = record { scope = all; type_ = type_; key = key; prepend = prepend }

-- The rules that a rule of type `map` stands for.
unfoldable pub expanded : List ℕ → List ℕ → List Rule
expanded [] p = everything [] p prefix ∷ everything [] [] bad ∷ []
expanded (k ∷ ks) p =
    everything (k ∷ ks) p prefix ∷ everything p (k ∷ ks) bad ∷ everything [] [] okay ∷ []

unfoldable pub expand_map_type : Rule → Outcome Error (List Rule)
expand_map_type r = if is_map r.type_ then ok (expanded r.key r.prepend) else panic

-- `char::is_whitespace`, the White_Space of Unicode.
abbrev pub is_whitespace : ℕ → Bool
is_whitespace c =
    (leb 0x9 c && leb c 0xd)
    || (c == 0x20)
    || (c == 0x85)
    || (c == 0xa0)
    || (c == 0x1680)
    || (leb 0x2000 c && leb c 0x200a)
    || (c == 0x2028)
    || (c == 0x2029)
    || (c == 0x202f)
    || (c == 0x205f)
    || (c == 0x3000)

abbrev pub is_ascii_whitespace : ℕ → Bool
is_ascii_whitespace c = (c == 0x20) || (c == 0x9) || (c == 0xa) || (c == 0xc) || (c == 0xd)

unfoldable pub trim_start : List ℕ → List ℕ
trim_start [] = []
trim_start (c ∷ cs) = let rest = trim_start cs in if is_whitespace c then rest else c ∷ cs

abbrev pub cons_unless : Bool → ℕ → List ℕ → List ℕ
cons_unless b c (d ∷ ds) = c ∷ d ∷ ds
cons_unless b c [] = if b then [] else c ∷ []

unfoldable pub trim_end : List ℕ → List ℕ
trim_end [] = []
trim_end (c ∷ cs) = cons_unless (is_whitespace c) c (trim_end cs)

abbrev pub at_rule : ℕ → ErrorKind → Error
at_rule n e = record { cause = e; rule = some n }

abbrev pub finish : List Rule → Outcome Error (List Rule)
finish [] = err (record { cause = no_rules_provided; rule = none })
finish (r ∷ rs) = ok (r ∷ rs)

-- What is added for a rule, with the characters behind it: a `map` must be the last one.
unfoldable pub added : ℕ → Rule → List ℕ → Outcome Error (List Rule)
unfolding expand_map_type
added n r rest =
    if is_map r.type_
    then elim rest [ [] ↦ expand_map_type r | c ∷ cs ↦ err (at_rule n map_rule_violation) ]
    else ok (r ∷ [])

-- The loop over the rules. `none` is for fuel that ran out.
unfoldable pub parse_rules : ℕ → List ℕ → List Rule → Option (Outcome Error (List Rule))
unfolding from_tokens added
parse_rules zero unparsed rules = none
parse_rules (suc fuel) [] rules = some (finish rules)
parse_rules (suc fuel) (ch ∷ unparsed) rules =
    let skipped = parse_rules fuel unparsed rules in
    if is_ascii_whitespace ch then skipped else elim (from_tokens (ch ∷ unparsed)) [
      | err e ↦ some (err (at_rule (length rules + 1) e))
      | panic ↦ some panic
      | ok (r, rest) ↦ elim (added (length rules + 1) r rest) [
        | err e ↦ some (err e)
        | panic ↦ some panic
        | ok more ↦ parse_rules fuel rest (rules ++ more)
      ]
    ]

-- One round for each character is enough, and one for the end.
unfoldable pub try_from : List ℕ → Option (Outcome Error (List Rule))
unfolding trim_start trim_end parse_rules
try_from input =
    let trimmed = trim_end (trim_start input) in parse_rules (length trimmed + 1) trimmed []
