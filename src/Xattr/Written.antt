-- ===== src/Xattr/Written.antt =====
-- src/passthrough/xattrmap.rs: rules as they are written in the documentation are read back.
use fuse_backend_rs.Prelude.{
  ℕ, zero, suc, ◌+◌, ◌%◌, ◌<◌, ◌≤◌, ◌≡◌, ◌≢◌, refl, ap, ◌∙◌, sym, Bool, true, false, Bool-cases,
  inl, inr, ◌==◌, ◌||◌, some, List, [], ◌∷◌, ◌++◌, append_assoc, append-nil, arith, length,
  length-append,
}
use fuse_backend_rs.Prelude.Outcome.{ok, panic}
use fuse_backend_rs.Prelude.Text.{codes}
use fuse_backend_rs.Xattr.{
  Scope, client, server, all, RuleType, prefix, okay, bad, unsupported, map_, Rule, has_zero,
}
use fuse_backend_rs.Xattr.Parse.{
  next_token, fields_from_tokens, from_tokens, type_from_bytes, scope_from_bytes, is_map, added,
  is_whitespace, is_ascii_whitespace, parse_rules, try_from, trim_start, trim_end, finish,
}

-- The words of the rules.
abbrev type_text : RuleType → List ℕ
type_text prefix = codes "prefix"
type_text okay = codes "ok"
type_text bad = codes "bad"
type_text unsupported = codes "unsupported"
type_text map_ = codes "map"

abbrev scope_text : Scope → List ℕ
scope_text all = codes "all"
scope_text client = codes "client"
scope_text server = codes "server"

-- A character that is a multiple of 256.
abbrev pub has_wide : List ℕ → Bool
has_wide [] = false
has_wide (c ∷ cs) = c % 256 == 0 || has_wide cs

module _ (d : ℕ) where
  -- `:type:scope:key:prepend:` with the delimiter `d`, and what follows it.
  abbrev pub write_rule : Rule → List ℕ → List ℕ
  write_rule r rest =
      d
      ∷ (type_text r.type_
          ++ d ∷ (scope_text r.scope ++ d ∷ (r.key ++ d ∷ (r.prepend ++ d ∷ rest))))

  abbrev pub write : List Rule → List ℕ
  write [] = []
  write (r ∷ rs) = write_rule r (write rs)

  -- A byte other than zero and the delimiter.
  abbrev IsPlain : List ℕ → Type 0
  IsPlain [] = Unit {0}
  IsPlain (c ∷ cs) = (0 < c) × (c < 256) × (c ≢ d) × IsPlain cs

  -- No delimiter.
  abbrev pub IsApart : List ℕ → Type 0
  IsApart [] = Unit {0}
  IsApart (c ∷ cs) = (c ≢ d) × IsApart cs

  -- Rules of all types but `map`.
  pub record IsWritable (r : Rule) : Type 0 where
    pub no_map : is_map r.type_ ≡ false
    pub key_plain : IsPlain r.key
    pub prepend_plain : IsPlain r.prepend

  abbrev pub AllWritable : List Rule → Type 0
  AllWritable [] = Unit {0}
  AllWritable (r ∷ rs) = IsWritable r × AllWritable rs

  -- A sign below the letters that is no white space.
  module _ (sign : d < 97) (dark : is_whitespace d ≡ false) where
    next_token-plain : (w rest : List ℕ) → IsPlain w → next_token d (w ++ d ∷ rest) ≡ ok (w, rest)
    unfolding next_token
    next_token-plain [] rest h = ground arith
    next_token-plain (c ∷ w) rest h =
        let e : c % 256 ≡ c = omega arith in ground (arith, next_token-plain w rest, e)

    type_text-IsPlain : (t : RuleType) → IsPlain (type_text t)
    type_text-IsPlain prefix = omega arith
    type_text-IsPlain okay = omega arith
    type_text-IsPlain bad = omega arith
    type_text-IsPlain unsupported = omega arith
    type_text-IsPlain map_ = omega arith

    scope_text-IsPlain : (s : Scope) → IsPlain (scope_text s)
    scope_text-IsPlain all = omega arith
    scope_text-IsPlain client = omega arith
    scope_text-IsPlain server = omega arith

    type_from_bytes-type_text : (t : RuleType) → type_from_bytes (type_text t) ≡ ok t
    unfolding type_from_bytes
    type_from_bytes-type_text prefix = refl
    type_from_bytes-type_text okay = refl
    type_from_bytes-type_text bad = refl
    type_from_bytes-type_text unsupported = refl
    type_from_bytes-type_text map_ = refl

    scope_from_bytes-scope_text : (s : Scope) → scope_from_bytes (scope_text s) ≡ ok s
    unfolding scope_from_bytes
    scope_from_bytes-scope_text all = refl
    scope_from_bytes-scope_text client = refl
    scope_from_bytes-scope_text server = refl

    cstring-plain : (w : List ℕ) → IsPlain w → has_zero w ≡ false
    cstring-plain [] h = refl
    cstring-plain (c ∷ w) h = ground (arith, cstring-plain w)

    from_tokens-write_rule :
        (r : Rule) (rest : List ℕ) → IsWritable r → from_tokens (write_rule r rest) ≡ ok (r, rest)
    unfolding from_tokens fields_from_tokens
    from_tokens-write_rule r rest h =
        let tail2 = r.prepend ++ d ∷ rest in
        let tail1 = r.key ++ d ∷ tail2 in
        rw
          (
            next_token-plain (type_text r.type_) (scope_text r.scope ++ d ∷ tail1)
                (type_text-IsPlain r.type_),
            type_from_bytes-type_text r.type_,
            h.no_map,
            next_token-plain (scope_text r.scope) tail1 (scope_text-IsPlain r.scope),
            scope_from_bytes-scope_text r.scope,
            next_token-plain r.key tail2 h.key_plain,
            cstring-plain r.key h.key_plain,
            next_token-plain r.prepend rest h.prepend_plain,
            cstring-plain r.prepend h.prepend_plain,
          )
          refl

    -- Neither end of what is written is white space.
    trim_start-write_rule :
        (r : Rule) (rest : List ℕ) → trim_start (write_rule r rest) ≡ write_rule r rest
    unfolding trim_start
    trim_start-write_rule r rest = rw dark

    abbrev EndsDark : List ℕ → Type 0
    EndsDark s = (t : List ℕ) × (s ≡ t ++ d ∷ [])

    EndsDark-append : (w s : List ℕ) → EndsDark s → EndsDark (w ++ s)
    EndsDark-append w s (t, e) = (w ++ t, rw e (sym (append_assoc w t (d ∷ []))))

    write_rule-EndsDark :
        (r : Rule) (rest : List ℕ) → EndsDark (d ∷ rest) → EndsDark (write_rule r rest)
    write_rule-EndsDark r rest h =
        let fields =
          EndsDark-append (d ∷ r.key) (d ∷ (r.prepend ++ d ∷ rest))
            (EndsDark-append (d ∷ r.prepend) (d ∷ rest) h) in
        EndsDark-append (d ∷ type_text r.type_)
          (d ∷ (scope_text r.scope ++ d ∷ (r.key ++ d ∷ (r.prepend ++ d ∷ rest))))
          (EndsDark-append (d ∷ scope_text r.scope) (d ∷ (r.key ++ d ∷ (r.prepend ++ d ∷ rest)))
            fields)

    write-EndsDark : (rs : List Rule) → EndsDark (d ∷ write rs)
    write-EndsDark [] = ([], refl)
    write-EndsDark (r ∷ rs) =
        let (t, e) = write_rule-EndsDark r (write rs) (write-EndsDark rs) in
        (d ∷ t, ap (λ s. d ∷ s) e)

    trim_end-dark : (t : List ℕ) → trim_end (t ++ d ∷ []) ≡ t ++ d ∷ []
    unfolding trim_end
    trim_end-dark [] = rw dark
    trim_end-dark (c ∷ []) = rw dark
    trim_end-dark (c ∷ b ∷ t) = rw (trim_end-dark (b ∷ t))

    parse_rules-write :
        (fuel : ℕ) (rs done : List Rule)
        → AllWritable rs
        → length rs < fuel
        → parse_rules fuel (write rs) done ≡ some (finish (done ++ rs))
    unfolding parse_rules added
    parse_rules-write zero rs done h lt = absurd (omega arith)
    parse_rules-write (suc fuel) [] done h lt = rw (append-nil done)
    parse_rules-write (suc fuel) (r ∷ rs) done (w, ws) lt =
        let ascii : is_ascii_whitespace d ≡ false = ground arith in
        rw (ascii, from_tokens-write_rule r (write rs) w, w.no_map)
          (parse_rules-write fuel rs (done ++ r ∷ []) ws (omega arith)
            ∙ ap (λ l. some (finish l)) (append_assoc done (r ∷ []) rs))

    length-write : (rs : List Rule) → length rs ≤ length (write rs)
    length-write [] = omega arith
    length-write (r ∷ rs) =
        let tail2 = r.prepend ++ d ∷ write rs in
        let tail1 = r.key ++ d ∷ tail2 in
        omega (
          arith,
          length-write rs,
          length-append (type_text r.type_) (d ∷ (scope_text r.scope ++ d ∷ tail1)),
          length-append (scope_text r.scope) (d ∷ tail1),
          length-append r.key (d ∷ tail2),
          length-append r.prepend (d ∷ write rs),
        )

    -- Rules that are written with a delimiter below the letters that is no white space and that
    -- their texts do not contain are read back as they were, if there is one at least and none is of
    -- type `map`.
    pub try_from-write :
        (r : Rule) (rs : List Rule)
        → AllWritable (r ∷ rs)
        → try_from (write (r ∷ rs)) ≡ some (ok (r ∷ rs))
    unfolding try_from
    try_from-write r rs h =
        let (t, e) = write_rule-EndsDark r (write rs) (write-EndsDark rs) in
        let trimmed : trim_end (write (r ∷ rs)) ≡ write (r ∷ rs) =
          ap trim_end e ∙ trim_end-dark t ∙ sym e in
        rw (trim_start-write_rule r (write rs), trimmed)
          (parse_rules-write (length (write (r ∷ rs)) + 1) (r ∷ rs) [] h
            (omega (arith, length-write (r ∷ rs))))

    -- The bytes that the parser makes of a text's characters.
    abbrev narrow : List ℕ → List ℕ
    narrow [] = []
    narrow (c ∷ w) = (c % 256) ∷ narrow w

    next_token-narrow :
        (w rest : List ℕ) → IsApart w → next_token d (w ++ d ∷ rest) ≡ ok (narrow w, rest)
    unfolding next_token
    next_token-narrow [] rest h = ground arith
    next_token-narrow (c ∷ w) rest (ne, h) = ground (arith, next_token-narrow w rest h)

    has_zero-narrow : (w : List ℕ) → has_wide w ≡ true → has_zero (narrow w) ≡ true
    has_zero-narrow [] h = absurd (cc h)
    has_zero-narrow (c ∷ w) h = elim (Bool-cases (c % 256 == 0)) [
      | inl t ↦ rw t
      | inr f ↦ rw f (has_zero-narrow w (ap (λ b. b || has_wide w) (sym f) ∙ h))
    ]

    from_tokens-panics :
        (r : Rule) (rest : List ℕ)
        → is_map r.type_ ≡ false
        → IsApart r.key
        → has_wide r.key ≡ true
        → from_tokens (write_rule r rest) ≡ panic
    unfolding from_tokens fields_from_tokens
    from_tokens-panics r rest nm apart wide =
        let tail2 = r.prepend ++ d ∷ rest in
        let tail1 = r.key ++ d ∷ tail2 in
        rw
          (
            next_token-plain (type_text r.type_) (scope_text r.scope ++ d ∷ tail1)
                (type_text-IsPlain r.type_),
            type_from_bytes-type_text r.type_,
            nm,
            next_token-plain (scope_text r.scope) tail1 (scope_text-IsPlain r.scope),
            scope_from_bytes-scope_text r.scope,
            next_token-narrow r.key tail2 apart,
            has_zero-narrow r.key wide,
          )
          refl

    parse_rules-panics :
        (fuel : ℕ) (rs more done : List Rule) (r : Rule)
        → AllWritable rs
        → length rs < fuel
        → is_map r.type_ ≡ false
        → IsApart r.key
        → has_wide r.key ≡ true
        → parse_rules fuel (write (rs ++ r ∷ more)) done ≡ some panic
    unfolding parse_rules added
    parse_rules-panics zero rs more done r h lt nm apart wide = absurd (omega arith)
    parse_rules-panics (suc fuel) [] more done r h lt nm apart wide =
        let ascii : is_ascii_whitespace d ≡ false = ground arith in
        rw (ascii, from_tokens-panics r (write more) nm apart wide) refl
    parse_rules-panics (suc fuel) (r' ∷ rs) more done r (w, ws) lt nm apart wide =
        let ascii : is_ascii_whitespace d ≡ false = ground arith in
        rw (ascii, from_tokens-write_rule r' (write (rs ++ r ∷ more)) w, w.no_map)
          (parse_rules-panics fuel rs more (done ++ r' ∷ []) r ws (omega arith) nm apart wide)

    trimmed-write :
        (rs more : List Rule) (r : Rule)
        → (trim_start (write (rs ++ r ∷ more)) ≡ write (rs ++ r ∷ more))
          × (trim_end (write (rs ++ r ∷ more)) ≡ write (rs ++ r ∷ more))
    trimmed-write [] more r =
        let (t, e) = write_rule-EndsDark r (write more) (write-EndsDark more) in
        (trim_start-write_rule r (write more), ap trim_end e ∙ trim_end-dark t ∙ sym e)
    trimmed-write (r' ∷ rs) more r =
        let text = write (rs ++ r ∷ more) in
        let (t, e) = write_rule-EndsDark r' text (write-EndsDark (rs ++ r ∷ more)) in
        (trim_start-write_rule r' text, ap trim_end e ∙ trim_end-dark t ∙ sym e)

    -- With a delimiter below the letters that is no white space, the parser panics on the text of
    -- rules of which one, of a type other than `map`, has a key without the delimiter but with a
    -- character that is a multiple of 256, where the rules before it are of other types than `map`
    -- and their texts have no zero, no delimiter and no character from 256 on.
    pub try_from-panics :
        (rs more : List Rule) (r : Rule)
        → AllWritable rs
        → is_map r.type_ ≡ false
        → IsApart r.key
        → has_wide r.key ≡ true
        → try_from (write (rs ++ r ∷ more)) ≡ some panic
    unfolding try_from
    try_from-panics rs more r h nm apart wide =
        let (front, back) = trimmed-write rs more r in
        rw (front, back)
          (parse_rules-panics (length (write (rs ++ r ∷ more)) + 1) rs more [] r h
            (omega (arith, length-write (rs ++ r ∷ more), length-append rs (r ∷ more))) nm apart
            wide)
