-- ===== src/Xattr/Translate.antt =====
-- src/passthrough/xattrmap.rs: what the client may name on the host comes back under the client's name.
use fuse_backend_rs.Prelude.{
  ℕ, ◌≡◌, refl, ◌∙◌, false, Option, some, List, [], ◌∷◌, ◌++◌, append-nil, append_assoc, ap, arith,
  ltb, length, length-append, Bool-cases, inl, inr,
}
use fuse_backend_rs.Prelude.Outcome.{Outcome, ok, err, panic, ◌>>=◌}
use fuse_backend_rs.Xattr.{
  unprocessed, split_zero, Error, Rule, server, prefix, starts_with, find_rule, has_zero,
  apply_client, apply_server, map_client_xattr, map_names, map_server_xattrlist, AppliedRule, pass,
  deny, or_empty, push_name,
}
use fuse_backend_rs.Xattr.Parse.{everything, expanded}
use fuse_backend_rs.Xattr.Prefixes.{
  starts_with-append, drop-append, has_zero-append, listing, IsName, unprocessed-append,
}

-- What the server shows of one name.
abbrev shown : List Rule → List ℕ → Outcome Error (Option (List ℕ))
shown rules host = do r ← find_rule rules server host; apply_server r host

stripped : (key p n : List ℕ) → apply_server (everything key p prefix) (p ++ n) ≡ ok (some n)
stripped key p n =
    let e : ltb (length (p ++ n)) (length p) ≡ false = ground (arith, length-append p n) in
    rw (e, drop-append p n)

-- How the rules of one `map` treat a name of the client.
data Treated (key p n : List ℕ) : Outcome Error AppliedRule → Type 0 where
  prefixed : Treated key p n (ok (pass (p ++ n)))
  denied : Treated key p n (ok deny)
  kept : starts_with n key ≡ false → starts_with n p ≡ false → Treated key p n (ok (pass n))

prefixed_lem :
    (key p n : List ℕ)
    → has_zero p ≡ false
    → has_zero n ≡ false
    → apply_client (everything key p prefix) n ≡ ok (pass (p ++ n))
prefixed_lem key p n hp hn =
    let e : has_zero (p ++ n) ≡ false = ground (arith, has_zero-append p n) in rw e

map_client-Treated :
    (key p n : List ℕ)
    → has_zero p ≡ false
    → has_zero n ≡ false
    → Treated key p n (map_client_xattr (expanded key p) n)
unfolding map_client_xattr expanded starts_with
map_client-Treated [] p n hp hn = rw (prefixed_lem [] p n hp hn) prefixed
map_client-Treated (k ∷ ks) p n hp hn = elim (Bool-cases (starts_with n (k ∷ ks))) [
  | inl t ↦ rw (t, prefixed_lem (k ∷ ks) p n hp hn) prefixed
  | inr f ↦ elim (Bool-cases (starts_with n p)) [
    | inl t ↦ rw (f, t) denied
    | inr g ↦ rw (f, g) (kept f g)
  ]
]

shown-prefixed : (key p n : List ℕ) → shown (expanded key p) (p ++ n) ≡ ok (some n)
unfolding expanded find_rule
shown-prefixed [] p n = rw (starts_with-append p n, stripped [] p n)
shown-prefixed (k ∷ ks) p n = rw (starts_with-append p n, stripped (k ∷ ks) p n)

shown-kept :
    (key p n : List ℕ)
    → starts_with n key ≡ false
    → starts_with n p ≡ false
    → shown (expanded key p) n ≡ ok (some n)
unfolding expanded find_rule starts_with
shown-kept [] p n f g = absurd (ground arith)
shown-kept (k ∷ ks) p n f g = rw (g, f)

shown-Treated :
    (key p n host : List ℕ) (r : Outcome Error AppliedRule)
    → Treated key p n r
    → r ≡ ok (pass host)
    → shown (expanded key p) host ≡ ok (some n)
shown-Treated key p n host r prefixed e =
    let same : p ++ n ≡ host = cc e in rw (← same) (shown-prefixed key p n)
shown-Treated key p n host r denied e = absurd (ground arith)
shown-Treated key p n host r (kept f g) e =
    let same : n ≡ host = cc e in rw (← same) (shown-kept key p n f g)

-- The names of the client, and those that it reaches on the host by them.
pub data Passes (rules : List Rule) : List (List ℕ) → List (List ℕ) → Type 0 where
  none_left : Passes rules [] []
  passes :
      (n host : List ℕ) (ns hosts : List (List ℕ))
      → IsName n
      → IsName host
      → map_client_xattr rules n ≡ ok (pass host)
      → Passes rules ns hosts
      → Passes rules (n ∷ ns) (host ∷ hosts)

-- The two steps for a name, where they show the name `n`.
after_shown :
    (o : Outcome Error Rule) (host n : List ℕ) (f : Option (List ℕ) → Outcome Error (List ℕ))
    → (o >>= λ r. apply_server r host) ≡ ok (some n)
    → (o >>= λ r. apply_server r host >>= f) ≡ f (some n)
after_shown (ok r) host n f h = rw h
after_shown (err e) host n f h = absurd (ground arith)
after_shown panic host n f h = absurd (ground arith)

module _ (key p : List ℕ) (clean : has_zero p ≡ false) where
  map_names-Passes :
      (ns hosts : List (List ℕ)) (filtered : List ℕ)
      → Passes (expanded key p) ns hosts
      → map_names (expanded key p) hosts filtered ≡ ok (filtered ++ listing ns)
  unfolding map_names
  map_names-Passes _ _ filtered none_left = rw (append-nil filtered)
  map_names-Passes _ _ filtered (passes n host ns hosts name host_name e more) =
      let t = map_client-Treated key p n clean name.no_zero in
      let s = shown-Treated key p n host (map_client_xattr (expanded key p) n) t e in
      let rest = map_names-Passes ns hosts (filtered ++ (n ++ 0 ∷ [])) more in
      after_shown (find_rule (expanded key p) server host) host n
        (λ o. map_names (expanded key p) hosts (push_name filtered o)) s
      ∙ rest
      ∙ ap ok (
          append_assoc filtered (n ++ 0 ∷ []) (listing ns)
          ∙ ap (λ l. filtered ++ l) (append_assoc n (0 ∷ []) (listing ns)))

  unprocessed-Passes :
      (rules : List Rule) (ns hosts : List (List ℕ))
      → Passes rules ns hosts
      → unprocessed (listing hosts) ≡ hosts
  unfolding unprocessed split_zero
  unprocessed-Passes rules _ _ none_left = refl
  unprocessed-Passes rules _ _ (passes n host ns hosts name host_name e more) =
      unprocessed-append host (listing hosts) host_name
      ∙ ap (λ l. host ∷ l) (unprocessed-Passes rules ns hosts more)

  -- Under the rules of one `map`, with any key and a text without a zero, the names that a client
  -- reaches on the host come back in a list of attributes under the client's own names.
  pub map_server_xattrlist-Passes :
      (ns hosts : List (List ℕ))
      → Passes (expanded key p) ns hosts
      → map_server_xattrlist (expanded key p) (listing hosts) ≡ ok (or_empty (listing ns))
  unfolding map_server_xattrlist
  map_server_xattrlist-Passes ns hosts h =
      rw (unprocessed-Passes (expanded key p) ns hosts h, map_names-Passes ns hosts [] h)
