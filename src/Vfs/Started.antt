-- ===== src/Vfs/Started.antt =====
-- src/api/vfs/sync_io.rs, `init` and `destroy`: every mounted backend is started and ended once.
use fuse_backend_rs.Prelude.{
  ℕ, ◌≡◌, refl, sym, ap, ◌∙◌, Bool, true, false, Option, none, some, List, [], ◌∷◌, ◌++◌,
  if◌then◌else◌,
}
use mathlib.Core.List.{map}
use fuse_backend_rs.Prelude.Outcome.{ok, err, panic}
use fuse_backend_rs.Fs.{Result, einval}
use fuse_backend_rs.Vfs.State.{Backends, Call, init, destroy, Vfs, VfsOptions}
use fuse_backend_rs.Vfs.Negotiate.{
  negotiate, init_all, init_done, init_vfs, destroy_all, destroy_vfs,
}
use fuse_backend_rs.Vfs.Consistent.{IsConsistent}

module _ {B : Type 0} where
  -- The mounted backends, in the order of their indices.
  abbrev pub mounted_backends : List (Option B) → List B
  mounted_backends [] = []
  mounted_backends (none ∷ sb) = mounted_backends sb
  mounted_backends (some fs ∷ sb) = fs ∷ mounted_backends sb

  append_one : (xs ys : List (Call B)) (x : Call B) → (xs ++ x ∷ []) ++ ys ≡ xs ++ x ∷ ys
  append_one [] ys x = refl
  append_one (y ∷ xs) ys x = ap (λ zs. y ∷ zs) (append_one xs ys x)

  append_none : (xs : List (Call B)) → xs ++ [] ≡ xs
  append_none [] = refl
  append_none (x ∷ xs) = ap (λ zs. x ∷ zs) (append_none xs)

  init_all-ok :
      (answer : B → ℕ → Result ℕ) (opts : ℕ) (sb : List (Option B)) (calls : List (Call B))
      → ((b : B) → (o : ℕ) × (answer b opts ≡ ok o))
      → init_all answer opts sb calls ≡ (calls ++ map init (mounted_backends sb), ok tt)
  unfolding init_all
  init_all-ok answer opts [] calls accept = rw (append_none calls)
  init_all-ok answer opts (none ∷ sb) calls accept = init_all-ok answer opts sb calls accept
  init_all-ok answer opts (some fs ∷ sb) calls accept =
      let (o, e) = accept fs in
      rw (
        e,
        init_all,
        init_all-ok answer opts sb (calls ++ init fs ∷ []) accept,
        append_one calls (map init (mounted_backends sb)) (init fs),
      )

  destroy_all-eq :
      (sb : List (Option B)) (calls : List (Call B))
      → destroy_all sb calls ≡ calls ++ map destroy (mounted_backends sb)
  unfolding destroy_all
  destroy_all-eq [] calls = sym (append_none calls)
  destroy_all-eq (none ∷ sb) calls = destroy_all-eq sb calls
  destroy_all-eq (some fs ∷ sb) calls =
      destroy_all-eq sb (calls ++ destroy fs ∷ [])
      ∙ append_one calls (map destroy (mounted_backends sb)) (destroy fs)

  module _ (backends : Backends B) (v : Vfs B) (opts : ℕ) where
    abbrev pub agreed : VfsOptions
    agreed = negotiate v.opts opts

    -- Where the file system is not in use and every backend accepts the agreed options, `init`
    -- starts each mounted backend once, in the order of the indices, and marks the file system as
    -- in use; `destroy` then ends each of them once, in the same order.
    pub init_vfs-destroy_vfs :
        v.initialized ≡ false
        → ((b : B) → (o : ℕ) × (backends.init b agreed.out_opts ≡ ok o))
        → (v' : Vfs B) × (init_vfs backends v opts ≡ (v', ok agreed.out_opts))
          × (v'.initialized ≡ true)
          × (v'.calls ≡ v.calls ++ map init (mounted_backends v.superblocks))
          × ((destroy_vfs v').calls ≡ v'.calls ++ map destroy (mounted_backends v.superblocks))
    unfolding init_vfs init_done destroy_vfs
    init_vfs-destroy_vfs fresh accept =
        let n = agreed in
        let calls' = v.calls ++ map init (mounted_backends v.superblocks) in
        (
          record v { opts = n; calls = calls'; initialized = true },
          rw (fresh, init_all-ok backends.init n.out_opts v.superblocks v.calls accept),
          refl,
          refl,
          destroy_all-eq v.superblocks calls',
        )

  -- The options, the record of calls and the mark of use may change on their own.
  IsConsistent-options :
      (v : Vfs B) (n : VfsOptions) (calls' : List (Call B)) (b : Bool)
      → IsConsistent v
      → IsConsistent (record v { opts = n; calls = calls'; initialized = b })
  IsConsistent-options v n calls' b c = record {
    root_wf = c.root_wf;
    counter = c.counter;
    slots = c.slots;
    mounted = c.mounted;
    apart = c.apart;
    owned = c.owned;
  }

  done-IsConsistent :
      (v : Vfs B) (n : VfsOptions) (r : List (Call B) × Result (Unit {0}))
      → IsConsistent v
      → IsConsistent (init_done v n r).0
  unfolding init_done
  done-IsConsistent v n (calls, ok done) c = IsConsistent-options v n calls true c
  done-IsConsistent v n (calls, err e) c = IsConsistent-options v n calls v.initialized c
  done-IsConsistent v n (calls, panic) c = IsConsistent-options v n calls v.initialized c

  if_IsConsistent :
      (b : Bool) (x y : Vfs B) → IsConsistent x → IsConsistent y → IsConsistent (if b then x else y)
  if_IsConsistent true x y p q = p
  if_IsConsistent false x y p q = q

  pair_IsConsistent :
      (b : Bool) (x y : Vfs B × Result ℕ)
      → IsConsistent x.0
      → IsConsistent y.0
      → IsConsistent (if b then x else y).0
  pair_IsConsistent true x y p q = p
  pair_IsConsistent false x y p q = q

  pub init_vfs-IsConsistent :
      (backends : Backends B) (v : Vfs B) (opts : ℕ)
      → IsConsistent v
      → IsConsistent (init_vfs backends v opts).0
  unfolding init_vfs
  init_vfs-IsConsistent backends v opts c =
      let n = negotiate v.opts opts in
      pair_IsConsistent v.initialized (v, err einval)
        (init_done v n (init_all backends.init n.out_opts v.superblocks v.calls)) c
        (done-IsConsistent v n (init_all backends.init n.out_opts v.superblocks v.calls) c)

  pub destroy_vfs-IsConsistent : (v : Vfs B) → IsConsistent v → IsConsistent (destroy_vfs v)
  unfolding destroy_vfs
  destroy_vfs-IsConsistent v c =
      if_IsConsistent v.initialized
        (record v { initialized = false; calls = destroy_all v.superblocks v.calls }) v
        (IsConsistent-options v v.opts (destroy_all v.superblocks v.calls) false c) c
