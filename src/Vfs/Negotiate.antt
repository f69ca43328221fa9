-- ===== src/Vfs/Negotiate.antt =====
-- src/api/vfs/sync_io.rs, `init` and `destroy`: the negotiation of options, and the start and the
-- end of all backends.
use fuse_backend_rs.Prelude.{
  ℕ, Bool, true, false, not, Option, none, some, List, [], ◌∷◌, ◌++◌, ◌==◌, if◌then◌else◌, bit_and,
  bit_or,
}
use fuse_backend_rs.Prelude.Outcome.{ok, err, panic}
use fuse_backend_rs.Fs.{einval, Result}
use fuse_backend_rs.Vfs.Inode.{not_u64}
use fuse_backend_rs.Vfs.State.{Backends, Call, init, destroy, Vfs, VfsOptions}

-- Flags of FsOptions.
abbrev pub atomic_o_trunc : ℕ
atomic_o_trunc = 0x8

abbrev pub writeback_cache : ℕ
writeback_cache = 0x1_0000

abbrev pub zero_message_open : ℕ
zero_message_open = 0x2_0000

abbrev pub zero_message_opendir : ℕ
zero_message_opendir = 0x100_0000

abbrev pub handle_killpriv_v2 : ℕ
handle_killpriv_v2 = 0x1000_0000

abbrev pub any_of : List ℕ → ℕ
any_of [] = 0
any_of (flag ∷ flags) = bit_or flag (any_of flags)

-- `VfsOptions::default` on Linux. The flags are those of the source, in its order.
abbrev pub default_options : VfsOptions
default_options = record {
  no_readdir = false;
  seal_size = false;
  in_opts = 0;
  out_opts = any_of (
      0x1 ∷ 0x4_0000 ∷ 0x20 ∷ 0x8000 ∷ 0x1000 ∷ 0x800 ∷ writeback_cache ∷ zero_message_open
      ∷ 0x40_0000 ∷ atomic_o_trunc ∷ 0x80_0000 ∷ 0x2000 ∷ 0x4000 ∷ 0x200_0000 ∷ zero_message_opendir
      ∷ handle_killpriv_v2 ∷ 0x2_0000_0000 ∷ []);
  id_mapping = record { internal_id = 0; external_id = 0; range = 0 };
  no_open = true;
  no_opendir = true;
  no_writeback = false;
  killpriv_v2 = false;
}

-- `out_opts.remove(flag)`
abbrev pub without : ℕ → ℕ → ℕ
without opts flag = bit_and opts (not_u64 flag)

-- `!(opts & flag).is_empty()`
abbrev pub offers : ℕ → ℕ → Bool
offers opts flag = not (bit_and opts flag == 0)

-- The options on Linux. The steps are
-- those of the source, each on what the ones before left.
unfoldable pub negotiate : VfsOptions → ℕ → VfsOptions
negotiate n opts =
    let out1 =
      if n.no_open
      then without n.out_opts atomic_o_trunc
      else without n.out_opts zero_message_open in
    let out2 = if n.no_opendir then out1 else without out1 zero_message_opendir in
    let out3 = if n.no_writeback then without out2 writeback_cache else out2 in
    let out4 = if n.killpriv_v2 then out3 else without out3 handle_killpriv_v2 in
    record n {
      no_open = if n.no_open then offers opts zero_message_open else false;
      no_opendir = if n.no_opendir then offers opts zero_message_opendir else false;
      in_opts = opts;
      out_opts = bit_and out4 opts;
    }

module _ {B : Type 0} where
  -- The loop over the mounted backends, with the record of calls so far; it ends at the first
  -- backend that refuses.
  unfoldable pub init_all :
      (B → ℕ → Result ℕ) → ℕ → List (Option B) → List (Call B) → List (Call B) × Result (Unit {0})
  init_all answer opts [] calls = (calls, ok tt)
  init_all answer opts (none ∷ superblocks) calls = init_all answer opts superblocks calls
  init_all answer opts (some fs ∷ superblocks) calls =
      let calls' = calls ++ init fs ∷ [] in
      let rest = init_all answer opts superblocks calls' in
      elim (answer fs opts) [ ok o ↦ rest | err e ↦ (calls', err e) | panic ↦ (calls', panic) ]

  -- The end of `init`: the options are stored before the loop, and the flag after it.
  unfoldable pub init_done :
      Vfs B → VfsOptions → List (Call B) × Result (Unit {0}) → Vfs B × Result ℕ
  init_done vfs n (calls, ok done) =
      (record vfs { opts = n; calls = calls; initialized = true }, ok n.out_opts)
  init_done vfs n (calls, err e) = (record vfs { opts = n; calls = calls }, err e)
  init_done vfs n (calls, panic) = (record vfs { opts = n; calls = calls }, panic)

  unfoldable pub init_vfs : Backends B → Vfs B → ℕ → Vfs B × Result ℕ
  unfolding negotiate init_all init_done
  init_vfs backends vfs opts =
      if vfs.initialized
      then (vfs, err einval)
      else let n = negotiate vfs.opts opts in
        init_done vfs n (init_all backends.init n.out_opts vfs.superblocks vfs.calls)

  unfoldable pub destroy_all : List (Option B) → List (Call B) → List (Call B)
  destroy_all [] calls = calls
  destroy_all (none ∷ superblocks) calls = destroy_all superblocks calls
  destroy_all (some fs ∷ superblocks) calls = destroy_all superblocks (calls ++ destroy fs ∷ [])

  unfoldable pub destroy_vfs : Vfs B → Vfs B
  unfolding destroy_all
  destroy_vfs vfs =
      if vfs.initialized
      then record vfs { initialized = false; calls = destroy_all vfs.superblocks vfs.calls }
      else vfs
