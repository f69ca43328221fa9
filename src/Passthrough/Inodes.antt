-- ===== src/Passthrough/Inodes.antt =====
-- The part of `do_lookup` of src/passthrough/mod.rs that finds or makes an inode, `forget_one`, and
-- the maps under them. One call is one step: what the loops on the counters wait for does not come
-- from another thread.
use fuse_backend_rs.Prelude.{
  ℕ, ◌+◌, ◌-◌, ◌^◌, ◌%◌, Bool, true, false, not, ◌||◌, ◌⊎◌, inl, inr, Option, none, some, [], ◌==◌,
  ltb, leb, if◌then◌else◌,
}
use fuse_backend_rs.Prelude.Outcome.{ok, err, panic}
use fuse_backend_rs.Prelude.Map.{insert}
use fuse_backend_rs.Fs.{Errno, Result, other, root_id, u64_mod}
use fuse_backend_rs.Passthrough.Store.{
  InodeHandle, file, handle, InodeData, InodeStore, insert_data, remove_data, get_data, inode_by_id,
  inode_by_handle, get_by_id, get_by_handle,
}
use fuse_backend_rs.Passthrough.Unique.{
  InodeIds, UniqueInodeGenerator, new_generator, max_host_ino, get_unique_inode,
}

abbrev pub get_inode_locked : InodeStore → ℕ → Option ℕ → Option ℕ
get_inode_locked s id none = inode_by_id s id
get_inode_locked s id (some h) = inode_by_handle s h

abbrev pub has_handle : InodeHandle → Bool
has_handle (file fd) = false
has_handle (handle h) = true

-- By the identity only what has no file handle, if the file has one.
abbrev pub without_handle : Option ℕ → Option InodeData → Option InodeData
without_handle handle_opt none = none
without_handle none (some d) = some d
without_handle (some h) (some d) = if has_handle d.handle then none else some d

abbrev pub or_else : Option InodeData → Option InodeData → Option InodeData
or_else (some d) rest = some d
or_else none rest = rest

abbrev pub by_handle_opt : InodeStore → Option ℕ → Option InodeData
by_handle_opt s none = none
by_handle_opt s (some h) = get_by_handle s h

unfoldable pub get_alt_locked : InodeStore → ℕ → Option ℕ → Option InodeData
get_alt_locked s id handle_opt =
    or_else (by_handle_opt s handle_opt) (without_handle handle_opt (get_by_id s id))

-- The fields of PassthroughFs that give out inodes.
pub record Inodes : Type 0 where
  pub store : InodeStore
  pub next_inode : ℕ
  pub ino_allocator : UniqueInodeGenerator

-- The data that the store shares, with another count.
abbrev pub with_refcount : Inodes → InodeData → ℕ → Inodes
with_refcount s d refcount = record s {
  store = record s.store {
    data_ = insert d.inode (record d { refcount = refcount }) s.store.data_;
  };
}

abbrev pub saturating_add_1 : ℕ → ℕ
saturating_add_1 n = if leb (2 ^ 64 - 1) n then 2 ^ 64 - 1 else n + 1

-- `VFS_MAX_INO`
abbrev pub vfs_max_ino : ℕ
vfs_max_ino = 2 ^ 56 - 1

-- The handle of a new inode: its file, or its file handle if that can be opened.
abbrev pub opened_handle : ℕ → Errno ⊎ Unit {0} → Result InodeHandle
opened_handle h (inl e) = err e
opened_handle h (inr done) = ok (handle h)

abbrev pub new_handle : ℕ → Option ℕ → (ℕ → Errno ⊎ Unit {0}) → Result InodeHandle
new_handle path_fd none to_openable = ok (file path_fd)
new_handle path_fd (some h) to_openable = opened_handle h (to_openable h)

-- The fields as `PassthroughFs::new` makes them.
abbrev pub new_inodes : Inodes
new_inodes = record {
  store = record { data_ = []; by_id = []; by_handle = [] };
  next_inode = root_id + 1;
  ino_allocator = new_generator;
}

abbrev pub import_root : Inodes → ℕ → ℕ → Result InodeHandle → Inodes × Result (Unit {0})
import_root s id mode (ok h) = (
  record s {
    store =
        insert_data s.store
          (record { inode = root_id; handle = h; id = id; refcount = 2; mode = mode });
  },
  ok tt,
)
import_root s id mode (err e) = (s, err e)
import_root s id mode panic = (s, panic)

-- `import`, from the root's identity, handle, descriptor and mode on.
unfoldable pub import :
    (ℕ → Errno ⊎ Unit {0}) → Inodes → ℕ → Option ℕ → ℕ → ℕ → Inodes × Result (Unit {0})
import to_openable s id handle_opt path_fd mode =
    import_root s id mode (new_handle path_fd handle_opt to_openable)

module _ (use_host_ino : Bool) (ids : InodeIds) where
  abbrev pub from_allocator : Inodes → UniqueInodeGenerator × Result ℕ → Inodes × Result ℕ
  from_allocator s (g, o) = (record s { ino_allocator = g }, o)

  abbrev pub own_number : Inodes → Option ℕ → Inodes × Result ℕ
  own_number s (some inode) = (s, ok inode)
  own_number s none = (record s { next_inode = (s.next_inode + 1) % u64_mod }, ok s.next_inode)

  abbrev pub host_number : Inodes → ℕ → Option ℕ → Inodes × Result ℕ
  host_number s id (some inode) = (s, ok inode)
  host_number s id none = from_allocator s (get_unique_inode ids s.ino_allocator id)

  unfoldable pub allocate_inode : Inodes → ℕ → Option ℕ → Inodes × Result ℕ
  allocate_inode s id handle_opt =
      if not use_host_ino
      then own_number s (get_inode_locked s.store id handle_opt)
      else (if ltb max_host_ino (ids.ino id)
          then host_number s id (get_inode_locked s.store id handle_opt)
          else host_number s id none)

  abbrev pub inserted : ℕ → InodeHandle → ℕ → Inodes × Result ℕ → Inodes × Result ℕ
  inserted id h mode (s, ok inode) = if ltb vfs_max_ino inode then (s, err other) else (
    record s {
      store =
          insert_data s.store
            (record { inode = inode; handle = h; id = id; refcount = 1; mode = mode });
    },
    ok inode,
  )
  inserted id h mode (s, err e) = (s, err e)
  inserted id h mode (s, panic) = (s, panic)

  -- With the map locked: another look, or a new inode.
  abbrev pub add_locked :
      Inodes → ℕ → Option ℕ → InodeHandle → ℕ → Option InodeData → Inodes × Result ℕ
  add_locked s id handle_opt h mode (some d) =
      (with_refcount s d ((d.refcount + 1) % u64_mod), ok d.inode)
  add_locked s id handle_opt h mode none = inserted id h mode (allocate_inode s id handle_opt)

  abbrev pub add_new : Inodes → ℕ → Option ℕ → ℕ → Result InodeHandle → Inodes × Result ℕ
  add_new s id handle_opt mode (ok h) =
      add_locked s id handle_opt h mode (get_alt_locked s.store id handle_opt)
  add_new s id handle_opt mode (err e) = (s, err e)
  add_new s id handle_opt mode panic = (s, panic)

  -- `none` is for the loop that waits until an inode with count 0 is gone.
  abbrev pub search_or_add :
      Inodes → ℕ → Option ℕ → ℕ → Result InodeHandle → Option InodeData → Option (Inodes × Result ℕ)
  search_or_add s id handle_opt mode h (some d) =
      if d.refcount == 0
      then none
      else some (with_refcount s d (saturating_add_1 d.refcount), ok d.inode)
  search_or_add s id handle_opt mode h none = some (add_new s id handle_opt mode h)

  -- From the identity, the handle, the descriptor and the mode that the host gave on.
  unfoldable pub lookup_inode :
      (ℕ → Errno ⊎ Unit {0}) → Inodes → ℕ → Option ℕ → ℕ → ℕ → Option (Inodes × Result ℕ)
  lookup_inode to_openable s id handle_opt path_fd mode =
      search_or_add s id handle_opt mode (new_handle path_fd handle_opt to_openable)
        (get_alt_locked s.store id handle_opt)

  abbrev pub forgotten : Inodes → ℕ → ℕ → Option InodeData → Inodes
  forgotten s inode count none = s
  forgotten s inode count (some d) =
      if d.refcount - count == 0
      then record s {
        store = (remove_data s.store inode (not use_host_ino || ltb max_host_ino (ids.ino d.id))).0;
      }
      else with_refcount s d (d.refcount - count)

  unfoldable pub forget_one : Inodes → ℕ → ℕ → Inodes
  forget_one s inode count =
      if inode == root_id then s else forgotten s inode count (get_data s.store inode)
