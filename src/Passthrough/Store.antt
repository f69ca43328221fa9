-- ===== src/Passthrough/Store.antt =====
-- src/passthrough/inode_store.rs: the inodes that are in use, by number, by the identity of the
-- file and by its file handle. Identities and handles are numbers here: the maps use no more of
-- them than their order.
use fuse_backend_rs.Prelude.{ℕ, Bool, Option, none, some, [], if◌then◌else◌}
use fuse_backend_rs.Prelude.Map.{Map, get, insert, remove}

-- `InodeHandle`: an open file, or a file handle.
pub data InodeHandle : Type 0 where
  file : ℕ → InodeHandle
  handle : ℕ → InodeHandle

pub record InodeData : Type 0 where
  pub inode : ℕ
  pub handle : InodeHandle
  pub id : ℕ
  pub refcount : ℕ
  pub mode : ℕ

pub record InodeStore : Type 0 where
  pub data_ : Map InodeData
  pub by_id : Map ℕ
  pub by_handle : Map ℕ

abbrev pub insert_handle : InodeHandle → ℕ → Map ℕ → Map ℕ
insert_handle (file fd) inode m = m
insert_handle (handle h) inode m = insert h inode m

abbrev pub remove_handle : InodeHandle → Map ℕ → Map ℕ
remove_handle (file fd) m = m
remove_handle (handle h) m = remove h m

unfoldable pub insert_data : InodeStore → InodeData → InodeStore
insert_data s d = record s {
  by_id = insert d.id d.inode s.by_id;
  by_handle = insert_handle d.handle d.inode s.by_handle;
  data_ = insert d.inode d s.data_;
}

-- `if let Some(data) = data.as_ref()`
abbrev pub remove_keys : Option InodeData → InodeStore → InodeStore
remove_keys none s = s
remove_keys (some d) s = record s {
  by_handle = remove_handle d.handle s.by_handle;
  by_id = remove d.id s.by_id;
}

unfoldable pub remove_data : InodeStore → ℕ → Bool → InodeStore × Option InodeData
remove_data s inode remove_data_only =
    let d = get inode s.data_ in
    let s' = record s { data_ = remove inode s.data_ } in
    if remove_data_only then (s', d) else (remove_keys d s', d)

abbrev pub clear_data : InodeStore → InodeStore
clear_data s = record { data_ = []; by_handle = []; by_id = [] }

abbrev pub get_data : InodeStore → ℕ → Option InodeData
get_data s inode = get inode s.data_

abbrev pub inode_by_id : InodeStore → ℕ → Option ℕ
inode_by_id s id = get id s.by_id

abbrev pub inode_by_handle : InodeStore → ℕ → Option ℕ
inode_by_handle s h = get h s.by_handle

-- `let inode = self.inode_by_id(id)?; self.get(inode)`
abbrev pub get_by_id : InodeStore → ℕ → Option InodeData
get_by_id s id = elim (inode_by_id s id) [ none ↦ none | some inode ↦ get_data s inode ]

abbrev pub get_by_handle : InodeStore → ℕ → Option InodeData
get_by_handle s h = elim (inode_by_handle s h) [ none ↦ none | some inode ↦ get_data s inode ]
