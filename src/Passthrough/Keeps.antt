-- ===== src/Passthrough/Keeps.antt =====
-- src/passthrough/inode_store.rs: an inserted inode is found by each of its keys, and the removal
-- of its data alone keeps its number for the file.
use fuse_backend_rs.Prelude.{ℕ, ◌≡◌, true, none, some, arith}
use fuse_backend_rs.Prelude.Map.{insert, get-insert, get-remove}
use fuse_backend_rs.Passthrough.Store.{
  InodeStore, InodeData, handle, insert_data, remove_data, get_data, inode_by_id, inode_by_handle,
  get_by_id, get_by_handle,
}

-- What a store shows of an inode with a file handle.
record Shows (s : InodeStore) (d : InodeData) (h : ℕ) : Type 0 where
  by_number : get_data s d.inode ≡ some d
  by_identity : get_by_id s d.id ≡ some d
  by_file_handle : get_by_handle s h ≡ some d

-- What is left of an inode whose data alone was removed.
record Keeps (s : InodeStore) (d : InodeData) (h : ℕ) : Type 0 where
  no_data : get_data s d.inode ≡ none
  not_by_id : get_by_id s d.id ≡ none
  number : inode_by_id s d.id ≡ some d.inode
  handle_number : inode_by_handle s h ≡ some d.inode

-- An inode with a file handle is found, once inserted, by its number, its identity and its
-- handle; the removal of its data alone takes the data away and keeps its number under its
-- identity and its handle, so that the file gets the same number again.
remove_data-insert_data :
    (s : InodeStore) (d : InodeData) (h : ℕ)
    → d.handle ≡ handle h
    → Shows (insert_data s d) d h × Keeps (remove_data (insert_data s d) d.inode true).0 d h
unfolding insert_data remove_data
remove_data-insert_data s d h e =
    let a = get-insert d.inode d.inode d s.data_ in
    let b = get-insert d.id d.id d.inode s.by_id in
    let c = get-insert h h d.inode s.by_handle in
    let r = get-remove d.inode d.inode (insert d.inode d s.data_) in
    (
      record {
        by_number = ground (arith, a);
        by_identity = ground (arith, a, b);
        by_file_handle = ground (arith, a, c, e);
      },
      record {
        no_data = ground (arith, r);
        not_by_id = ground (arith, b, r);
        number = ground (arith, b);
        handle_number = ground (arith, c, e);
      },
    )
