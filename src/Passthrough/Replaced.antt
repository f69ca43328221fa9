-- ===== src/Passthrough/Replaced.antt =====
-- `do_lookup` of src/passthrough/mod.rs with the host's inode numbers, on files that have file
-- handles and share a number.
use fuse_backend_rs.Prelude.{
  ℕ, ◌+◌, ◌*◌, ◌^◌, ◌≤◌, ◌<◌, ◌≡◌, ◌≢◌, refl, ap, ◌∙◌, ◌⊎◌, inr, true, false, none, some, ltb, leb,
  if◌then◌else◌, arith,
}
use fuse_backend_rs.Prelude.Outcome.{ok}
use fuse_backend_rs.Prelude.Bits.{bit_or-shifted}
use fuse_backend_rs.Prelude.Map.{get-insert}
use fuse_backend_rs.Fs.{Errno}
use fuse_backend_rs.Passthrough.Inodes.{
  Inodes, get_alt_locked, vfs_max_ino, allocate_inode, inserted, new_handle, add_new, add_locked,
  search_or_add, lookup_inode, from_allocator, opened_handle, host_number, get_inode_locked,
}
use fuse_backend_rs.Passthrough.Lookup.{with_inode}
use fuse_backend_rs.Passthrough.Store.{
  handle, InodeData, InodeStore, insert_data, get_data, inode_by_id, inode_by_handle, get_by_handle,
}
use fuse_backend_rs.Passthrough.Unique.{
  InodeIds, max_host_ino, id_of, get_unique_inode, paired, numbered_pair,
}

-- The inode that a file with a file handle gets.
abbrev new_data : ℕ → ℕ → ℕ → ℕ → InodeData
new_data number id h mode = record {
  inode = number;
  handle = handle h;
  id = id;
  refcount = 1;
  mode = mode;
}

-- What the lookups of two files with one identity come to: one number for both, and the first
-- file's handle leads to the second file, which was looked up once.
abbrev pub Replaced : Inodes → Inodes → ℕ → ℕ → ℕ → ℕ → ℕ → Type 0
Replaced t₁ t₂ number id h₁ h₂ mode =
    (get_by_handle t₁.store h₁ ≡ some (new_data number id h₁ mode))
    × (get_by_handle t₂.store h₁ ≡ some (new_data number id h₂ mode))
    × (get_data t₂.store number ≡ some (new_data number id h₂ mode))

module _ (ids : InodeIds) where
  get_unique_inode-known :
      (s : Inodes) (id unique_id : ℕ)
      → id_of (ids.dev id) (ids.mnt id) s.ino_allocator.dev_mntid_map ≡ some unique_id
      → ids.ino id ≤ max_host_ino
      → get_unique_inode ids s.ino_allocator id
        ≡ (s.ino_allocator, ok (unique_id * 2 ^ 47 + ids.ino id))
  unfolding get_unique_inode
  get_unique_inode-known s id unique_id known small =
      let fits : leb (ids.ino id) max_host_ino ≡ true = ground (arith, small) in
      ap (λ o. numbered_pair (ids.ino id) (paired (ids.dev id) (ids.mnt id) s.ino_allocator o))
        known
      ∙ rw fits (
          ap (λ k. (s.ino_allocator, ok k))
            (bit_or-shifted 47 unique_id (ids.ino id) (omega (arith, small))))

  lookup_inode-new :
      (to_openable : ℕ → Errno ⊎ Unit {0}) (s : Inodes) (id unique_id h path_fd mode : ℕ)
      → to_openable h ≡ inr tt
      → get_alt_locked s.store id (some h) ≡ none
      → id_of (ids.dev id) (ids.mnt id) s.ino_allocator.dev_mntid_map ≡ some unique_id
      → unique_id < 256
      → ids.ino id ≤ max_host_ino
      → lookup_inode true ids to_openable s id (some h) path_fd mode
        ≡ some (
          with_inode s (new_data (unique_id * 2 ^ 47 + ids.ino id) id h mode),
          ok (unique_id * 2 ^ 47 + ids.ino id),
        )
  unfolding lookup_inode allocate_inode
  lookup_inode-new to_openable s id unique_id h path_fd mode opens e known byte small =
      let number = unique_id * 2 ^ 47 + ids.ino id in
      let host : ltb max_host_ino (ids.ino id) ≡ false = ground (arith, small) in
      let fits : ltb vfs_max_ino number ≡ false = ground (arith, small, byte) in
      let made = new_handle path_fd (some h) to_openable in
      ap (search_or_add true ids s id (some h) mode made) e
      ∙ ap (λ o. some (add_new true ids s id (some h) mode (opened_handle h o))) opens
      ∙ ap (λ o. some (add_locked true ids s id (some h) (handle h) mode o)) e
      ∙ ap
          (λ b. some (
            inserted true ids id (handle h) mode (
              if b
              then host_number true ids s id (get_inode_locked s.store id (some h))
              else host_number true ids s id none)))
          host
      ∙ ap (λ r. some (inserted true ids id (handle h) mode (from_allocator true ids s r)))
          (get_unique_inode-known s id unique_id known small)
      ∙ rw fits refl

  -- A store that knows neither the file nor its handle finds nothing.
  unknown :
      (s : InodeStore) (id h : ℕ)
      → inode_by_id s id ≡ none
      → inode_by_handle s h ≡ none
      → get_alt_locked s id (some h) ≡ none
  unfolding get_alt_locked
  unknown s id h e e' = ground (arith, e, e')

  -- Nor does one that knows the identity for another file alone.
  other_file :
      (s : Inodes) (number id h₁ h₂ mode : ℕ)
      → h₁ ≢ h₂
      → inode_by_handle s.store h₂ ≡ none
      → get_alt_locked (with_inode s (new_data number id h₁ mode)).store id (some h₂) ≡ none
  unfolding get_alt_locked insert_data
  other_file s number id h₁ h₂ mode differ e =
      let d = new_data number id h₁ mode in
      ground (
        arith,
        e,
        differ,
        get-insert h₁ h₂ number s.store.by_handle,
        get-insert id id number s.store.by_id,
        get-insert number number d s.store.data_,
      )

  -- With the host's inode numbers and file handles, the lookups of two files that share an
  -- identity but not the handle, the second after the first, in a store that knows neither and
  -- whose pair of device and mount has a number: both get the same inode number, and the data of
  -- the second replace those of the first, whose handle leads to them from then on.
  pub lookup_inode-Replaced :
      (to_openable : ℕ → Errno ⊎ Unit {0}) (s : Inodes) (id unique_id h₁ h₂ path_fd mode : ℕ)
      → to_openable h₁ ≡ inr tt
      → to_openable h₂ ≡ inr tt
      → h₁ ≢ h₂
      → inode_by_id s.store id ≡ none
      → inode_by_handle s.store h₁ ≡ none
      → inode_by_handle s.store h₂ ≡ none
      → id_of (ids.dev id) (ids.mnt id) s.ino_allocator.dev_mntid_map ≡ some unique_id
      → unique_id < 256
      → ids.ino id ≤ max_host_ino
      → (t₁ : Inodes) × (t₂ : Inodes) × (number : ℕ) × (lookup_inode true ids to_openable s id
            (some h₁)
            path_fd
            mode
          ≡ some (t₁, ok number))
        × (lookup_inode true ids to_openable t₁ id (some h₂) path_fd mode ≡ some (t₂, ok number))
        × Replaced t₁ t₂ number id h₁ h₂ mode
  unfolding insert_data
  lookup_inode-Replaced to_openable s id unique_id h₁ h₂ path_fd mode opens₁ opens₂ differ no_id no₁
        no₂ known byte small =
      let number = unique_id * 2 ^ 47 + ids.ino id in
      let d₁ = new_data number id h₁ mode in
      let d₂ = new_data number id h₂ mode in
      let t₁ = with_inode s d₁ in
      let t₂ = with_inode t₁ d₂ in
      (
        t₁,
        t₂,
        number,
        lookup_inode-new to_openable s id unique_id h₁ path_fd mode opens₁
            (unknown s.store id h₁ no_id no₁) known byte small,
        lookup_inode-new to_openable t₁ id unique_id h₂ path_fd mode opens₂
            (other_file s number id h₁ h₂ mode differ no₂) known byte small,
        (
          ground (
            arith,
            get-insert h₁ h₁ number s.store.by_handle,
            get-insert number number d₁ s.store.data_,
          ),
          ground (
            arith,
            differ,
            get-insert h₂ h₁ number t₁.store.by_handle,
            get-insert h₁ h₁ number s.store.by_handle,
            get-insert number number d₂ t₁.store.data_,
          ),
          ground (arith, get-insert number number d₂ t₁.store.data_),
        ),
      )
