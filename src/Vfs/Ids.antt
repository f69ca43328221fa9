-- ===== src/Vfs/Ids.antt =====
-- src/api/vfs/mod.rs, `convert_entry` and `remap_attr_id`: user and group numbers inside a backend
-- and outside. Sums and differences of u32 wrap, as in a release build.
use fuse_backend_rs.Prelude.{
  ℕ, ◌+◌, ◌-◌, ◌%◌, ◌^◌, ◌<◌, ◌≤◌, ◌≡◌, refl, Bool, true, false, ◌&&◌, Option, none, some, arith,
  ltb, leb, if◌then◌else◌,
}
use fuse_backend_rs.Prelude.Outcome.{ok, ◌>>=◌}
use fuse_backend_rs.Fs.{Result, Stat, Entry}
use fuse_backend_rs.Vfs.Inode.{convert_inode}

abbrev pub u32_mod : ℕ
u32_mod = 2 ^ 32

abbrev pub add32 : ℕ → ℕ → ℕ
add32 a b = (a + b) % u32_mod

abbrev pub sub32 : ℕ → ℕ → ℕ
sub32 a b = (a + u32_mod - b) % u32_mod

-- (internal ID, external ID, range)
pub record IdMapping : Type 0 where
  pub internal_id : ℕ
  pub external_id : ℕ
  pub range : ℕ

-- `if id >= from && id < from + range { id += to - from }`
unfoldable pub shift_id : ℕ → ℕ → ℕ → ℕ → ℕ
shift_id from to range id =
    if leb from id && ltb id (add32 from range) then add32 id (sub32 to from) else id

unfoldable pub convert_entry : Option IdMapping → ℕ → ℕ → Entry → Result Entry
unfolding shift_id
convert_entry id_mapping fs_idx inode entry = do
  ino ← convert_inode fs_idx inode
  let attr' = record entry.attr { st_ino = ino }
  ok (record entry {
    inode = ino;
    attr = elim id_mapping [
      | none ↦ attr'
      | some m ↦ record attr' {
        st_uid = shift_id m.internal_id m.external_id m.range attr'.st_uid;
        st_gid = shift_id m.internal_id m.external_id m.range attr'.st_gid;
      }
    ];
  })

-- The four tests are made in this order, each on the attributes that the ones before left.
unfoldable pub remap_attr_id : Option IdMapping → Bool → Stat → Stat
unfolding shift_id
remap_attr_id none to_external attr = attr
remap_attr_id (some m) to_external attr =
    if to_external
    then record attr {
      st_uid = shift_id m.internal_id m.external_id m.range attr.st_uid;
      st_gid = shift_id m.internal_id m.external_id m.range attr.st_gid;
    }
    else record attr {
      st_uid = shift_id m.external_id m.internal_id m.range attr.st_uid;
      st_gid = shift_id m.external_id m.internal_id m.range attr.st_gid;
    }

-- Both ranges lie within the 32-bit numbers.
pub record IsProper (m : IdMapping) : Type 0 where
  pub internal_fits : m.internal_id + m.range < u32_mod
  pub external_fits : m.external_id + m.range < u32_mod

abbrev pub InInternal : IdMapping → ℕ → Type 0
InInternal m id = (m.internal_id ≤ id) × (id < m.internal_id + m.range)

module _ (m : IdMapping) (proper : IsProper m) where
  pub shift_id-inside :
      (id : ℕ)
      → InInternal m id
      → shift_id m.internal_id m.external_id m.range id ≡ id - m.internal_id + m.external_id
  unfolding shift_id
  shift_id-inside id h = ground arith

  shift_id-back :
      (id : ℕ)
      → InInternal m id
      → shift_id m.external_id m.internal_id m.range (id - m.internal_id + m.external_id) ≡ id
  unfolding shift_id
  shift_id-back id h = ground arith

  -- For a mapping whose ranges lie within 32 bits, attributes whose owner and group lie in the
  -- internal range come back unchanged from the map to external numbers and the map back, and the
  -- external numbers are as far from the start of the external range as the internal ones are from
  -- the start of the internal range.
  pub remap_attr_id-remap_attr_id :
      (attr : Stat)
      → InInternal m attr.st_uid
      → InInternal m attr.st_gid
      → (remap_attr_id (some m) false (remap_attr_id (some m) true attr) ≡ attr)
        × ((remap_attr_id (some m) true attr).st_uid ≡ attr.st_uid - m.internal_id + m.external_id)
        × ((remap_attr_id (some m) true attr).st_gid ≡ attr.st_gid - m.internal_id + m.external_id)
  unfolding remap_attr_id
  remap_attr_id-remap_attr_id attr u g =
      rw
        (
          shift_id-inside attr.st_uid u,
          shift_id-inside attr.st_gid g,
          shift_id-back attr.st_uid u,
          shift_id-back attr.st_gid g,
        )
        (refl, refl, refl)

-- Where `convert_inode` succeeds, what `convert_entry` does to the owner and group is
-- `remap_attr_id` to external numbers; the inode number stands in the entry and in the attributes
-- alike, and nothing else changes.
pub convert_entry-remap_attr_id :
    (im : Option IdMapping) (idx n x : ℕ) (e : Entry)
    → convert_inode idx n ≡ ok x
    → convert_entry im idx n e
      ≡ ok (record e { inode = x; attr = remap_attr_id im true (record e.attr { st_ino = x }) })
unfolding convert_entry remap_attr_id
convert_entry-remap_attr_id none idx n x e h = rw h
convert_entry-remap_attr_id (some m) idx n x e h = rw h
