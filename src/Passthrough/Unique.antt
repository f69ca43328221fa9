-- ===== src/Passthrough/Unique.antt =====
-- `UniqueInodeGenerator` of src/passthrough/util.rs. Identities of files are numbers here, with the
-- fields that a record of functions gives.
use fuse_backend_rs.Prelude.{
  ℕ, ◌+◌, ◌*◌, ◌^◌, ◌%◌, ◌&&◌, Option, none, some, List, [], ◌∷◌, ◌==◌, ltb, leb, if◌then◌else◌,
  bit_or,
}
use fuse_backend_rs.Prelude.Outcome.{ok, err, panic}
use fuse_backend_rs.Fs.{Result, other, u64_mod}

-- The fields of an `InodeId`.
pub record InodeIds : Type 0 where
  pub ino : ℕ → ℕ
  pub dev : ℕ → ℕ
  pub mnt : ℕ → ℕ

pub record UniqueInodeGenerator : Type 0 where
  pub dev_mntid_map : List ((ℕ × ℕ) × ℕ)
  pub next_unique_id : ℕ
  pub next_virtual_inode : ℕ

-- `ROOT_ID + 1`
abbrev pub new_generator : UniqueInodeGenerator
new_generator = record { dev_mntid_map = []; next_unique_id = 1; next_virtual_inode = 2 }

abbrev pub max_host_ino : ℕ
max_host_ino = 0x7fff_ffff_ffff

abbrev pub virtual_inode_flag : ℕ
virtual_inode_flag = 2 ^ 55

unfoldable pub id_of : ℕ → ℕ → List ((ℕ × ℕ) × ℕ) → Option ℕ
id_of dev mnt [] = none
id_of dev mnt (((d, m), unique_id) ∷ rest) =
    if (d == dev) && (m == mnt) then some unique_id else id_of dev mnt rest

-- The number of the pair of device and mount, with a new one for a new pair.
abbrev pub paired : ℕ → ℕ → UniqueInodeGenerator → Option ℕ → UniqueInodeGenerator × Result ℕ
paired dev mnt g (some unique_id) = (g, ok unique_id)
paired dev mnt g none = if g.next_unique_id == 255 then (g, err other) else (
  record g {
    dev_mntid_map = ((dev, mnt), g.next_unique_id) ∷ g.dev_mntid_map;
    next_unique_id = (g.next_unique_id + 1) % 256;
  },
  ok g.next_unique_id,
)

-- The host's number, or a new one of the generator's own.
abbrev pub host_or_virtual : ℕ → UniqueInodeGenerator → UniqueInodeGenerator × Result ℕ
host_or_virtual ino g =
    if leb ino max_host_ino
    then (g, ok ino)
    else (if ltb max_host_ino g.next_virtual_inode then (g, err other) else (
      record g { next_virtual_inode = (g.next_virtual_inode + 1) % u64_mod },
      ok (bit_or g.next_virtual_inode virtual_inode_flag),
    ))

abbrev pub combined : ℕ → UniqueInodeGenerator × Result ℕ → UniqueInodeGenerator × Result ℕ
combined unique_id (g, ok inode) = (g, ok (bit_or (unique_id * 2 ^ 47) inode))
combined unique_id (g, err e) = (g, err e)
combined unique_id (g, panic) = (g, panic)

abbrev pub numbered_pair : ℕ → UniqueInodeGenerator × Result ℕ → UniqueInodeGenerator × Result ℕ
numbered_pair ino (g, ok unique_id) = combined unique_id (host_or_virtual ino g)
numbered_pair ino (g, err e) = (g, err e)
numbered_pair ino (g, panic) = (g, panic)

unfoldable pub get_unique_inode :
    InodeIds → UniqueInodeGenerator → ℕ → UniqueInodeGenerator × Result ℕ
get_unique_inode ids g id =
    numbered_pair (ids.ino id)
      (paired (ids.dev id) (ids.mnt id) g (id_of (ids.dev id) (ids.mnt id) g.dev_mntid_map))
