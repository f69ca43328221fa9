-- ===== src/Vfs/Inode.antt =====
-- src/api/vfs/mod.rs, VfsInode and `convert_inode`: a backend's index and inode number in 64 bits.
use fuse_backend_rs.Prelude.{
  ℕ, ◌+◌, ◌-◌, ◌*◌, ◌/◌, ◌%◌, ◌^◌, ◌<◌, ◌≤◌, ◌≡◌, ap, ◌∙◌, ◌↔◌, Bool, true, arith, ◌==◌, ltb,
  if◌then◌else◌, bit_and, bit_or,
}
use fuse_backend_rs.Prelude.Outcome.{ok, err, panic}
use fuse_backend_rs.Prelude.Bits.{bit_or-shifted, bit_and-ones, bit_and-high}
use fuse_backend_rs.Fs.{other, Result, u64_mod}

abbrev pub vfs_max_ino : ℕ
vfs_max_ino = 0xff_ffff_ffff_ffff

abbrev pub vfs_index_shift : ℕ
vfs_index_shift = 56

abbrev pub vfs_pseudo_fs_idx : ℕ
vfs_pseudo_fs_idx = 0

abbrev pub max_vfs_index : ℕ
max_vfs_index = 256

-- `x << n` and `x >> n` of a u64.
abbrev pub shl : ℕ → ℕ → ℕ
shl x n = x * 2 ^ n % u64_mod

abbrev pub shr : ℕ → ℕ → ℕ
shr x n = x / 2 ^ n

-- `!x` of a u64
abbrev pub not_u64 : ℕ → ℕ
not_u64 x = u64_mod - 1 - x

-- `VfsInode::new`, with its assertion.
unfoldable pub new : ℕ → ℕ → Result ℕ
new fs_idx ino =
    if bit_and ino (not_u64 vfs_max_ino) == 0
    then ok (bit_or (shl fs_idx vfs_index_shift) ino)
    else panic

unfoldable pub fs_idx : ℕ → ℕ
fs_idx inode = shr inode vfs_index_shift % 256

unfoldable pub is_pseudo_fs : ℕ → Bool
is_pseudo_fs inode = shr inode vfs_index_shift % 256 == vfs_pseudo_fs_idx

unfoldable pub ino : ℕ → ℕ
ino inode = bit_and inode vfs_max_ino

unfoldable pub convert_inode : ℕ → ℕ → Result ℕ
convert_inode fs_idx inode =
    if inode == 0
    then ok inode
    else if ltb vfs_max_ino inode
    then err other
    else ok (bit_or (shl fs_idx vfs_index_shift) inode)

or_index :
    (idx n : ℕ)
    → idx < 256
    → n ≤ vfs_max_ino
    → bit_or (shl idx vfs_index_shift) n ≡ idx * 2 ^ 56 + n
or_index idx n hi lo =
    let e : idx * 2 ^ 56 % u64_mod ≡ idx * 2 ^ 56 = omega arith in
    rw e (bit_or-shifted 56 idx n (omega arith))

ino-mod : (x : ℕ) → ino x ≡ x % 2 ^ 56
unfolding ino
ino-mod x = bit_and-ones 56 x

assert_holds : (n : ℕ) → n ≤ vfs_max_ino → bit_and n (not_u64 vfs_max_ino) ≡ 0
assert_holds n h = let e : n / 2 ^ 56 ≡ 0 = omega arith in bit_and-high 56 n 255 ∙ rw e

pub new-eq : (idx n : ℕ) → idx < 256 → n ≤ vfs_max_ino → new idx n ≡ ok (idx * 2 ^ 56 + n)
unfolding new
new-eq idx n hi lo = rw (assert_holds n lo, or_index idx n hi lo)

pub fs_idx-eq : (idx n : ℕ) → idx < 256 → n ≤ vfs_max_ino → fs_idx (idx * 2 ^ 56 + n) ≡ idx
unfolding fs_idx
fs_idx-eq idx n hi lo = omega arith

pub ino-eq : (idx n : ℕ) → n ≤ vfs_max_ino → ino (idx * 2 ^ 56 + n) ≡ n
ino-eq idx n lo = omega (arith, ino-mod (idx * 2 ^ 56 + n))

-- A backend's index and an inode number of at most 56 bits are joined into one number, without a
-- failed assertion, and the two are read back from it.
pub new-parts :
    (idx n : ℕ)
    → idx < 256
    → n ≤ vfs_max_ino
    → (x : ℕ) × (new idx n ≡ ok x) × (fs_idx x ≡ idx) × (ino x ≡ n) × (x < u64_mod)
new-parts idx n hi lo =
    (idx * 2 ^ 56 + n, new-eq idx n hi lo, fs_idx-eq idx n hi lo, ino-eq idx n lo, omega arith)

-- Every 64-bit inode number is the joining of its own index and inode part, and it belongs to the
-- pseudo file system exactly when the index is 0.
pub new-fs_idx-ino :
    (x : ℕ)
    → x < u64_mod
    → (new (fs_idx x) (ino x) ≡ ok x) × ((is_pseudo_fs x ≡ true) ↔ (fs_idx x ≡ 0))
unfolding fs_idx is_pseudo_fs
new-fs_idx-ino x h =
    let hi : fs_idx x < 256 = omega arith in
    let lo : ino x ≤ vfs_max_ino = omega (arith, ino-mod x) in
    let e : fs_idx x * 2 ^ 56 + ino x ≡ x = omega (arith, ino-mod x) in
    (new-eq (fs_idx x) (ino x) hi lo ∙ ap ok e, ground arith)

-- A backend's inode number becomes a number of the whole file system exactly when it is at most
-- the largest supported one; 0, a negative entry, stays 0, and any other is joined with the index.
pub convert_inode_lem :
    (idx n : ℕ)
    → idx < 256
    → convert_inode idx n
      ≡ (if n == 0 then ok 0 else if ltb vfs_max_ino n then err other else ok (idx * 2 ^ 56 + n))
unfolding convert_inode
convert_inode_lem idx n hi = ground (arith, or_index idx n hi)

-- Two inodes of backends that are not negative entries get the same number only if they are the
-- same inode of the same backend.
convert_inode-injective :
    (idx idx' n n' x : ℕ)
    → idx < 256
    → idx' < 256
    → 0 < n
    → 0 < n'
    → convert_inode idx n ≡ ok x
    → convert_inode idx' n' ≡ ok x
    → (idx ≡ idx') × (n ≡ n')
convert_inode-injective idx idx' n n' x h h' p p' e e' =
    ground (arith, convert_inode_lem idx n h, convert_inode_lem idx' n' h')
