-- ===== src/Sfs/Bmap.antt =====
-- sfs_bmap of kern/fs/sfs/sfs_vnode.c: which block of the disk holds a block of a file, and when the
-- file system is sound.
pub mod Lookup
pub mod Mapping
pub mod Allocate
pub mod Extend
pub mod Fill
use mehrad.Base.{
  ℕ, ◌+◌, ◌-◌, ◌≤◌, ◌<◌, ◌≡◌, ◌≢◌, Bool, true, false, List, Option, none, some, ltb, ◌==◌,
  if◌then◌else◌, get_elem?, length,
}
use mehrad.Bitmap.{Bitmap}
use mehrad.Bitmap.Usage.{used, IsValid}
use mehrad.Sfs.State.{Inode, State}

abbrev pub or_zero : Option ℕ → ℕ
or_zero none = 0
or_zero (some x) = x

-- The block of the disk that holds block `fb` of the file, 0 for a hole.
unfoldable pub block_at : Inode → (ℕ → List ℕ) → ℕ → ℕ
block_at i disk fb =
    if ltb fb 15
    then or_zero (get_elem? i.sfi_direct fb)
    else if i.sfi_indirect == 0
    then 0
    else or_zero (get_elem? (disk i.sfi_indirect) (fb - 15))

-- A block of the disk that is marked in use.
abbrev pub InUse : State → ℕ → Type 0
InUse s b = (b < s.sp_nblocks) × (used s.freemap.v b ≡ true)

-- The free map covers the disk and nothing else is free; it marks the superblock, and every block
-- that the file has; the arrays have their sizes.
pub record IsSound (s : State) : Type 0 where
  pub map_valid : IsValid s.freemap
  pub covers : s.sp_nblocks ≤ s.freemap.nbits
  pub beyond : (b : ℕ) → s.sp_nblocks ≤ b → used s.freemap.v b ≡ true
  pub super : used s.freemap.v 0 ≡ true
  pub directs : length (s.sv_i).sfi_direct ≡ 15
  pub indirect_in_use : (s.sv_i).sfi_indirect ≢ 0 → InUse s (s.sv_i).sfi_indirect
  pub indirect_size : (s.sv_i).sfi_indirect ≢ 0 → length (s.disk (s.sv_i).sfi_indirect) ≡ 128
  pub blocks_in_use : (fb : ℕ) → block_at s.sv_i s.disk fb ≢ 0 → InUse s (block_at s.sv_i s.disk fb)
