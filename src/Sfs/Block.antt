-- ===== src/Sfs/Block.antt =====
-- Blocks of kern/fs/sfs/sfs_vnode.c: reading and writing them, allocating and freeing them, and
-- sfs_bmap. `dev write block try` is what the device answers to a try; one that answers an error has
-- moved no data.
use mehrad.Base.{
  ℕ, ◌+◌, ◌-◌, ◌*◌, ◌/◌, ◌%◌, Bool, true, false, ◌&&◌, List, ◌∷◌, ◌++◌, Option, none, some, ret,
  panic, Code, success, enospc, einval, ltb, leb, ◌==◌, if◌then◌else◌, get_elem?, set, replicate,
}
use mehrad.Bitmap.{bitmap_alloc, bitmap_unmark, bitmap_isset}
use mehrad.Sfs.Device.{sfs_rwblock}
use mehrad.Sfs.State.{
  sfs_ndirect, sfs_dbperidb, Inode, State, M, ok, err, ◌>>=◌, ◌>>◌, pure, fail, crash, gets, modify,
}

abbrev pub zero_block : List ℕ
zero_block = replicate sfs_dbperidb 0

abbrev pub write_disk : (ℕ → List ℕ) → ℕ → List ℕ → ℕ → List ℕ
write_disk disk block words b = if b == block then words else disk b

-- `struct sfs_inode` as it stands in its block.
abbrev pub inode_words : Inode → List ℕ
inode_words i =
    i.sfi_size
    ∷ (i.sfi_type * 65536 + i.sfi_linkcount)
    ∷ (i.sfi_direct ++ i.sfi_indirect ∷ i.sfi_waste)

-- A read of an array in memory.
abbrev pub fetch : Option ℕ → M ℕ
fetch none = crash
fetch (some x) = pure x

-- What the code stores in the inode when it has allocated a direct or an indirect block.
abbrev pub set_direct : ℕ → ℕ → State → State
set_direct fileblock block s = record s {
  sv_i = record (s.sv_i) { sfi_direct = set (s.sv_i).sfi_direct fileblock block };
  sv_dirty = true;
}

abbrev pub set_indirect : ℕ → State → State
set_indirect block s = record s { sv_i = record (s.sv_i) { sfi_indirect = block }; sv_dirty = true }

module _ (dev : Bool → ℕ → ℕ → Code) where
  unfoldable pub sfs_rblock : ℕ → M (List ℕ)
  sfs_rblock block s = elim (sfs_rwblock (dev false block)) [
    | panic ↦ panic
    | ret success ↦ ret (ok (s.disk block), s)
    | ret c ↦ ret (err c, s)
  ]

  unfoldable pub sfs_wblock : List ℕ → ℕ → M (Unit {0})
  sfs_wblock words block s = elim (sfs_rwblock (dev true block)) [
    | panic ↦ panic
    | ret success ↦ ret (ok tt, record s { disk = write_disk s.disk block words })
    | ret c ↦ ret (err c, s)
  ]

  unfoldable pub sfs_clearblock : ℕ → M (Unit {0})
  sfs_clearblock block = sfs_wblock zero_block block

  unfoldable pub sfs_sync_inode : M (Unit {0})
  sfs_sync_inode s =
      if s.sv_dirty
      then (do
        sfs_wblock (inode_words s.sv_i) s.sv_ino
        modify (λ t. record t { sv_dirty = false }))
          s
      else ret (ok tt, s)

  unfoldable pub sfs_balloc : M ℕ
  sfs_balloc s = elim (bitmap_alloc s.freemap) [
    | panic ↦ panic
    | ret (none, b) ↦ ret (err enospc, record s { freemap = b })
    | ret (some block, b) ↦
        (if leb s.sp_nblocks block then crash else (do sfs_clearblock block; pure block))
          (record s { freemap = b; freemapdirty = true })
  ]

  unfoldable pub sfs_bfree : ℕ → M (Unit {0})
  sfs_bfree block s = elim (bitmap_unmark s.freemap block) [
    | panic ↦ panic
    | ret b ↦ ret (ok tt, record s { freemap = b; freemapdirty = true })
  ]

  unfoldable pub sfs_bused : ℕ → M Bool
  sfs_bused block s =
      if leb s.sp_nblocks block
      then panic
      else elim (bitmap_isset s.freemap block) [ panic ↦ panic | ret u ↦ ret (ok u, s) ]

  -- `if (block != 0 && !sfs_bused(sfs, block)) panic(...); *diskblock = block; return 0;`
  unfoldable pub hand_back : ℕ → M ℕ
  hand_back block =
      if block == 0 then pure block else (do u ← sfs_bused block; if u then pure block else crash)

  unfoldable pub bmap_direct : ℕ → Bool → M ℕ
  bmap_direct fileblock doalloc = do
    i ← gets (λ s. s.sv_i)
    block ← fetch (get_elem? i.sfi_direct fileblock)
    (if block == 0 && doalloc
        then (do new ← sfs_balloc; modify (set_direct fileblock new); hand_back new)
        else hand_back block)

  -- The rest of sfs_bmap once the indirect block `idblock` is at hand, in `idbuf`.
  unfoldable pub bmap_in_block : ℕ → List ℕ → ℕ → Bool → M ℕ
  bmap_in_block idblock idbuf idoff doalloc = do
    block ← fetch (get_elem? idbuf idoff)
    (if block == 0 && doalloc
        then (do new ← sfs_balloc; sfs_wblock (set idbuf idoff new) idblock; hand_back new)
        else hand_back block)

  -- `fileblock` less the direct blocks.
  unfoldable pub bmap_indirect : ℕ → Bool → M ℕ
  bmap_indirect fileblock doalloc = do
    let idnum = fileblock / sfs_dbperidb
    let idoff = fileblock % sfs_dbperidb
    i ← gets (λ s. s.sv_i)
    let idblock = i.sfi_indirect
    (if ltb 0 idnum
        then fail einval
        else if idblock == 0
        then (if doalloc
            then (do
              new ← sfs_balloc
              modify (set_indirect new)
              bmap_in_block new zero_block idoff doalloc)
            else pure 0)
        else (do idbuf ← sfs_rblock idblock; bmap_in_block idblock idbuf idoff doalloc))

  unfoldable pub sfs_bmap : ℕ → Bool → M ℕ
  sfs_bmap fileblock doalloc =
      if ltb fileblock sfs_ndirect
      then bmap_direct fileblock doalloc
      else bmap_indirect (fileblock - sfs_ndirect) doalloc
