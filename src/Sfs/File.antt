-- ===== src/Sfs/File.antt =====
-- sfs_partialio, sfs_blockio and sfs_io of kern/fs/sfs/sfs_vnode.c, for a uio within the kernel. Offsets
-- and counts are 32-bit words, and off_t agrees with them below 2^31. `iobuf` is the static buffer of
-- sfs_partialio, and `blank` the zeros of uiomovezeros.
pub mod Stores
pub mod Content
pub mod Partial
pub mod Whole
pub mod Read
pub mod Body
pub mod Eof
mod Tests
use mehrad.Base.{
  ℕ, zero, suc, ◌+◌, ◌-◌, ◌*◌, ◌/◌, ◌%◌, ◌^◌, Bool, true, false, not, List, Outcome, ret, panic,
  Code, ltb, leb, ◌==◌, if◌then◌else◌, replicate, take, drop,
}
use mehrad.Uio.{UioRw, uio_read, uio_write, Uio, uiomove, uiomovezeros}
use mehrad.Sfs.State.{Answer, ok, err, State, Inode}
use mehrad.Sfs.Block.{sfs_bmap, sfs_rblock, sfs_wblock}
use mehrad.Sfs.Io.{
  sfs_blocksize, IoState, Io, ◌>>=◌, ◌>>◌, pure, assert, gets, modify, on_fs, on_uio, put_bytes,
  block_bytes, block_words, is_write, rwblock_uio,
}

abbrev pub set_uio : (Uio → Uio) → IoState → IoState
set_uio f w = record w { uio = f w.uio }

-- What is done after a call, whatever it returns.
abbrev pub finally :
    (IoState → IoState)
    → Outcome (Answer (Unit {0}) × IoState)
    → Outcome (Answer (Unit {0}) × IoState)
finally f panic = panic
finally f (ret (a, w)) = ret (a, f w)

abbrev pub when : Bool → Io (Unit {0}) → Io (Unit {0})
when b m = if b then m else pure tt

-- A word of 32 bits as a number that stands where the word, read as an off_t, does: off_t is signed.
abbrev pub off_t : ℕ → ℕ
off_t w = (w + 2 ^ 31) % 2 ^ 32

-- `out:`, which every path comes to: the length of the file, and the bytes past its end.
abbrev pub grow_file : IoState → IoState
grow_file w =
    let s = w.fs in
    if is_write (w.uio).uio_rw
    then (if ltb (off_t (s.sv_i).sfi_size) (off_t (w.uio).uio_offset)
        then record w {
          fs = record s {
            sv_i = record (s.sv_i) { sfi_size = (w.uio).uio_offset };
            sv_dirty = true;
          };
        }
        else w)
    else w

abbrev pub put_extra : ℕ → IoState → IoState
put_extra extraresid = set_uio λ u. record u { uio_resid = (u.uio_resid + extraresid) % 2 ^ 32 }

module _ (dev : Bool → ℕ → ℕ → Code) (iobuf blank : ℕ) where
  -- `sfs_wblock(sfs, iobuf, diskblock)`
  unfoldable pub write_back : ℕ → Io (Unit {0})
  write_back diskblock = do
    bytes ← gets (λ w. take sfs_blocksize (drop iobuf w.mem))
    on_fs (sfs_wblock dev (block_words bytes) diskblock)

  unfoldable pub sfs_partialio : ℕ → ℕ → Io (Unit {0})
  sfs_partialio skipstart len = do
    assert (leb (skipstart + len) sfs_blocksize)
    u ← gets (λ w. w.uio)
    let fileblock = u.uio_offset / sfs_blocksize
    let write = is_write u.uio_rw
    diskblock ← on_fs (sfs_bmap dev fileblock write)
    (if diskblock == 0
        then assert (not write) >> put_bytes iobuf (replicate sfs_blocksize 0)
        else (on_fs (sfs_rblock dev diskblock) >>= λ words. put_bytes iobuf (block_bytes words)))
    on_uio (uiomove (iobuf + skipstart) len)
    when write (write_back diskblock)

  -- `uio` is set up for the device around the transfer, and put back after it, whatever it returns.
  unfoldable pub device_block : ℕ → Io (Unit {0})
  device_block diskblock w =
      let saveoff = (w.uio).uio_offset in
      let diskoff = (diskblock * sfs_blocksize) % 2 ^ 32 in
      let saveres = (w.uio).uio_resid in
      let restore = set_uio λ u. record u {
        uio_offset = (u.uio_offset + 2 ^ 32 - diskoff + saveoff) % 2 ^ 32;
        uio_resid = (u.uio_resid + 2 ^ 32 - sfs_blocksize + saveres) % 2 ^ 32;
      } in
      if ltb saveres sfs_blocksize
      then panic
      else finally restore (
          rwblock_uio dev
            (set_uio (λ u. record u { uio_offset = diskoff; uio_resid = sfs_blocksize }) w))

  unfoldable pub sfs_blockio : Io (Unit {0})
  sfs_blockio = do
    u ← gets (λ w. w.uio)
    let fileblock = u.uio_offset / sfs_blocksize
    let write = is_write u.uio_rw
    diskblock ← on_fs (sfs_bmap dev fileblock write)
    (if diskblock == 0
        then assert (not write) >> on_uio (uiomovezeros blank sfs_blocksize)
        else device_block diskblock)

  -- `for (i=0; i<nblocks; i++)`
  unfoldable pub whole_blocks : ℕ → Io (Unit {0})
  whole_blocks zero = pure tt
  whole_blocks (suc n) = do sfs_blockio; whole_blocks n

  -- The leading partial block, if there is one.
  unfoldable pub first_part : Io (Unit {0})
  first_part = do
    u ← gets (λ w. w.uio)
    let blkoff = u.uio_offset % sfs_blocksize
    let len = sfs_blocksize - blkoff
    when (not (blkoff == 0))
        (sfs_partialio blkoff (if ltb u.uio_resid len then u.uio_resid else len))

  -- What follows it, with the block-aligned uio.
  unfoldable pub aligned_part : Io (Unit {0})
  aligned_part = do
    u ← gets (λ w. w.uio)
    assert (u.uio_offset % sfs_blocksize == 0)
    whole_blocks (u.uio_resid / sfs_blocksize)
    v ← gets (λ w. w.uio)
    assert (ltb v.uio_resid sfs_blocksize)
    when (ltb 0 v.uio_resid) (sfs_partialio 0 v.uio_resid)

  unfoldable pub sfs_io_body : Io (Unit {0})
  sfs_io_body = do
    first_part
    left ← gets (λ w. (w.uio).uio_resid)
    (if left == 0 then pure tt else aligned_part)

  unfoldable pub io_then_out : ℕ → Io (Unit {0})
  io_then_out extraresid w = finally (λ w'. put_extra extraresid (grow_file w')) (sfs_io_body w)

  unfoldable pub sfs_io : Io (Unit {0})
  sfs_io w =
      let u = w.uio in
      let size = ((w.fs).sv_i).sfi_size in
      let endpos = (u.uio_offset + u.uio_resid) % 2 ^ 32 in
      let extraresid = (endpos + 2 ^ 32 - size) % 2 ^ 32 in
      let clipped = (do
        assert (ltb extraresid u.uio_resid)
        modify (set_uio (λ u. record u { uio_resid = u.uio_resid - extraresid }))
        io_then_out extraresid) in
      if is_write u.uio_rw
      then io_then_out 0 w
      else if leb (off_t size) (off_t u.uio_offset)
      then ret (ok tt, w)
      else if ltb (off_t size) (off_t endpos)
      then clipped w
      else io_then_out 0 w
