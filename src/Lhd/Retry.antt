-- ===== src/Lhd/Retry.antt =====
-- What a try of lhd_io of kern/dev/lamebus/lhd.c leaves behind when the card fails, and what the next
-- try does then: the retries of sfs_rwblock rest on it.
use mehrad.Base.{
  zero, suc, panic, einval, Outcome, Code, ℕ, ◌+◌, ◌/◌, ◌%◌, ◌^◌, ◌<◌, ◌≤◌, ◌≡◌, ret, ◌>>=◌, length,
}
use mehrad.Uio.{uio_write, advanced}
use mehrad.Uio.Transfer.{after_move}
use mehrad.Lhd.{Drive, lhd_io}

-- A uio for one sector of the disk, with room for it, and the card's buffer, in memory.
pub record IsSectorUio (card d_blocks : ℕ) (d : Drive) : Type 0 where
  pub aligned : (d.uio).uio_offset % 512 ≡ 0
  pub one : (d.uio).uio_resid ≡ 512
  pub room : (d.uio).iov_len ≡ 512
  pub on_disk : (d.uio).uio_offset / 512 < d_blocks
  pub offset_word : (d.uio).uio_offset < 2 ^ 31
  pub buffer : (d.uio).iov_base + 512 ≤ length d.mem
  pub card_in : card + 512 ≤ length d.mem

module _ (hw : ℕ → ℕ) (card d_blocks : ℕ) where
  -- The drive once the sector has gone to the card's buffer and the card has failed.
  after_failure : Drive → Drive
  after_failure d = record d {
    mem = after_move uio_write d.mem (d.uio).iov_base card 512;
    uio = advanced d.uio 512;
    ops = d.ops + 1;
  }

  abbrev code_of : Outcome (Code × Drive) → Code
  code_of panic = einval
  code_of (ret (c, d)) = c

  abbrev drive_of : Drive → Outcome (Code × Drive) → Drive
  drive_of d panic = d
  drive_of d (ret (c, d')) = d'

  -- What lhd_io answers to each of a row of tries, the first of which finds the drive `d`.
  pub answer_to : Drive → ℕ → Code
  answer_to d zero = code_of (lhd_io hw card d_blocks d)
  answer_to d (suc try) = answer_to (drive_of d (lhd_io hw card d_blocks d)) try
