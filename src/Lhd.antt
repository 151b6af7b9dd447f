-- ===== src/Lhd.antt =====
-- kern/dev/lamebus/lhd.c: the driver of the disk. `hw n` is the status register when the operation
-- that was given to the card as number `n` ends, and `card` the place of the on-card buffer in memory.
-- A position of the uio is a word of 32 bits, here one below 2^31, which off_t holds.
pub mod Retry
mod Tests
use Prim.Native.Nat.{bit_and}
use mehrad.Base.{
  ℕ, zero, suc, ◌+◌, ◌-◌, ◌*◌, ◌/◌, ◌%◌, ◌^◌, Bool, true, false, ◌&&◌, ◌||◌, not, List, Option,
  none, some, Outcome, ret, panic, ◌>>=◌, ◌>>◌, Code, success, einval, eio, eagain, ltb, ◌==◌,
  if◌then◌else◌, take, drop,
}
use mehrad.Memory.{store_bytes}
use mehrad.Uio.{UioRw, uio_read, uio_write, Uio, uiomove}

abbrev pub sectsize : ℕ
sectsize = 512

-- lhd_code_to_errno, with `code & LHD_STATEMASK` tested.
unfoldable pub lhd_code_to_errno : ℕ → Code
lhd_code_to_errno code =
    let state = bit_and code 0x1d in
    if state == 4
    then success
    else if state == 12
    then einval
    else if state == 20
    then eio
    else eagain

-- lhd_irq: the result that it reports, if the operation is over. What it writes to the register is
-- left out.
unfoldable pub lhd_irq : ℕ → Option Code
lhd_irq val =
    let state = bit_and val 0x1d in
    if state == 4 || (state == 12 || state == 20) then some (lhd_code_to_errno val) else none

-- The memory with the card's buffer, the sectors, the uio, and how many operations the card was given.
pub record Drive : Type 0 where
  pub mem : List ℕ
  pub uio : Uio
  pub sectors : ℕ → List ℕ
  pub ops : ℕ

abbrev pub write_sector : (ℕ → List ℕ) → ℕ → List ℕ → ℕ → List ℕ
write_sector sectors n bytes k = if k == n then bytes else sectors k

module _ (hw : ℕ → ℕ) (card d_blocks : ℕ) where
  -- `uiomove(lh->lh_buf, LHD_SECTSIZE, uio)`
  abbrev pub move_sector : Drive → Outcome Drive
  move_sector d = do (m, u) ← uiomove card sectsize d.mem d.uio; ret (record d { mem = m; uio = u })

  -- The operation that the card is given, once it is over without an error.
  abbrev pub perform : UioRw → ℕ → Drive → Outcome Drive
  perform uio_read sector d = do
    m ← store_bytes d.mem card (d.sectors sector)
    move_sector (record d { mem = m })
  perform uio_write sector d =
      ret (record d { sectors = write_sector d.sectors sector (take sectsize (drop card d.mem)) })

  abbrev pub before_op : UioRw → Drive → Outcome Drive
  before_op uio_read d = ret d
  before_op uio_write d = move_sector d

  abbrev pub finish_op : Code → UioRw → ℕ → Drive → Outcome (Code × Drive)
  finish_op success rw sector d = do d' ← perform rw sector d; ret (success, d')
  finish_op c rw sector d = ret (c, d)

  -- One round of the loop of lhd_io, in the direction `rw`.
  abbrev pub round_by : UioRw → ℕ → Drive → Outcome (Code × Drive)
  round_by rw sector d = do
    d' ← before_op rw d
    finish_op (lhd_code_to_errno (hw d'.ops)) rw sector (record d' { ops = d'.ops + 1 })

  unfoldable pub sector_io : ℕ → Drive → Outcome (Code × Drive)
  sector_io sector d = round_by (d.uio).uio_rw sector d

  -- The loop, with `n` rounds to go; an error ends it.
  unfoldable pub io_rounds : ℕ → ℕ → Drive → Outcome (Code × Drive)
  io_rounds zero sector d = ret (success, d)
  io_rounds (suc n) sector d = do
    (c, d') ← sector_io sector d
    elim c [ success ↦ io_rounds n (sector + 1) d' | other ↦ ret (other, d') ]

  unfoldable pub lhd_io : Drive → Outcome (Code × Drive)
  lhd_io d =
      let sector = (d.uio).uio_offset / sectsize in
      let len = (d.uio).uio_resid / sectsize in
      if not ((d.uio).uio_offset % sectsize == 0) || not ((d.uio).uio_resid % sectsize == 0)
      then ret (einval, d)
      else if ltb d_blocks ((sector + len) % 2 ^ 32)
      then ret (einval, d)
      else io_rounds len sector d
