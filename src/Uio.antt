-- ===== src/Uio.antt =====
-- kern/userprog/uio.c for transfers within the kernel (UIO_SYSSPACE). Memory is a list of bytes, and a
-- pointer is a place in it. Counts and offsets are 32-bit words.
pub mod Transfer
pub mod Zeros
mod Tests
use mehrad.Base.{
  ℕ, zero, suc, ◌+◌, ◌-◌, ◌%◌, ◌^◌, ◌||◌, Bool, true, false, assert, ◌>>◌, List, Outcome, ret,
  panic, ◌>>=◌, ltb, ◌==◌, if◌then◌else◌,
}
use mehrad.Memory.{memmove}

-- `enum uio_rw`: out of the kernel's buffer, or into it.
pub data UioRw : Type 0 where
  uio_read uio_write : UioRw

-- `struct uio`, with its one iovec.
pub record Uio : Type 0 where
  pub iov_base : ℕ
  pub iov_len : ℕ
  pub uio_offset : ℕ
  pub uio_resid : ℕ
  pub uio_rw : UioRw

-- The memmove of a round.
unfoldable pub transfer : UioRw → List ℕ → ℕ → ℕ → ℕ → Outcome (List ℕ)
transfer uio_read mem base ptr size = memmove mem base ptr size
transfer uio_write mem base ptr size = memmove mem ptr base size

abbrev pub advanced : Uio → ℕ → Uio
advanced uio size = record uio {
  iov_base = uio.iov_base + size;
  iov_len = uio.iov_len - size;
  uio_resid = (uio.uio_resid + 2 ^ 32 - size) % 2 ^ 32;
  uio_offset = (uio.uio_offset + size) % 2 ^ 32;
}

-- The loop of uiomove; the first argument bounds its rounds.
unfoldable pub move_rounds : ℕ → ℕ → ℕ → List ℕ → Uio → Outcome (List ℕ × Uio)
move_rounds zero n ptr mem uio = if n == 0 || uio.uio_resid == 0 then ret (mem, uio) else panic
move_rounds (suc rounds) n ptr mem uio = do
  let size = (if ltb n uio.iov_len then n else uio.iov_len)
  let round = (do
    mem' ← transfer uio.uio_rw mem uio.iov_base ptr size
    move_rounds rounds (n - size) (ptr + size) mem' (advanced uio size))
  (if n == 0 || uio.uio_resid == 0 then ret (mem, uio) else if size == 0 then panic else round)

-- Each round moves a byte at least.
unfoldable pub uiomove : ℕ → ℕ → List ℕ → Uio → Outcome (List ℕ × Uio)
uiomove ptr n mem uio = move_rounds n n ptr mem uio

unfoldable pub mk_kuio : ℕ → ℕ → ℕ → UioRw → Uio
mk_kuio kbuf len pos rw = record {
  iov_base = kbuf;
  iov_len = len;
  uio_offset = pos;
  uio_resid = len;
  uio_rw = rw;
}

-- uiomovezeros; 16 bytes of zeros stand at `blank`, and the first argument bounds the rounds.
unfoldable pub zero_rounds : ℕ → ℕ → ℕ → List ℕ → Uio → Outcome (List ℕ × Uio)
zero_rounds zero blank n mem uio = if n == 0 then ret (mem, uio) else panic
zero_rounds (suc rounds) blank n mem uio = do
  let amt = (if ltb n 16 then n else 16)
  let round = (do
    (mem', uio') ← uiomove blank amt mem uio
    zero_rounds rounds blank (n - amt) mem' uio')
  (if n == 0 then ret (mem, uio) else round)

-- `assert(uio->uio_rw == UIO_READ)`
abbrev pub is_read : UioRw → Bool
is_read uio_read = true
is_read uio_write = false

unfoldable pub uiomovezeros : ℕ → ℕ → List ℕ → Uio → Outcome (List ℕ × Uio)
uiomovezeros blank n mem uio = do assert (is_read uio.uio_rw); zero_rounds n blank n mem uio
