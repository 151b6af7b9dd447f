-- ===== src/Lhd/Tests.antt =====
-- The driver of the disk, with a card that fails the first operation that it is given.
use mehrad.Base.{ℕ, ◌≡◌, refl, none, some, eio, ◌==◌, if◌then◌else◌, replicate}
use mehrad.Uio.{uio_write}
use mehrad.Lhd.{Drive, lhd_code_to_errno, lhd_irq}

abbrev fails_at_first : ℕ → ℕ
fails_at_first n = if n == 0 then 20 else 4

-- The card's buffer stands at 0, the caller's at 512; sector 3 is asked for.
abbrev to_third : Drive
to_third = record {
  mem = replicate 1024 7;
  uio = record {
    iov_base = 512;
    iov_len = 512;
    uio_offset = 1536;
    uio_resid = 512;
    uio_rw = uio_write;
  };
  sectors = λ n. replicate 512 0;
  ops = 0;
}

-- An interrupt that comes before the operation is over reports nothing.
still_working : lhd_irq 1 ≡ none
unfolding lhd_irq
still_working = refl

media_error : lhd_irq 20 ≡ some eio
unfolding lhd_irq lhd_code_to_errno
media_error = refl
