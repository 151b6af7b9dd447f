-- ===== src/Sfs/File/Tests.antt =====
-- The theorems about file I/O at a concrete file.
use mehrad.Base.{ℕ, ◌+◌, ◌<◌, ◌≡◌, refl, arith, inl, length, length-replicate, replicate}
use mehrad.Uio.{uio_read}
use mehrad.Sfs.Block.{zero_block}
use mehrad.Sfs.Tests.{steady, one_block, one_block-IsSound}
use mehrad.Sfs.Io.{IoState}
use mehrad.Sfs.File.{sfs_io}
use mehrad.Sfs.File.Stores.{get_elem?-replicate}
use mehrad.Sfs.File.Content.{CanRead, Reads}
use mehrad.Sfs.File.Eof.{sfs_io_read}

-- The static buffer stands at 0, the zeros at 512, and the caller's buffer, of eight bytes, at 528.
-- The file has 512 bytes, of which the last four are asked for, and four more.
abbrev near_end : IoState
near_end = record {
  mem = replicate 536 0;
  uio = record { iov_base = 528; iov_len = 8; uio_offset = 508; uio_resid = 8; uio_rw = uio_read };
  fs = one_block;
}

zeros-length : (b : ℕ) → b < 16 → length zero_block ≡ 128
zeros-length b h = length-replicate {A = ℕ} 128 0

near_end-length : length near_end.mem ≡ 536
near_end-length = length-replicate {A = ℕ} 536 0

near_end-CanRead : CanRead 0 512 4 near_end
near_end-CanRead =
    let l = near_end-length in
    record {
      sound = one_block-IsSound;
      formatted = zeros-length;
      small = omega arith;
      reads = refl;
      wanted = omega arith;
      room = omega arith;
      resid_word = omega arith;
      in_file = omega arith;
      buffer = omega arith;
      iobuf_in = omega arith;
      blank_in = omega arith;
      blanks = λ i h. get_elem?-replicate 536 (512 + i) 0 (omega arith);
      iobuf_apart = inl (omega arith);
      blank_apart = inl (omega arith);
      iobuf_blank = inl (omega arith);
    }

sfs_io_read_example : Reads 0 512 4 (sfs_io steady 0 512) near_end
sfs_io_read_example =
    sfs_io_read steady (λ w b. refl) 0 512 near_end (omega arith) (omega arith) (omega arith)
      near_end-CanRead
