-- ===== src/Sfs/File/Eof.antt =====
-- sfs_io of kern/fs/sfs/sfs_vnode.c, reading: what it returns of the file, up to its end.
use mehrad.Base.{
  ℕ, ◌+◌, ◌-◌, ◌%◌, ◌^◌, ◌<◌, ◌≤◌, ◌≡◌, refl, ap, ◌∙◌, sym, subst, Bool, true, false, List, ret,
  Code, success, ltb, leb, arith, min, dec_le,
}
use mehrad.Uio.{uio_read}
use mehrad.Sfs.State.{ok}
use mehrad.Sfs.Io.{IoState, is_write}
use mehrad.Sfs.File.{sfs_io_body, io_then_out, sfs_io, off_t, finally, grow_file, put_extra}
use mehrad.Sfs.File.Content.{CanRead, Reads, after}
use mehrad.Sfs.File.Read.{nothing-Reads}
use mehrad.Sfs.File.Body.{sfs_io_body-Reads}

module _ (dev : Bool → ℕ → ℕ → Code) (works : (w : Bool) (b : ℕ) → dev w b 0 ≡ success)
    (iobuf blank : ℕ) where
  -- What is done at the end of a read: the bytes past the end of the file count as left again.
  out-Reads :
      (n extra : ℕ) (w v : IoState) (m : List ℕ)
      → (w.uio).uio_rw ≡ uio_read
      → sfs_io_body dev iobuf blank w ≡ ret (ok tt, after iobuf blank n w m)
      → put_extra extra (after iobuf blank n w m) ≡ v
      → io_then_out dev iobuf blank extra w ≡ ret (ok tt, v)
  unfolding io_then_out
  out-Reads n extra w v m r e q =
      ap (finally (λ w'. put_extra extra (grow_file w'))) e ∙ grown ∙ ap (λ v. ret (ok tt, v)) q
    where
      grown :
          finally (λ w'. put_extra extra (grow_file w')) (ret (ok tt, after iobuf blank n w m))
          ≡ ret (ok tt, put_extra extra (after iobuf blank n w m))
      grown = let b : is_write (w.uio).uio_rw ≡ false = ap is_write r in rw b refl

  -- How much of what is asked for the file has.
  abbrev pub available : IoState → ℕ
  available w = min (w.uio).uio_resid (((w.fs).sv_i).sfi_size - (w.uio).uio_offset)

  at_end :
      (n : ℕ) (w : IoState)
      → CanRead iobuf blank n w
      → n ≡ 0
      → ((w.fs).sv_i).sfi_size ≤ (w.uio).uio_offset
      → (w.uio).uio_offset < 2 ^ 31
      → Reads iobuf blank n (sfs_io dev iobuf blank) w
  unfolding sfs_io
  at_end n w c z le word =
      let b : is_write (w.uio).uio_rw ≡ false = ap is_write c.reads in
      let e : leb (off_t ((w.fs).sv_i).sfi_size) (off_t (w.uio).uio_offset) ≡ true = ground arith in
      subst (λ (x : ℕ). Reads iobuf blank x (sfs_io dev iobuf blank) w) (sym z)
        (nothing-Reads dev works iobuf blank n w (sfs_io dev iobuf blank) c (rw b (rw e refl)))

  nothing_extra :
      (n : ℕ) (w : IoState) (m : List ℕ)
      → put_extra 0 (after iobuf blank n w m) ≡ after iobuf blank n w m
  nothing_extra n w m =
      let e : (((w.uio).uio_resid + 2 ^ 32 - n) % 2 ^ 32 + 0) % 2 ^ 32
          ≡ ((w.uio).uio_resid + 2 ^ 32 - n) % 2 ^ 32 =
        omega arith in
      rw e refl

  within_file :
      (n : ℕ) (w : IoState)
      → CanRead iobuf blank n w
      → (w.uio).uio_resid ≡ n
      → 0 < n
      → (w.uio).uio_offset + n < 2 ^ 31
      → (w.uio).uio_offset + n ≤ ((w.fs).sv_i).sfi_size
      → ((w.fs).sv_i).sfi_size < 2 ^ 31
      → Reads iobuf blank n (sfs_io dev iobuf blank) w
  unfolding sfs_io
  within_file n w c left pos word fits small =
      let b : is_write (w.uio).uio_rw ≡ false = ap is_write c.reads in
      let before_end : leb (off_t ((w.fs).sv_i).sfi_size) (off_t (w.uio).uio_offset) ≡ false =
        ground arith in
      let p : ((w.uio).uio_offset + (w.uio).uio_resid) % 2 ^ 32 ≡ (w.uio).uio_offset + n =
        omega arith in
      let whole : ltb (off_t ((w.fs).sv_i).sfi_size) (off_t ((w.uio).uio_offset + n)) ≡ false =
        ground arith in
      let (m, e, r) = sfs_io_body-Reads dev works iobuf blank n w c left pos in
      (
        m,
        rw b (
            rw before_end (
              rw p (
                rw whole
                  (out-Reads n 0 w (after iobuf blank n w m) m c.reads e (nothing_extra n w m))))),
        r,
      )

  -- The uio whose end is that of the file.
  abbrev clipped : IoState → ℕ → IoState
  clipped w n = record w { uio = record (w.uio) { uio_resid = n } }

  clipped-CanRead :
      (n : ℕ) (w : IoState) → CanRead iobuf blank n w → CanRead iobuf blank n (clipped w n)
  clipped-CanRead n w c =
      let wanted = c.wanted in
      let room = c.room in
      let r = c.resid_word in
      record {
        sound = c.sound;
        formatted = c.formatted;
        small = c.small;
        reads = c.reads;
        wanted = omega arith;
        room = omega arith;
        resid_word = omega arith;
        in_file = c.in_file;
        buffer = c.buffer;
        iobuf_in = c.iobuf_in;
        blank_in = c.blank_in;
        blanks = c.blanks;
        iobuf_apart = c.iobuf_apart;
        blank_apart = c.blank_apart;
        iobuf_blank = c.iobuf_blank;
      }

  extra_back :
      (n extra : ℕ) (w : IoState) (m : List ℕ)
      → (w.uio).uio_resid ≡ n + extra
      → (w.uio).uio_resid < 2 ^ 31
      → put_extra extra (after iobuf blank n (clipped w n) m) ≡ after iobuf blank n w m
  extra_back n extra w m h k =
      let e : ((n + 2 ^ 32 - n) % 2 ^ 32 + extra) % 2 ^ 32
          ≡ ((w.uio).uio_resid + 2 ^ 32 - n) % 2 ^ 32 =
        omega arith in
      rw e refl

  past_end :
      (n : ℕ) (w : IoState)
      → CanRead iobuf blank n w
      → 0 < n
      → (w.uio).uio_offset + (w.uio).uio_resid < 2 ^ 31
      → (w.uio).uio_offset + n ≡ ((w.fs).sv_i).sfi_size
      → n < (w.uio).uio_resid
      → Reads iobuf blank n (sfs_io dev iobuf blank) w
  unfolding sfs_io
  past_end n w c pos word end more =
      let b : is_write (w.uio).uio_rw ≡ false = ap is_write c.reads in
      let before_end : leb (off_t ((w.fs).sv_i).sfi_size) (off_t (w.uio).uio_offset) ≡ false =
        ground arith in
      let size : ℕ = ((w.fs).sv_i).sfi_size in
      let extra : ℕ = (w.uio).uio_resid - n in
      let p : ((w.uio).uio_offset + (w.uio).uio_resid) % 2 ^ 32 ≡ size + extra = omega arith in
      let over : ltb (off_t size) (off_t (size + extra)) ≡ true = ground arith in
      let x : (size + extra + 2 ^ 32 - size) % 2 ^ 32 ≡ extra = omega arith in
      let some_left : ltb extra (w.uio).uio_resid ≡ true = ground arith in
      let y : (w.uio).uio_resid - extra ≡ n = omega arith in
      let (m, e, r) =
        sfs_io_body-Reads dev works iobuf blank n (clipped w n) (clipped-CanRead n w c) refl pos in
      (
        m,
        rw b (
            rw before_end (
              rw p (
                rw over (
                  rw x (
                    rw some_left (
                      rw y (
                        out-Reads n extra (clipped w n) (after iobuf blank n w m) m c.reads e
                          (extra_back n extra w m (omega arith) c.resid_word)))))))),
        record { sized = r.sized; bytes = r.bytes; others = r.others },
      )

  -- For a device whose first tries succeed, a file of less than 2^31 bytes, and a read of at least one byte
  -- that ends below the position 2^31, and of which the bytes that the file has can be read: sfs_io
  -- succeeds, and what it puts in the buffer are the bytes of the file from the offset on, up to its end, zeros
  -- for a hole; it advances the uio by as many, and changes nothing but the buffer and its own static buffer.
  pub sfs_io_read :
      (w : IoState)
      → 0 < (w.uio).uio_resid
      → (w.uio).uio_offset + (w.uio).uio_resid < 2 ^ 31
      → ((w.fs).sv_i).sfi_size < 2 ^ 31
      → CanRead iobuf blank (available w) w
      → Reads iobuf blank (available w) (sfs_io dev iobuf blank) w
  sfs_io_read w pos word small c = elim (dec_le ((w.fs).sv_i).sfi_size (w.uio).uio_offset) [
    | yes le ↦ at_end (available w) w c (omega arith) le (omega arith)
    | no lt ↦ elim (dec_le ((w.uio).uio_offset + (w.uio).uio_resid) ((w.fs).sv_i).sfi_size) [
      | yes fits ↦
          within_file (available w) w c (omega arith) (omega arith) (omega arith) (omega arith)
            small
      | no over ↦ past_end (available w) w c (omega arith) word (omega arith) (omega arith)
    ]
  ]
