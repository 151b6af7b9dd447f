-- ===== src/Sfs/File/Whole.antt =====
-- sfs_blockio of kern/fs/sfs/sfs_vnode.c, reading: a whole block goes from the device to the buffer.
use mehrad.Base.{
  ℕ, ◌+◌, ◌-◌, ◌*◌, ◌/◌, ◌%◌, ◌^◌, ◌<◌, ◌≤◌, ◌≡◌, refl, ap, ◌∙◌, Bool, false, List, some, ret, Code,
  success, ltb, le→ltb, ◌==◌, ==_iff, ==_ne, arith, inl, inr, ℕ_discrete,
}
use mehrad.Memory.{store_bytes}
use mehrad.Uio.{uio_read, Uio, uiomovezeros, advanced}
use mehrad.Uio.Zeros.{CanZero, IsZeroed, uiomovezeros_lem}
use mehrad.Sfs.Device.{sfs_rwblock-success}
use mehrad.Sfs.State.{ok}
use mehrad.Sfs.Block.{sfs_bmap}
use mehrad.Sfs.Bmap.{block_at}
use mehrad.Sfs.Io.{IoState, with_fs, block_bytes, is_write, move_block, transfer_block, rwblock_uio}
use mehrad.Sfs.File.{sfs_blockio, device_block, set_uio, finally}
use mehrad.Sfs.File.Stores.{HasStored, store_bytes_lem}
use mehrad.Sfs.File.Content.{file_byte, CanRead, HasRead, Reads, after}
use mehrad.Sfs.File.Partial.{IsBlock, disk-IsBlock, bmap-found, block-size}

-- The uio that the device is given, and what is left of it.
abbrev for_device : Uio → ℕ → Uio
for_device u d = record u { uio_offset = (d * 512) % 2 ^ 32; uio_resid = 512 }

abbrev given_back : Uio → ℕ → Uio → Uio
given_back u d v = record v {
  uio_offset = (v.uio_offset + 2 ^ 32 - (d * 512) % 2 ^ 32 + u.uio_offset) % 2 ^ 32;
  uio_resid = (v.uio_resid + 2 ^ 32 - 512 + u.uio_resid) % 2 ^ 32;
}

-- All in all the uio advances by the block.
given_back-advanced :
    (u : Uio) (d : ℕ)
    → d < 2 ^ 22
    → 512 ≤ u.uio_resid
    → given_back u d (advanced (for_device u d) 512) ≡ advanced u 512
given_back-advanced u d h r =
    let e₁ : (((d * 512) % 2 ^ 32 + 512) % 2 ^ 32 + 2 ^ 32 - (d * 512) % 2 ^ 32 + u.uio_offset)
          % 2 ^ 32
        ≡ (u.uio_offset + 512) % 2 ^ 32 =
      omega arith in
    let e₂ : ((512 + 2 ^ 32 - 512) % 2 ^ 32 + 2 ^ 32 - 512 + u.uio_resid) % 2 ^ 32
        ≡ (u.uio_resid + 2 ^ 32 - 512) % 2 ^ 32 =
      omega arith in
    rw (e₁, e₂) refl

module _ (dev : Bool → ℕ → ℕ → Code) (works : (w : Bool) (b : ℕ) → dev w b 0 ≡ success)
    (iobuf blank : ℕ) where
  -- A block that is read through the device.
  device-runs :
      (w : IoState) (d : ℕ) (m : List ℕ)
      → (w.uio).uio_rw ≡ uio_read
      → d < 2 ^ 22
      → 512 ≤ (w.uio).uio_resid
      → (w.uio).uio_resid ≤ (w.uio).iov_len
      → store_bytes w.mem (w.uio).iov_base (block_bytes ((w.fs).disk d)) ≡ ret m
      → device_block dev iobuf blank d w ≡ ret (ok tt, after iobuf blank 512 w m)
  unfolding device_block rwblock_uio transfer_block
  device-runs w d m r h q l e =
      let big : ltb (w.uio).uio_resid 512 ≡ false = le→ltb (w.uio).uio_resid 512 q in
      let room : ltb (w.uio).iov_len 512 ≡ false = le→ltb (w.uio).iov_len 512 (omega arith) in
      let at_ : (d * 512) % 2 ^ 32 / 512 ≡ d = omega arith in
      let tries =
        sfs_rwblock-success (dev (is_write (w.uio).uio_rw) ((d * 512) % 2 ^ 32 / 512))
          (works _ _) in
      rw big (
        rw tries (
          rw room (
            ap
              (λ b.
                finally (set_uio (given_back w.uio d))
                  (move_block (w.uio).uio_rw b (record w { uio = for_device w.uio d })))
              at_
            ∙ ap
                (λ k.
                  finally (set_uio (given_back w.uio d))
                    (move_block k d (record w { uio = for_device w.uio d })))
                r
            ∙ rw e (
                ap (λ u. ret (ok tt, record w { mem = m; uio = u }))
                  (given_back-advanced w.uio d h q)))))

  -- What the buffer holds once the block stands there.
  stored-HasRead :
      (n fb : ℕ) (w : IoState) (bs m : List ℕ)
      → CanRead iobuf blank n w
      → 512 ≤ n
      → (w.uio).uio_offset ≡ fb * 512
      → IsBlock w.fs fb bs
      → HasStored w.mem m (w.uio).iov_base bs
      → HasRead iobuf blank 512 w m
  stored-HasRead n fb w bs m c big at_ b h =
      let full = b.full in
      record {
        sized = h.sized;
        bytes = λ k l.
            let p : fb * 512 + k ≡ (w.uio).uio_offset + k = omega arith in
            h.inside k (omega arith)
            ∙ b.holds k l
            ∙ ap (λ (x : ℕ). some (file_byte (w.fs).sv_i (w.fs).disk x)) p;
        others = λ i o s. h.outside i (elim o [ inl x ↦ inl x | inr x ↦ inr (omega arith) ]);
      }

  CanRead-CanZero : (w : IoState) → CanRead iobuf blank 512 w → CanZero blank 512 w.mem w.uio
  CanRead-CanZero w c =
      let f = c.in_file in
      let r = c.resid_word in
      record {
        reads = c.reads;
        wanted = c.wanted;
        room = c.room;
        resid_word = omega arith;
        offset_word = omega arith;
        buffer = c.buffer;
        blank_in = c.blank_in;
        blanks = c.blanks;
        apart = c.blank_apart;
      }

  hole-HasRead :
      (fb : ℕ) (w : IoState) (m : List ℕ)
      → (w.uio).uio_offset ≡ fb * 512
      → block_at (w.fs).sv_i (w.fs).disk fb ≡ 0
      → IsZeroed w.mem m (w.uio).iov_base 512
      → HasRead iobuf blank 512 w m
  unfolding file_byte
  hole-HasRead fb w m at_ z h = record {
    sized = h.sized;
    bytes = λ k l.
        let p : ((w.uio).uio_offset + k) / 512 ≡ fb = omega arith in
        h.zeros k l ∙ rw p (rw ((==_iff (block_at (w.fs).sv_i (w.fs).disk fb) 0).1 z) refl);
    others = λ i o s. h.others i o;
  }

  blockio-hole :
      (w : IoState) (m : List ℕ) (u : Uio)
      → is_write (w.uio).uio_rw ≡ false
      → with_fs w (sfs_bmap dev ((w.uio).uio_offset / 512) false w.fs) ≡ ret (ok 0, w)
      → uiomovezeros blank 512 w.mem w.uio ≡ ret (m, u)
      → sfs_blockio dev iobuf blank w ≡ ret (ok tt, record w { mem = m; uio = u })
  unfolding sfs_blockio
  blockio-hole w m u r bmap e = rw r (rw bmap (rw e refl))

  blockio-block :
      (w v : IoState) (d : ℕ)
      → is_write (w.uio).uio_rw ≡ false
      → with_fs w (sfs_bmap dev ((w.uio).uio_offset / 512) false w.fs) ≡ ret (ok d, w)
      → (d == 0) ≡ false
      → device_block dev iobuf blank d w ≡ ret (ok tt, v)
      → sfs_blockio dev iobuf blank w ≡ ret (ok tt, v)
  unfolding sfs_blockio
  blockio-block w v d r bmap nz e = rw r (rw bmap (rw nz e))

  -- A whole block of the file.
  pub sfs_blockio-Reads :
      (w : IoState)
      → CanRead iobuf blank 512 w
      → (w.uio).uio_offset % 512 ≡ 0
      → Reads iobuf blank 512 (sfs_blockio dev iobuf blank) w
  sfs_blockio-Reads w c aligned =
      let fb : ℕ = (w.uio).uio_offset / 512 in
      let at_ : (w.uio).uio_offset ≡ fb * 512 = omega arith in
      let bmap = bmap-found dev works iobuf blank 512 w c (omega arith) in
      let r = ap is_write c.reads in
      elim (ℕ_discrete (block_at (w.fs).sv_i (w.fs).disk fb) 0) [
        | yes z ↦
            let (m, e, h) = uiomovezeros_lem blank 512 w.mem w.uio (CanRead-CanZero w c) in
            (
              m,
              blockio-hole w m (advanced w.uio 512) r (bmap ∙ ap (λ (d : ℕ). ret (ok d, w)) z) e,
              hole-HasRead fb w m at_ z h,
            )
        | no nz ↦
            let d = block_at (w.fs).sv_i (w.fs).disk fb in
            let b =
              disk-IsBlock w.fs fb d refl nz (block-size dev works iobuf blank 512 w fb c nz) in
            let full = b.full in
            let buffer = c.buffer in
            let small = c.small in
            let in_use = ((c.sound).blocks_in_use fb nz).0 in
            let (m, e, h) =
              store_bytes_lem w.mem (w.uio).iov_base (block_bytes ((w.fs).disk d)) (omega arith) in
            (
              m,
              blockio-block w (after iobuf blank 512 w m) d r bmap (==_ne d 0 nz)
                  (device-runs w d m c.reads (omega arith) c.wanted c.room e),
              stored-HasRead 512 fb w (block_bytes ((w.fs).disk d)) m c (omega arith) at_ b h,
            )
      ]
