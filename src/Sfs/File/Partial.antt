-- ===== src/Sfs/File/Partial.antt =====
-- sfs_partialio of kern/fs/sfs/sfs_vnode.c, reading.
use mehrad.Base.{
  ℕ, ◌+◌, ◌*◌, ◌/◌, ◌%◌, ◌<◌, ◌≤◌, ◌≡◌, ◌≢◌, refl, ap, ◌∙◌, Bool, true, false, not, List, some, ret,
  Code, success, ◌==◌, ==_iff, ==_ne, leb, if◌then◌else◌, arith, inl, inr, length, get_elem?,
  replicate, length-replicate, get_elem?-of_lt, ℕ_discrete,
}
use mehrad.Memory.Copy.{moved}
use mehrad.Memory.Cells.{moved-IsMoved, IsMoved-others}
use mehrad.Uio.{Uio, uiomove, advanced}
use mehrad.Uio.Transfer.{uiomove_read}
use mehrad.Sfs.State.{State, ok}
use mehrad.Sfs.Block.{sfs_bmap, sfs_rblock}
use mehrad.Sfs.Bmap.{block_at}
use mehrad.Sfs.Bmap.Lookup.{rblock-ok, sfs_bmap_lookup}
use mehrad.Sfs.Io.{
  IoState, Io, ◌>>=◌, ◌>>◌, pure, >>=-ok, assert, on_fs, on_uio, with_fs, with_mem, put_bytes,
  block_bytes, is_write,
}
use mehrad.Sfs.File.{sfs_partialio}
use mehrad.Sfs.File.Stores.{HasStored, store_bytes_lem, length-block_bytes, get_elem?-replicate}
use mehrad.Sfs.File.Content.{file_byte, CanRead, HasRead, Reads}

-- The 512 bytes of block `fb` of the file.
pub record IsBlock (s : State) (fb : ℕ) (bs : List ℕ) : Type 0 where
  pub full : length bs ≡ 512
  pub holds : (k : ℕ) → k < 512 → get_elem? bs k ≡ some (file_byte s.sv_i s.disk (fb * 512 + k))

pub zeros-IsBlock :
    (s : State) (fb : ℕ) → block_at s.sv_i s.disk fb ≡ 0 → IsBlock s fb (replicate 512 0)
unfolding file_byte
zeros-IsBlock s fb z = record {
  full = length-replicate {A = ℕ} 512 0;
  holds = λ k l.
      let p : (fb * 512 + k) / 512 ≡ fb = omega arith in
      get_elem?-replicate 512 k 0 l ∙ rw p (rw ((==_iff (block_at s.sv_i s.disk fb) 0).1 z) refl);
}

pub disk-IsBlock :
    (s : State) (fb b : ℕ)
    → block_at s.sv_i s.disk fb ≡ b
    → b ≢ 0
    → length (s.disk b) ≡ 128
    → IsBlock s fb (block_bytes (s.disk b))
unfolding file_byte
disk-IsBlock s fb b e nz size =
    let full : length (block_bytes (s.disk b)) ≡ 512 =
      omega (arith, length-block_bytes (s.disk b)) in
    record {
      full = full;
      holds = λ k l.
          let p : (fb * 512 + k) / 512 ≡ fb = omega arith in
          let q : (fb * 512 + k) % 512 ≡ k = omega arith in
          let (x, g) = get_elem?-of_lt (block_bytes (s.disk b)) k (omega arith) in
          g ∙ rw p (rw e (rw (==_ne b 0 nz) (rw q (rw g refl))));
    }

module _ (dev : Bool → ℕ → ℕ → Code) (works : (w : Bool) (b : ℕ) → dev w b 0 ≡ success)
    (iobuf blank : ℕ) where
  -- The number of the block that holds the offset.
  pub bmap-found :
      (n : ℕ) (w : IoState)
      → CanRead iobuf blank n w
      → 0 < n
      → with_fs w (sfs_bmap dev ((w.uio).uio_offset / 512) false w.fs)
        ≡ ret (ok (block_at (w.fs).sv_i (w.fs).disk ((w.uio).uio_offset / 512)), w)
  bmap-found n w c p =
      let f = c.in_file in
      ap (with_fs w) (
        sfs_bmap_lookup dev works ((w.uio).uio_offset / 512) false w.fs c.sound (omega arith)
          (inr refl))

  pub block-size :
      (n : ℕ) (w : IoState) (fb : ℕ)
      → CanRead iobuf blank n w
      → block_at (w.fs).sv_i (w.fs).disk fb ≢ 0
      → length ((w.fs).disk (block_at (w.fs).sv_i (w.fs).disk fb)) ≡ 128
  block-size n w fb c nz = c.formatted _ ((c.sound).blocks_in_use fb nz).0

  -- The block, as sfs_partialio puts it into the static buffer.
  fill : ℕ → Io (Unit {0})
  fill diskblock =
      if diskblock == 0
      then assert (not false) >> put_bytes iobuf (replicate 512 0)
      else (on_fs (sfs_rblock dev diskblock) >>= λ words. put_bytes iobuf (block_bytes words))

  stored :
      (n : ℕ) (w : IoState) (fb : ℕ) (bs : List ℕ)
      → CanRead iobuf blank n w
      → IsBlock w.fs fb bs
      → (m : List ℕ) × (put_bytes iobuf bs w ≡ ret (ok tt, record w { mem = m }))
        × HasStored w.mem m iobuf bs
  stored n w fb bs c b =
      let full = b.full in
      let room = c.iobuf_in in
      let (m, e, h) = store_bytes_lem w.mem iobuf bs (omega arith) in (m, ap (with_mem w) e, h)

  filled :
      (n : ℕ) (w : IoState) (fb : ℕ)
      → CanRead iobuf blank n w
      → (bs : List ℕ) × IsBlock w.fs fb bs
        × (m : List ℕ) × (fill (block_at (w.fs).sv_i (w.fs).disk fb) w
            ≡ ret (ok tt, record w { mem = m }))
        × HasStored w.mem m iobuf bs
  unfolding fill
  filled n w fb c = elim (ℕ_discrete (block_at (w.fs).sv_i (w.fs).disk fb) 0) [
    | yes z ↦
        let b = zeros-IsBlock w.fs fb z in
        let (m, e, h) = stored n w fb (replicate 512 0) c b in
        (replicate 512 0, b, m, rw ((==_iff (block_at (w.fs).sv_i (w.fs).disk fb) 0).1 z) e, h)
    | no nz ↦
        let d = block_at (w.fs).sv_i (w.fs).disk fb in
        let b = disk-IsBlock w.fs fb d refl nz (block-size n w fb c nz) in
        let (m, e, h) = stored n w fb (block_bytes ((w.fs).disk d)) c b in
        (
          block_bytes ((w.fs).disk d),
          b,
          m,
          rw (==_ne d 0 nz) (rw (rblock-ok dev works d w.fs) e),
          h,
        )
  ]

  -- What the buffer holds once a part of the static buffer has been moved to it.
  moved-HasRead :
      (n skip fb : ℕ) (w : IoState) (bs m : List ℕ)
      → CanRead iobuf blank n w
      → (w.uio).uio_offset ≡ fb * 512 + skip
      → skip + n ≤ 512
      → IsBlock w.fs fb bs
      → HasStored w.mem m iobuf bs
      → HasRead iobuf blank n w (moved m (w.uio).iov_base (iobuf + skip) n)
  moved-HasRead n skip fb w bs m c at_ fits b h =
      let full = b.full in
      let buffer = c.buffer in
      let iobuf_in = c.iobuf_in in
      let size = h.sized in
      let v = moved-IsMoved m (w.uio).iov_base (iobuf + skip) n (omega arith) (omega arith) in
      record {
        sized = v.sized ∙ h.sized;
        bytes = λ k l.
            let e : iobuf + skip + k ≡ iobuf + (skip + k) = omega arith in
            let p : fb * 512 + (skip + k) ≡ (w.uio).uio_offset + k = omega arith in
            v.inside k l
            ∙ ap (get_elem? m) e
            ∙ h.inside (skip + k) (omega arith)
            ∙ b.holds (skip + k) (omega arith)
            ∙ ap (λ (x : ℕ). some (file_byte (w.fs).sv_i (w.fs).disk x)) p;
        others = λ i o s.
            IsMoved-others v i o
            ∙ h.outside i (elim s [ inl x ↦ inl x | inr x ↦ inr (omega arith) ]);
      }

  partial-runs :
      (w : IoState) (skip n d : ℕ) (m m' : List ℕ) (u : Uio)
      → is_write (w.uio).uio_rw ≡ false
      → leb (skip + n) 512 ≡ true
      → with_fs w (sfs_bmap dev ((w.uio).uio_offset / 512) false w.fs) ≡ ret (ok d, w)
      → fill d w ≡ ret (ok tt, record w { mem = m })
      → uiomove (iobuf + skip) n m w.uio ≡ ret (m', u)
      → sfs_partialio dev iobuf blank skip n w ≡ ret (ok tt, record w { mem = m'; uio = u })
  unfolding sfs_partialio fill
  partial-runs w skip n d m m' u r a bmap e moves = rw a (
      rw r (
        rw bmap
          (>>=-ok (fill d) (λ x. on_uio (uiomove (iobuf + skip) n) >> pure tt) e (rw moves refl))))

  -- Within one block of the file.
  pub sfs_partialio-Reads :
      (n : ℕ) (w : IoState)
      → CanRead iobuf blank n w
      → 0 < n
      → (w.uio).uio_offset % 512 + n ≤ 512
      → Reads iobuf blank n (sfs_partialio dev iobuf blank ((w.uio).uio_offset % 512) n) w
  sfs_partialio-Reads n w c pos fits =
      let skip : ℕ = (w.uio).uio_offset % 512 in
      let fb : ℕ = (w.uio).uio_offset / 512 in
      let at_ : (w.uio).uio_offset ≡ fb * 512 + skip = omega arith in
      let a : leb (skip + n) 512 ≡ true = ground arith in
      let (bs, b, m, e, h) = filled n w fb c in
      let buffer = c.buffer in
      let iobuf_in = c.iobuf_in in
      let resid = c.resid_word in
      let offset = c.in_file in
      let size = h.sized in
      let u =
        uiomove_read (iobuf + skip) n m w.uio c.reads c.wanted c.room (omega arith) (omega arith)
          (omega arith) (omega arith) in
      (
        moved m (w.uio).iov_base (iobuf + skip) n,
        partial-runs w skip n (block_at (w.fs).sv_i (w.fs).disk fb) m
            (moved m (w.uio).iov_base (iobuf + skip) n) (advanced w.uio n) (ap is_write c.reads) a
            (bmap-found n w c pos) e u,
        moved-HasRead n skip fb w bs m c at_ fits b h,
      )
