-- ===== src/Sfs/File/Read.antt =====
-- sfs_io of kern/fs/sfs/sfs_vnode.c, reading: the parts that it is cut into are one read of the file.
use mehrad.Base.{
  ℕ, zero, suc, ◌-◌, ◌*◌, ◌/◌, ◌%◌, ◌<◌, ◌≤◌, ◌≡◌, refl, ap, ap₂, ◌∙◌, sym, subst, Bool, true,
  false, List, ret, Code, success, ltb, ◌==◌, arith, ℕ_discrete,
}
use mehrad.Uio.Transfer.{advanced_zero}
use mehrad.Sfs.State.{ok}
use mehrad.Sfs.Io.{IoState, Io, ◌>>=◌, ◌>>◌, >>=-ok, assert, gets}
use mehrad.Sfs.File.{sfs_partialio, sfs_blockio, whole_blocks, aligned_part, when}
use mehrad.Sfs.File.Content.{
  CanRead, HasRead, Reads, after, CanRead-less, after-CanRead, HasRead-both, after_both,
}
use mehrad.Sfs.File.Partial.{sfs_partialio-Reads}
use mehrad.Sfs.File.Whole.{sfs_blockio-Reads}

module _ (dev : Bool → ℕ → ℕ → Code) (works : (w : Bool) (b : ℕ) → dev w b 0 ≡ success)
    (iobuf blank : ℕ) where
  pub nothing-HasRead : (w : IoState) → HasRead iobuf blank 0 w w.mem
  nothing-HasRead w = record {
    sized = refl;
    bytes = λ k l. absurd (omega arith);
    others = λ i o s. refl;
  }

  pub nothing-Reads :
      (n : ℕ) (w : IoState) (act : Io (Unit {0}))
      → CanRead iobuf blank n w
      → act w ≡ ret (ok tt, w)
      → Reads iobuf blank 0 act w
  nothing-Reads n w act c e =
      let r = c.resid_word in
      let f = c.in_file in
      (
        w.mem,
        e
            ∙ ap (λ u. ret (ok tt, record w { uio = u }))
                (sym (advanced_zero w.uio (omega arith) (omega arith))),
        nothing-HasRead w,
      )

  -- What is read in two parts is read.
  pub then-Reads :
      (n k : ℕ) (w : IoState) (act next : Io (Unit {0}))
      → k ≤ n
      → CanRead iobuf blank n w
      → Reads iobuf blank k act w
      → ((m : List ℕ)
          → CanRead iobuf blank (n - k) (after iobuf blank k w m)
          → Reads iobuf blank (n - k) next (after iobuf blank k w m))
      → Reads iobuf blank n (act >> next) w
  then-Reads n k w act next h c (m, e, r) f =
      let (m', e', r') = f m (after-CanRead iobuf blank n k w m h c r) in
      (
        m',
        >>=-ok act (λ _. next) e
            (e' ∙ ap (λ v. ret (ok tt, v)) (after_both iobuf blank n k w m m' h c)),
        HasRead-both iobuf blank n k w m m' h c r r',
      )

  whole_blocks-Reads :
      (k n : ℕ) (w : IoState)
      → n ≡ k * 512
      → CanRead iobuf blank n w
      → (w.uio).uio_offset % 512 ≡ 0
      → Reads iobuf blank n (whole_blocks dev iobuf blank k) w
  unfolding whole_blocks
  whole_blocks-Reads zero n w e c a =
      let z : 0 ≡ n = omega arith in
      subst (λ (x : ℕ). Reads iobuf blank x (whole_blocks dev iobuf blank 0) w) z
        (nothing-Reads n w (whole_blocks dev iobuf blank 0) c refl)
  whole_blocks-Reads (suc k) n w e c a =
      then-Reads n 512 w (sfs_blockio dev iobuf blank) (whole_blocks dev iobuf blank k)
        (omega arith) c
        (sfs_blockio-Reads dev works iobuf blank w
          (CanRead-less iobuf blank n 512 w (omega arith) c) a)
        (λ m c'.
          whole_blocks-Reads k (n - 512) (after iobuf blank 512 w m) (omega arith) c' (omega arith))

  -- All that is left is less than a block.
  last-Reads :
      (n : ℕ) (w : IoState)
      → CanRead iobuf blank n w
      → (w.uio).uio_resid ≡ n
      → (w.uio).uio_offset % 512 ≡ 0
      → n < 512
      → Reads iobuf blank n
          (when (ltb 0 (w.uio).uio_resid) (sfs_partialio dev iobuf blank 0 (w.uio).uio_resid))
          w
  last-Reads n w c left a h = elim (ℕ_discrete n 0) [
    | yes z ↦
        let none_left : ltb 0 (w.uio).uio_resid ≡ false = ground arith in
        subst
          (λ (x : ℕ).
            Reads iobuf blank x
              (when (ltb 0 (w.uio).uio_resid) (sfs_partialio dev iobuf blank 0 (w.uio).uio_resid))
              w)
          (sym z)
          (nothing-Reads n w
            (when (ltb 0 (w.uio).uio_resid) (sfs_partialio dev iobuf blank 0 (w.uio).uio_resid)) c
            (rw none_left refl))
    | no nz ↦
        let some_left : ltb 0 (w.uio).uio_resid ≡ true = ground arith in
        let (m, e, r) =
          sfs_partialio-Reads dev works iobuf blank n w c (omega arith) (omega arith) in
        (
          m,
          rw some_left (ap₂ (λ (s l : ℕ). sfs_partialio dev iobuf blank s l w) (sym a) left ∙ e),
          r,
        )
  ]

  last_step : Io (Unit {0})
  last_step = do
    v ← gets (λ w. w.uio)
    assert (ltb v.uio_resid 512)
    when (ltb 0 v.uio_resid) (sfs_partialio dev iobuf blank 0 v.uio_resid)

  last_step-Reads :
      (n : ℕ) (w : IoState)
      → CanRead iobuf blank n w
      → (w.uio).uio_resid ≡ n
      → (w.uio).uio_offset % 512 ≡ 0
      → n < 512
      → Reads iobuf blank n last_step w
  unfolding last_step
  last_step-Reads n w c left a h =
      let b : ltb (w.uio).uio_resid 512 ≡ true = ground arith in
      let (m, e, r) = last-Reads n w c left a h in (m, rw b e, r)

  pub aligned_part-Reads :
      (n : ℕ) (w : IoState)
      → CanRead iobuf blank n w
      → (w.uio).uio_resid ≡ n
      → (w.uio).uio_offset % 512 ≡ 0
      → Reads iobuf blank n (aligned_part dev iobuf blank) w
  unfolding aligned_part last_step
  aligned_part-Reads n w c left a =
      let k : ℕ = (w.uio).uio_resid / 512 in
      let r = c.resid_word in
      let f = c.in_file in
      let b : ((w.uio).uio_offset % 512 == 0) ≡ true = ground arith in
      let (m, e, h) =
        then-Reads n (k * 512) w (whole_blocks dev iobuf blank k) last_step (omega arith) c
          (whole_blocks-Reads k (k * 512) w refl
            (CanRead-less iobuf blank n (k * 512) w (omega arith) c) a)
          (λ m c'.
            last_step-Reads (n - k * 512) (after iobuf blank (k * 512) w m) c' (omega arith)
              (omega arith) (omega arith)) in
      (m, rw b e, h)
