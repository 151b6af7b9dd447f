-- ===== src/Sfs/File/Body.antt =====
-- The three parts of sfs_io of kern/fs/sfs/sfs_vnode.c, reading.
use mehrad.Base.{
  ℕ, ◌+◌, ◌-◌, ◌%◌, ◌<◌, ◌≤◌, ◌≡◌, refl, ap, ◌∙◌, subst, Bool, true, false, Code, success, ltb,
  ◌==◌, if◌then◌else◌, arith, ◌⊎◌, inl, inr, ℕ_discrete, Bool-cases,
}
use mehrad.Sfs.Io.{IoState, Io, ◌>>=◌, pure, gets}
use mehrad.Sfs.File.{sfs_partialio, first_part, aligned_part, sfs_io_body}
use mehrad.Sfs.File.Content.{CanRead, Reads, after, CanRead-less}
use mehrad.Sfs.File.Partial.{sfs_partialio-Reads}
use mehrad.Sfs.File.Read.{nothing-Reads, then-Reads, aligned_part-Reads}

module _ (dev : Bool → ℕ → ℕ → Code) (works : (w : Bool) (b : ℕ) → dev w b 0 ≡ success)
    (iobuf blank : ℕ) where
  -- The leading partial block ends at a block boundary, or where all has been read.
  first_part-Reads :
      (n : ℕ) (w : IoState)
      → CanRead iobuf blank n w
      → (w.uio).uio_resid ≡ n
      → 0 < n
      → (k : ℕ) × (k ≤ n)
        × ((k ≡ n) ⊎ (((w.uio).uio_offset + k) % 512 ≡ 0))
        × Reads iobuf blank k (first_part dev iobuf blank) w
  unfolding first_part
  first_part-Reads n w c left pos = elim (ℕ_discrete ((w.uio).uio_offset % 512) 0) [
    | yes z ↦
        let b : ((w.uio).uio_offset % 512 == 0) ≡ true = ground arith in
        (
          0,
          omega arith,
          inr (omega arith),
          nothing-Reads dev works iobuf blank n w (first_part dev iobuf blank) c (rw b refl),
        )
    | no nz ↦
        let b : ((w.uio).uio_offset % 512 == 0) ≡ false = ground arith in
        elim (Bool-cases (ltb (w.uio).uio_resid (512 - (w.uio).uio_offset % 512))) [
          | inl y ↦
              let l : (w.uio).uio_resid < 512 - (w.uio).uio_offset % 512 = ground arith in
              let (m, e, r) = sfs_partialio-Reads dev works iobuf blank n w c pos (omega arith) in
              (
                n,
                omega arith,
                inl refl,
                (
                  m,
                  rw b (
                      rw y (
                        ap (λ (x : ℕ). sfs_partialio dev iobuf blank ((w.uio).uio_offset % 512) x w)
                          left
                        ∙ e)),
                  r,
                ),
              )
          | inr y ↦
              let l : 512 - (w.uio).uio_offset % 512 ≤ (w.uio).uio_resid = ground arith in
              let k : ℕ = 512 - (w.uio).uio_offset % 512 in
              let (m, e, r) =
                sfs_partialio-Reads dev works iobuf blank k w
                  (CanRead-less iobuf blank n k w (omega arith) c) (omega arith) (omega arith) in
              (k, omega arith, inr (omega arith), (m, rw b (rw y e), r))
        ]
  ]

  rest_step : Io (Unit {0})
  rest_step = do
    left ← gets (λ w. (w.uio).uio_resid)
    (if left == 0 then pure tt else aligned_part dev iobuf blank)

  rest_step-Reads :
      (n : ℕ) (w : IoState)
      → CanRead iobuf blank n w
      → (w.uio).uio_resid ≡ n
      → (n ≡ 0) ⊎ ((w.uio).uio_offset % 512 ≡ 0)
      → Reads iobuf blank n rest_step w
  unfolding rest_step
  rest_step-Reads n w c left h = elim (ℕ_discrete (w.uio).uio_resid 0) [
    | yes z ↦
        let b : ((w.uio).uio_resid == 0) ≡ true = ground arith in
        let e : 0 ≡ n = omega arith in
        subst (λ (x : ℕ). Reads iobuf blank x rest_step w) e
          (nothing-Reads dev works iobuf blank n w rest_step c (rw b refl))
    | no nz ↦
        let b : ((w.uio).uio_resid == 0) ≡ false = ground arith in
        let a : (w.uio).uio_offset % 512 ≡ 0 = elim h [
          | inl e ↦ absurd (nz (left ∙ e))
          | inr e ↦ e
        ] in
        let (m, e, r) = aligned_part-Reads dev works iobuf blank n w c left a in (m, rw b e, r)
  ]

  pub sfs_io_body-Reads :
      (n : ℕ) (w : IoState)
      → CanRead iobuf blank n w
      → (w.uio).uio_resid ≡ n
      → 0 < n
      → Reads iobuf blank n (sfs_io_body dev iobuf blank) w
  unfolding sfs_io_body rest_step
  sfs_io_body-Reads n w c left pos =
      let (k, le, ends, first) = first_part-Reads n w c left pos in
      let r = c.resid_word in
      let f = c.in_file in
      then-Reads dev works iobuf blank n k w (first_part dev iobuf blank) rest_step le c first
        (λ m c'.
          rest_step-Reads (n - k) (after iobuf blank k w m) c' (omega arith)
            (elim ends [ inl e ↦ inl (omega arith) | inr e ↦ inr (omega arith) ]))
