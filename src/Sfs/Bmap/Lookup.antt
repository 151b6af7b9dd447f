-- ===== src/Sfs/Bmap/Lookup.antt =====
-- sfs_bmap without allocation.
use mehrad.Base.{
  ℕ, ◌-◌, ◌/◌, ◌%◌, ◌≤◌, ◌<◌, ◌≡◌, ◌≢◌, refl, ap, ◌∙◌, sym, subst, Bool, true, false, ◌&&◌, List,
  some, ret, Code, success, ltb, leb, ◌==◌, ==_iff, ==_ne, lt→ltb, le→ltb, if◌then◌else◌, get_elem?,
  get_elem?-of_lt, arith, Bool-cases, inl, inr, ◌⊎◌, dec_lt, ℕ_discrete,
}
use mehrad.Bitmap.Usage.{bitmap_isset_lem}
use mehrad.Sfs.Device.{sfs_rwblock-success}
use mehrad.Sfs.State.{Inode, State, ok, pure, crash, >>=-ok}
use mehrad.Sfs.Block.{
  sfs_rblock, sfs_wblock, sfs_bused, hand_back, bmap_direct, bmap_in_block, bmap_indirect, sfs_bmap,
  write_disk,
}
use mehrad.Sfs.Bmap.{block_at, InUse, IsSound}

module _ (dev : Bool → ℕ → ℕ → Code) (works : (w : Bool) (b : ℕ) → dev w b 0 ≡ success) where
  pub rblock-ok : (b : ℕ) (s : State) → sfs_rblock dev b s ≡ ret (ok (s.disk b), s)
  unfolding sfs_rblock
  rblock-ok b s = rw (sfs_rwblock-success (dev false b) (works false b), sfs_rblock)

  pub wblock-ok :
      (ws : List ℕ) (b : ℕ) (s : State)
      → sfs_wblock dev ws b s ≡ ret (ok tt, record s { disk = write_disk s.disk b ws })
  unfolding sfs_wblock
  wblock-ok ws b s = rw (sfs_rwblock-success (dev true b) (works true b), sfs_wblock)

  bused-ok : (b : ℕ) (s : State) → IsSound s → InUse s b → sfs_bused dev b s ≡ ret (ok true, s)
  unfolding sfs_bused
  bused-ok b s sound (lt, u) =
      let t : leb s.sp_nblocks b ≡ false = ground arith in
      let i = bitmap_isset_lem s.freemap b sound.map_valid (omega (arith, sound.covers)) in
      rw t (rw i (rw u))

  pub hand_back-ok :
      (b : ℕ) (s : State) → IsSound s → (b ≢ 0 → InUse s b) → hand_back dev b s ≡ ret (ok b, s)
  unfolding hand_back
  hand_back-ok b s sound h = elim (ℕ_discrete b 0) [
    | yes z ↦ rw ((==_iff b 0).1 z)
    | no nz ↦ rw (==_ne b 0 nz) (
        >>=-ok (sfs_bused dev b) (λ u. if u then pure b else crash) (bused-ok b s sound (h nz))
          refl)
  ]

  -- A block that the file has needs no allocation.
  direct_at :
      (fb : ℕ) (i : Inode) (disk : ℕ → List ℕ) (x : ℕ)
      → fb < 15
      → get_elem? i.sfi_direct fb ≡ some x
      → block_at i disk fb ≡ x
  unfolding block_at
  direct_at fb i disk x h g = rw (lt→ltb fb 15 h) (rw g)

  -- No allocation is called for.
  settled : (x : ℕ) (doalloc : Bool) → (x ≢ 0) ⊎ (doalloc ≡ false) → (x == 0 && doalloc) ≡ false
  settled x doalloc (inl h) = rw (==_ne x 0 h)
  settled x doalloc (inr h) = rw h (elim (Bool-cases (x == 0)) [ inl e ↦ rw e | inr e ↦ rw e ])

  pub bmap_direct-mapped :
      (fb x : ℕ) (doalloc : Bool) (s : State)
      → IsSound s
      → get_elem? (s.sv_i).sfi_direct fb ≡ some x
      → (x ≢ 0) ⊎ (doalloc ≡ false)
      → (x ≢ 0 → InUse s x)
      → bmap_direct dev fb doalloc s ≡ ret (ok x, s)
  unfolding bmap_direct
  bmap_direct-mapped fb x doalloc s sound g k u =
      rw g (rw (settled x doalloc k) (hand_back-ok x s sound u))

  pub bmap_in_block-mapped :
      (id x : ℕ) (buf : List ℕ) (off : ℕ) (doalloc : Bool) (s : State)
      → IsSound s
      → get_elem? buf off ≡ some x
      → (x ≢ 0) ⊎ (doalloc ≡ false)
      → (x ≢ 0 → InUse s x)
      → bmap_in_block dev id buf off doalloc s ≡ ret (ok x, s)
  unfolding bmap_in_block
  bmap_in_block-mapped id x buf off doalloc s sound g k u =
      rw g (rw (settled x doalloc k) (hand_back-ok x s sound u))

  indirect_at :
      (fb : ℕ) (i : Inode) (disk : ℕ → List ℕ) (x : ℕ)
      → 15 ≤ fb
      → i.sfi_indirect ≢ 0
      → get_elem? (disk i.sfi_indirect) (fb - 15) ≡ some x
      → block_at i disk fb ≡ x
  unfolding block_at
  indirect_at fb i disk x h n g = rw (le→ltb fb 15 h) (rw (==_ne i.sfi_indirect 0 n) (rw g))

  hole_at :
      (fb : ℕ) (i : Inode) (disk : ℕ → List ℕ)
      → 15 ≤ fb
      → i.sfi_indirect ≡ 0
      → block_at i disk fb ≡ 0
  unfolding block_at
  hole_at fb i disk h n = rw (le→ltb fb 15 h) (rw ((==_iff i.sfi_indirect 0).1 n))

  -- With the indirect block at hand the rest of the lookup is in it.
  pub bmap_indirect-read :
      (fb : ℕ) (doalloc : Bool) (s : State)
      → fb < 128
      → (s.sv_i).sfi_indirect ≢ 0
      → bmap_indirect dev fb doalloc s
        ≡ bmap_in_block dev (s.sv_i).sfi_indirect (s.disk (s.sv_i).sfi_indirect) fb doalloc s
  unfolding bmap_indirect
  bmap_indirect-read fb doalloc s h n =
      let i : ℕ = (s.sv_i).sfi_indirect in
      let t : ltb 0 (fb / 128) ≡ false = ground arith in
      let o : fb % 128 ≡ fb = omega arith in
      rw t (
        rw (==_ne (s.sv_i).sfi_indirect 0 n) (
          >>=-ok (sfs_rblock dev (s.sv_i).sfi_indirect)
            (λ buf. bmap_in_block dev i buf (fb % 128) doalloc) (rblock-ok (s.sv_i).sfi_indirect s)
            refl
          ∙ ap (λ (k : ℕ). bmap_in_block dev i (s.disk i) k doalloc s) o))

  bmap_indirect-none :
      (fb : ℕ) (s : State)
      → fb < 128
      → (s.sv_i).sfi_indirect ≡ 0
      → bmap_indirect dev fb false s ≡ ret (ok 0, s)
  unfolding bmap_indirect
  bmap_indirect-none fb s h n =
      let t : ltb 0 (fb / 128) ≡ false = ground arith in
      rw t (rw ((==_iff (s.sv_i).sfi_indirect 0).1 n))

  -- On a device whose first tries succeed and a sound file system, sfs_bmap for a block below 143
  -- hands back the block of the disk that holds it, and changes nothing, if the file has the block
  -- or no allocation is asked for; for a hole that is 0.
  pub sfs_bmap_lookup :
      (fb : ℕ) (doalloc : Bool) (s : State)
      → IsSound s
      → fb < 143
      → (block_at s.sv_i s.disk fb ≢ 0) ⊎ (doalloc ≡ false)
      → sfs_bmap dev fb doalloc s ≡ ret (ok (block_at s.sv_i s.disk fb), s)
  unfolding sfs_bmap
  sfs_bmap_lookup fb doalloc s sound h k = elim (dec_lt fb 15) [
    | yes near ↦
        let (x, g) = get_elem?-of_lt (s.sv_i).sfi_direct fb (omega (arith, sound.directs)) in
        near_case x near g
    | no far ↦ elim (ℕ_discrete (s.sv_i).sfi_indirect 0) [
      | yes z ↦ hole_case z (omega arith) k
      | no nz ↦
          let (x, g) =
            get_elem?-of_lt (s.disk (s.sv_i).sfi_indirect) (fb - 15)
              (omega (arith, sound.indirect_size nz)) in
          far_case x (omega arith) nz g
    ]
  ]
    where
      near_case :
          (x : ℕ)
          → fb < 15
          → get_elem? (s.sv_i).sfi_direct fb ≡ some x
          → (if ltb fb 15 then bmap_direct dev fb doalloc else bmap_indirect dev (fb - 15) doalloc)
              s
            ≡ ret (ok (block_at s.sv_i s.disk fb), s)
      near_case x near g =
          let e = direct_at fb s.sv_i s.disk x near g in
          let k' : (x ≢ 0) ⊎ (doalloc ≡ false) =
            subst (λ (b : ℕ). (b ≢ 0) ⊎ (doalloc ≡ false)) e k in
          let u : x ≢ 0 → InUse s x =
            subst (λ (b : ℕ). b ≢ 0 → InUse s b) e (sound.blocks_in_use fb) in
          rw (lt→ltb fb 15 near)
            (bmap_direct-mapped fb x doalloc s sound g k' u ∙ ap (λ (b : ℕ). ret (ok b, s)) (sym e))

      far_case :
          (x : ℕ)
          → 15 ≤ fb
          → (s.sv_i).sfi_indirect ≢ 0
          → get_elem? (s.disk (s.sv_i).sfi_indirect) (fb - 15) ≡ some x
          → (if ltb fb 15 then bmap_direct dev fb doalloc else bmap_indirect dev (fb - 15) doalloc)
              s
            ≡ ret (ok (block_at s.sv_i s.disk fb), s)
      far_case x far nz g =
          let e = indirect_at fb s.sv_i s.disk x far nz g in
          let k' : (x ≢ 0) ⊎ (doalloc ≡ false) =
            subst (λ (b : ℕ). (b ≢ 0) ⊎ (doalloc ≡ false)) e k in
          let u : x ≢ 0 → InUse s x =
            subst (λ (b : ℕ). b ≢ 0 → InUse s b) e (sound.blocks_in_use fb) in
          rw (le→ltb fb 15 far) (
            bmap_indirect-read (fb - 15) doalloc s (omega arith) nz
            ∙ bmap_in_block-mapped (s.sv_i).sfi_indirect x (s.disk (s.sv_i).sfi_indirect) (fb - 15)
                doalloc s sound g k' u
            ∙ ap (λ (b : ℕ). ret (ok b, s)) (sym e))

      hole_case :
          (s.sv_i).sfi_indirect ≡ 0
          → 15 ≤ fb
          → (block_at s.sv_i s.disk fb ≢ 0) ⊎ (doalloc ≡ false)
          → (if ltb fb 15 then bmap_direct dev fb doalloc else bmap_indirect dev (fb - 15) doalloc)
              s
            ≡ ret (ok (block_at s.sv_i s.disk fb), s)
      hole_case z far (inl n) = absurd (n (hole_at fb s.sv_i s.disk far z))
      hole_case z far (inr d) = rw (le→ltb fb 15 far) (
          rw d (
            bmap_indirect-none (fb - 15) s (omega arith) z
            ∙ ap (λ (b : ℕ). ret (ok b, s)) (sym (hole_at fb s.sv_i s.disk far z))))
