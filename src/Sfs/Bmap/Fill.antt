-- ===== src/Sfs/Bmap/Fill.antt =====
-- sfs_bmap with allocation, whichever way the block is mapped.
use mehrad.Base.{
  ℕ, ◌-◌, ◌/◌, ◌%◌, ◌≤◌, ◌<◌, ◌≡◌, ◌≢◌, refl, ap, ◌∙◌, sym, subst, Bool, true, false, ret, success,
  enospc, ltb, ◌==◌, ==_iff, ==_refl, if◌then◌else◌, arith, ◌⊎◌, zero, suc, replicate, List,
  Outcome, inl, inr, ℕ_discrete, dec_lt, Code, some, get_elem?, lt→ltb, le→ltb, ==_ne,
  get_elem?-of_lt,
}
use mehrad.Bitmap.{Bitmap}
use mehrad.Sfs.State.{State, Answer, ok, err}
use mehrad.Sfs.Block.{sfs_bmap, bmap_indirect, bmap_in_block, zero_block, set_indirect}
use mehrad.Sfs.Bmap.{or_zero, block_at, IsSound}
use mehrad.Sfs.Bmap.Lookup.{bmap_indirect-read}
use mehrad.Sfs.Bmap.Mapping.{block_at-new_indirect}
use mehrad.Sfs.Bmap.Allocate.{
  granted, IsGrant, granted-IsSound, granted-block_at, InUse-new, new-ne-zero, balloc_cases,
}
use mehrad.Sfs.Bmap.Extend.{
  IsExtended, IsKept, set_indirect-IsSound, bmap_direct-extends, bmap_in_block-extends,
}

get_elem?-replicate : (n k x : ℕ) → k < n → get_elem? (replicate n x) k ≡ some x
get_elem?-replicate zero k x h = absurd (omega arith)
get_elem?-replicate (suc n) zero x h = refl
get_elem?-replicate (suc n) (suc k) x h = get_elem?-replicate n k x (omega arith)

-- Block `fb` is mapped to a new block, or the disk is full.
abbrev pub Filled : State → ℕ → Outcome (Answer ℕ × State) → Type 0
Filled s fb r =
    ((b : ℕ) × (s' : State) × (r ≡ ret (ok b, s')) × IsExtended s fb b s')
    ⊎ ((s' : State) × (r ≡ ret (err enospc, s')) × IsKept s s')

module _ (dev : Bool → ℕ → ℕ → Code) (works : (w : Bool) (b : ℕ) → dev w b 0 ≡ success) where
  -- The block that holds the indirect block, with the inode updated.
  with_indirect :
      (s : State)
      → IsSound s
      → (b : ℕ) (m : Bitmap) → IsGrant s b m
      → (s.sv_i).sfi_indirect ≡ 0
      → IsKept s (set_indirect b (granted s b m))
  with_indirect s sound b m a z =
      let s₁ : State = granted s b m in
      let ok₁ : IsSound s₁ = granted-IsSound s sound b m a.free a.marked in
      let u = InUse-new s sound b m a.free a.marked a.on_disk in
      let cleared : s₁.disk b ≡ zero_block = rw (==_refl b) in
      record {
        sound = set_indirect-IsSound s₁ ok₁ b u z cleared;
        mapped = λ k.
            block_at-new_indirect s.sv_i s₁.disk b k z cleared
            ∙ granted-block_at s sound b m a.free a.marked k;
      }

  -- An extension of what was left of `s` extends `s`.
  after_kept :
      (s : State) (sound : IsSound s) (b : ℕ) (m : Bitmap) (a : IsGrant s b m)
      (z : (s.sv_i).sfi_indirect ≡ 0) (fb c : ℕ) (s' : State)
      → IsExtended (set_indirect b (granted s b m)) fb c s'
      → IsExtended s fb c s'
  after_kept s sound b m a z fb c s' x = record {
    sound = x.sound;
    new = x.new;
    was_free = let f = x.was_free in let mk = (a.marked).bit c in ground arith;
    mapped = λ k.
        x.mapped k
        ∙ ap (λ (y : ℕ). if k == fb then c else y) ((with_indirect s sound b m a z).mapped k);
    zeroed = x.zeroed;
  }

  in_new :
      (s : State) (sound : IsSound s) (fb : ℕ)
      → 15 ≤ fb
      → fb < 143
      → (s.sv_i).sfi_indirect ≡ 0
      → (b : ℕ) (m : Bitmap) → IsGrant s b m
      → Filled s fb (bmap_in_block dev b zero_block (fb - 15) true (set_indirect b (granted s b m)))
  in_new s sound fb lo hi z b m a =
      let s₂ : State = set_indirect b (granted s b m) in
      let kept = with_indirect s sound b m a z in
      let cleared : s₂.disk b ≡ zero_block = rw (==_refl b) in
      let hole : get_elem? (s₂.disk b) (fb - 15) ≡ some 0 =
        ap (λ (ws : List ℕ). get_elem? ws (fb - 15)) cleared
        ∙ get_elem?-replicate 128 (fb - 15) 0 (omega arith) in
      let nz = new-ne-zero s sound b m a.free a.marked in
      let same = ap (λ (ws : List ℕ). bmap_in_block dev b ws (fb - 15) true s₂) cleared in
      elim (bmap_in_block-extends dev works fb s₂ kept.sound lo hi nz hole) [
        | inl (c, s', e, x) ↦ inl (c, s', sym same ∙ e, after_kept s sound b m a z fb c s' x)
        | inr e ↦ inr (s₂, sym same ∙ e, kept)
      ]

  weaken :
      (s : State)
      → IsSound s
      → (fb : ℕ) (r : Outcome (Answer ℕ × State))
      → ((b : ℕ) × (s' : State) × (r ≡ ret (ok b, s')) × IsExtended s fb b s')
        ⊎ (r ≡ ret (err enospc, s))
      → Filled s fb r
  weaken s sound fb r (inl x) = inl x
  weaken s sound fb r (inr e) = inr (s, e, record { sound = sound; mapped = λ k. refl })

  bmap_indirect-new :
      (fb : ℕ) (s : State)
      → IsSound s
      → 15 ≤ fb
      → fb < 143
      → (s.sv_i).sfi_indirect ≡ 0
      → Filled s fb (bmap_indirect dev (fb - 15) true s)
  unfolding bmap_indirect
  bmap_indirect-new fb s sound lo hi z =
      let t : ltb 0 ((fb - 15) / 128) ≡ false = ground arith in
      let o : (fb - 15) % 128 ≡ fb - 15 = omega arith in
      let zz : ((s.sv_i).sfi_indirect == 0) ≡ true = (==_iff (s.sv_i).sfi_indirect 0).1 z in
      elim (balloc_cases dev works s sound) [
        | inr e ↦ inr (s, rw t (rw zz (rw e)), record { sound = sound; mapped = λ k. refl })
        | inl (b, m, e, a) ↦
            subst (Filled s fb) (sym (rw t (rw zz (rw e (rw o refl)))))
              (in_new s sound fb lo hi z b m a)
      ]

  -- A block that the file has, through its indirect block or not.
  hole_entry :
      (fb : ℕ) (s : State)
      → IsSound s
      → 15 ≤ fb
      → fb < 143
      → (s.sv_i).sfi_indirect ≢ 0
      → block_at s.sv_i s.disk fb ≡ 0
      → get_elem? (s.disk (s.sv_i).sfi_indirect) (fb - 15) ≡ some 0
  unfolding block_at
  hole_entry fb s sound lo hi nz h =
      let (x, g) =
        get_elem?-of_lt (s.disk (s.sv_i).sfi_indirect) (fb - 15)
          (omega (arith, sound.indirect_size nz)) in
      let e : x ≡ 0 =
        sym (rw (le→ltb fb 15 lo) (rw (==_ne (s.sv_i).sfi_indirect 0 nz) (ap or_zero g))) ∙ h in
      g ∙ ap some e

  hole_direct :
      (fb : ℕ) (s : State)
      → IsSound s
      → fb < 15
      → block_at s.sv_i s.disk fb ≡ 0
      → get_elem? (s.sv_i).sfi_direct fb ≡ some 0
  unfolding block_at
  hole_direct fb s sound near h =
      let (x, g) = get_elem?-of_lt (s.sv_i).sfi_direct fb (omega (arith, sound.directs)) in
      let e : x ≡ 0 = sym (rw (lt→ltb fb 15 near) (ap or_zero g)) ∙ h in g ∙ ap some e

  -- On a device whose first tries succeed and a sound file system, sfs_bmap with allocation, for a
  -- block below 143 that the file does not have, never panics: it maps the block to one that was
  -- free and is not 0, which now holds zeros, and leaves every other block of the file where it was
  -- and the file system sound; or it reports ENOSPC, with every block of the file where it was and
  -- the file system sound.
  pub sfs_bmap_fill :
      (fb : ℕ) (s : State)
      → IsSound s
      → fb < 143
      → block_at s.sv_i s.disk fb ≡ 0
      → Filled s fb (sfs_bmap dev fb true s)
  unfolding sfs_bmap
  sfs_bmap_fill fb s sound h hole = elim (dec_lt fb 15) [
    | yes near ↦ rw (lt→ltb fb 15 near) (
        weaken s sound fb _
          (bmap_direct-extends dev works fb s sound near (hole_direct fb s sound near hole)))
    | no far ↦ rw (le→ltb fb 15 (omega arith)) (elim (ℕ_discrete (s.sv_i).sfi_indirect 0) [
      | yes z ↦ bmap_indirect-new fb s sound (omega arith) h z
      | no nz ↦
          let g = hole_entry fb s sound (omega arith) h nz hole in
          let r = bmap_indirect-read dev works (fb - 15) true s (omega arith) nz in
          subst (Filled s fb) (sym r)
            (weaken s sound fb _ (bmap_in_block-extends dev works fb s sound (omega arith) h nz g))
    ])
  ]
