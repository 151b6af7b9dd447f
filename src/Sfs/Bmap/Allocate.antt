-- ===== src/Sfs/Bmap/Allocate.antt =====
-- sfs_balloc, and sfs_bmap when it allocates.
use mehrad.Base.{
  ℕ, ◌<◌, ◌≡◌, ◌≢◌, ◌∙◌, sym, subst, Bool, true, false, ret, success, enospc, leb, ◌==◌, ==_ne,
  arith, ◌⊎◌, inl, inr, ℕ_discrete, dec_lt, Code, Option,
}
use mehrad.Bitmap.{Bitmap, bitmap_alloc}
use mehrad.Bitmap.Usage.{used, Marked}
use mehrad.Bitmap.Alloc.{Allocates, bitmap_alloc_lem}
use mehrad.Sfs.State.{State, ok, err}
use mehrad.Sfs.Block.{sfs_balloc, sfs_clearblock, write_disk, zero_block}
use mehrad.Sfs.Bmap.{block_at, InUse, IsSound}
use mehrad.Sfs.Bmap.Lookup.{wblock-ok}
use mehrad.Sfs.Bmap.Mapping.{block_at-elsewhere}

-- The state with block `b` cleared and the free map `m`.
abbrev pub granted : State → ℕ → Bitmap → State
granted s b m = record s { freemap = m; freemapdirty = true; disk = write_disk s.disk b zero_block }

module _ (s : State) (sound : IsSound s) (b : ℕ) (m : Bitmap)
    (marked : Marked s.freemap b true m) where
  InUse-granted : (k : ℕ) → InUse s k → InUse (granted s b m) k
  InUse-granted k (lt, u) = (lt, ground (arith, marked.bit k))

module _ (s : State) (sound : IsSound s) (b : ℕ) (m : Bitmap) (free : used s.freemap.v b ≡ false)
    (marked : Marked s.freemap b true m) where
  pub InUse-new : b < s.sp_nblocks → InUse (granted s b m) b
  InUse-new h = (h, ground (arith, marked.bit b))

  pub new-ne-zero : b ≢ 0
  new-ne-zero e =
      let u = subst (λ (k : ℕ). used s.freemap.v k ≡ false) e free in let v = sound.super in cc

  pub new-ne-indirect : b ≢ (s.sv_i).sfi_indirect
  new-ne-indirect e = elim (ℕ_discrete (s.sv_i).sfi_indirect 0) [
    | yes z ↦ new-ne-zero (e ∙ z)
    | no n ↦
        let u = subst (λ (k : ℕ). used s.freemap.v k ≡ false) e free in
        let v = (sound.indirect_in_use n).1 in cc
  ]

  pub granted-block_at :
      (k : ℕ) → block_at s.sv_i (write_disk s.disk b zero_block) k ≡ block_at s.sv_i s.disk k
  granted-block_at k = block_at-elsewhere s.sv_i s.disk b zero_block k new-ne-indirect

  pub granted-IsSound : IsSound (granted s b m)
  granted-IsSound = record {
    map_valid = marked.valid;
    covers = omega (arith, sound.covers, marked.same_size);
    beyond = λ k h. ground (arith, marked.bit k, sound.beyond k h);
    super = ground (arith, marked.bit 0, sound.super);
    directs = sound.directs;
    indirect_in_use = λ n. InUse-granted s sound b m marked _ (sound.indirect_in_use n);
    indirect_size = λ n.
        let t : ((s.sv_i).sfi_indirect == b) ≡ false =
          ==_ne (s.sv_i).sfi_indirect b (λ e. new-ne-indirect (sym e)) in
        rw t (sound.indirect_size n);
    blocks_in_use = λ k n.
        let e = granted-block_at k in
        subst (λ (x : ℕ). x ≢ 0 → InUse (granted s b m) x) (sym e)
          (λ n'. InUse-granted s sound b m marked _ (sound.blocks_in_use k n')) n;
  }

-- What sfs_balloc finds: a block of the disk that was free, marked in the new map.
pub record IsGrant (s : State) (b : ℕ) (m : Bitmap) : Type 0 where
  pub on_disk : b < s.sp_nblocks
  pub free : used s.freemap.v b ≡ false
  pub marked : Marked s.freemap b true m

module _ (dev : Bool → ℕ → ℕ → Code) (works : (w : Bool) (b : ℕ) → dev w b 0 ≡ success) (s : State)
    (sound : IsSound s) where
  balloc_of :
      (r : Option ℕ × Bitmap)
      → bitmap_alloc s.freemap ≡ ret r
      → Allocates s.freemap r
      → ((b : ℕ) × (m : Bitmap) × (sfs_balloc dev s ≡ ret (ok b, granted s b m)) × IsGrant s b m)
        ⊎ (sfs_balloc dev s ≡ ret (err enospc, s))
  unfolding sfs_balloc sfs_clearblock
  balloc_of _ e (Allocates.full h) = inr (rw (e, sfs_balloc))
  balloc_of _ e (Allocates.allocated b m lt free below marked) = elim (dec_lt b s.sp_nblocks) [
    | no far ↦ let u = sound.beyond b (omega arith) in absurd (let f = free in cc)
    | yes near ↦
        let t : leb s.sp_nblocks b ≡ false = ground arith in
        let s₁ : State = record s { freemap = m; freemapdirty = true } in
        inl (
          b,
          m,
          rw (e, sfs_balloc) (rw t (rw (wblock-ok dev works zero_block b s₁))),
          record { on_disk = near; free = free; marked = marked },
        )
  ]

  pub balloc_cases :
      ((b : ℕ) × (m : Bitmap) × (sfs_balloc dev s ≡ ret (ok b, granted s b m)) × IsGrant s b m)
      ⊎ (sfs_balloc dev s ≡ ret (err enospc, s))
  balloc_cases = let (r, e, a) = bitmap_alloc_lem s.freemap sound.map_valid in balloc_of r e a
