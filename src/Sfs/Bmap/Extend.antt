-- ===== src/Sfs/Bmap/Extend.antt =====
-- sfs_bmap with allocation, for a block that the file does not have: which states it leaves.
use mehrad.Base.{
  ℕ, ◌-◌, ◌≤◌, ◌<◌, ◌≡◌, ◌≢◌, ap, ◌∙◌, sym, subst, Bool, true, false, ret, success, enospc, ◌==◌,
  ==_ne, ==_refl, if◌then◌else◌, List, set, length, length-set, length-replicate, ◌⊎◌, inl, inr,
  Code, some, get_elem?,
}
use mehrad.Bitmap.Usage.{used}
use mehrad.Sfs.State.{State, ok, err}
use mehrad.Sfs.Block.{bmap_direct, bmap_in_block, write_disk, zero_block, set_direct, set_indirect}
use mehrad.Sfs.Bmap.{block_at, InUse, IsSound}
use mehrad.Sfs.Bmap.Lookup.{wblock-ok, hand_back-ok}
use mehrad.Sfs.Bmap.Mapping.{block_at-direct, block_at-new_indirect, block_at-entry}
use mehrad.Sfs.Bmap.Allocate.{
  granted, granted-IsSound, granted-block_at, InUse-new, new-ne-zero, new-ne-indirect, balloc_cases,
}

-- A sound file system in which `b` holds block `fb` of the file, and the rest is where it was.
pub record IsExtended (s : State) (fb b : ℕ) (s' : State) : Type 0 where
  pub sound : IsSound s'
  pub new : b ≢ 0
  pub was_free : used s.freemap.v b ≡ false
  pub mapped :
      (k : ℕ) → block_at s'.sv_i s'.disk k ≡ (if k == fb then b else block_at s.sv_i s.disk k)
  pub zeroed : s'.disk b ≡ zero_block

-- A sound file system in which every block of the file is where it was.
pub record IsKept (s s' : State) : Type 0 where
  pub sound : IsSound s'
  pub mapped : (k : ℕ) → block_at s'.sv_i s'.disk k ≡ block_at s.sv_i s.disk k

module _ (s : State) (sound : IsSound s) (fb b : ℕ) (in_use : InUse s b) where
  -- A new direct block.
  pub set_direct-mapped :
      fb < 15
      → (k : ℕ)
      → block_at (set_direct fb b s).sv_i s.disk k
        ≡ (if k == fb then b else block_at s.sv_i s.disk k)
  set_direct-mapped h k = block_at-direct s.sv_i s.disk fb b k sound.directs h

  pub set_direct-IsSound : fb < 15 → IsSound (set_direct fb b s)
  set_direct-IsSound h = record {
    map_valid = sound.map_valid;
    covers = sound.covers;
    beyond = sound.beyond;
    super = sound.super;
    directs = length-set (s.sv_i).sfi_direct fb b ∙ sound.directs;
    indirect_in_use = sound.indirect_in_use;
    indirect_size = sound.indirect_size;
    blocks_in_use = λ k n. now (k == fb) k (set_direct-mapped h k) n;
  }
    where
      now :
          (t : Bool) (k : ℕ) {x : ℕ}
          → x ≡ (if t then b else block_at s.sv_i s.disk k)
          → x ≢ 0
          → InUse s x
      now true k e n = subst (InUse s) (sym e) in_use
      now false k e n = subst (InUse s) (sym e) (sound.blocks_in_use k (λ z. n (e ∙ z)))

  -- A new entry of the indirect block.
  pub entry-IsSound :
      (s.sv_i).sfi_indirect ≢ 0
      → 15 ≤ fb
      → fb < 143
      → IsSound (record s {
        disk =
            write_disk s.disk
              (s.sv_i).sfi_indirect
              (set (s.disk (s.sv_i).sfi_indirect) (fb - 15) b);
      })
  entry-IsSound nz lo hi = record {
    map_valid = sound.map_valid;
    covers = sound.covers;
    beyond = sound.beyond;
    super = sound.super;
    directs = sound.directs;
    indirect_in_use = sound.indirect_in_use;
    indirect_size = λ n.
        rw (==_refl (s.sv_i).sfi_indirect)
          (length-set (s.disk (s.sv_i).sfi_indirect) (fb - 15) b ∙ sound.indirect_size nz);
    blocks_in_use = λ k n.
        now (k == fb) k (block_at-entry s.sv_i s.disk fb b k nz (sound.indirect_size nz) lo hi) n;
  }
    where
      now :
          (t : Bool) (k : ℕ) {x : ℕ}
          → x ≡ (if t then b else block_at s.sv_i s.disk k)
          → x ≢ 0
          → InUse s x
      now true k e n = subst (InUse s) (sym e) in_use
      now false k e n = subst (InUse s) (sym e) (sound.blocks_in_use k (λ z. n (e ∙ z)))

-- A new indirect block, all zeros.
module _ (s : State) (sound : IsSound s) (b : ℕ) (in_use : InUse s b)
    (none_yet : (s.sv_i).sfi_indirect ≡ 0) (z : s.disk b ≡ zero_block) where
  pub set_indirect-IsSound : IsSound (set_indirect b s)
  set_indirect-IsSound = record {
    map_valid = sound.map_valid;
    covers = sound.covers;
    beyond = sound.beyond;
    super = sound.super;
    directs = sound.directs;
    indirect_in_use = λ n. in_use;
    indirect_size = λ n. ap length z ∙ length-replicate {A = ℕ} 128 0;
    blocks_in_use = λ k n.
        let e = block_at-new_indirect s.sv_i s.disk b k none_yet z in
        subst (InUse s) (sym e) (sound.blocks_in_use k (λ q. n (e ∙ q)));
  }

module _ (dev : Bool → ℕ → ℕ → Code) (works : (w : Bool) (b : ℕ) → dev w b 0 ≡ success) where
  pub bmap_direct-extends :
      (fb : ℕ) (s : State)
      → IsSound s
      → fb < 15
      → get_elem? (s.sv_i).sfi_direct fb ≡ some 0
      → ((b : ℕ) × (s' : State) × (bmap_direct dev fb true s ≡ ret (ok b, s'))
          × IsExtended s fb b s')
        ⊎ (bmap_direct dev fb true s ≡ ret (err enospc, s))
  unfolding bmap_direct
  bmap_direct-extends fb s sound h g = elim (balloc_cases dev works s sound) [
    | inr e ↦ inr (rw g (rw e))
    | inl (b, m, e, a) ↦
        let s₁ : State = granted s b m in
        let ok₁ : IsSound s₁ = granted-IsSound s sound b m a.free a.marked in
        let u = InUse-new s sound b m a.free a.marked a.on_disk in
        let ok₂ = set_direct-IsSound s₁ ok₁ fb b u h in
        inl (
          b,
          set_direct fb b s₁,
          rw g (rw e (hand_back-ok dev works b (set_direct fb b s₁) ok₂ (λ n. u))),
          record {
            sound = ok₂;
            new = new-ne-zero s sound b m a.free a.marked;
            was_free = a.free;
            mapped = λ k.
                set_direct-mapped s₁ ok₁ fb b u h k
                ∙ ap (λ (x : ℕ). if k == fb then b else x)
                    (granted-block_at s sound b m a.free a.marked k);
            zeroed = rw (==_refl b);
          },
        )
  ]

  pub bmap_in_block-extends :
      (fb : ℕ) (s : State)
      → IsSound s
      → 15 ≤ fb
      → fb < 143
      → (s.sv_i).sfi_indirect ≢ 0
      → get_elem? (s.disk (s.sv_i).sfi_indirect) (fb - 15) ≡ some 0
      → ((b : ℕ) × (s' : State) × (bmap_in_block dev
              (s.sv_i).sfi_indirect
              (s.disk (s.sv_i).sfi_indirect)
              (fb - 15)
              true
              s
            ≡ ret (ok b, s'))
          × IsExtended s fb b s')
        ⊎ (bmap_in_block dev (s.sv_i).sfi_indirect (s.disk (s.sv_i).sfi_indirect) (fb - 15) true s
            ≡ ret (err enospc, s))
  unfolding bmap_in_block
  bmap_in_block-extends fb s sound lo hi nz g = elim (balloc_cases dev works s sound) [
    | inr e ↦ inr (rw g (rw e))
    | inl (b, m, e, a) ↦
        let s₁ : State = granted s b m in
        let id : ℕ = (s.sv_i).sfi_indirect in
        let ok₁ : IsSound s₁ = granted-IsSound s sound b m a.free a.marked in
        let u = InUse-new s sound b m a.free a.marked a.on_disk in
        let ne : b ≢ id = new-ne-indirect s sound b m a.free a.marked in
        let same : s₁.disk id ≡ s.disk id = rw (==_ne id b (λ q. ne (sym q))) in
        let words : List ℕ = set (s.disk id) (fb - 15) b in
        let s₂ : State = record s₁ { disk = write_disk s₁.disk id words } in
        let ok₂ : IsSound s₂ =
          subst
            (λ (ws : List ℕ).
              IsSound (record s₁ { disk = write_disk s₁.disk id (set ws (fb - 15) b) }))
            same (entry-IsSound s₁ ok₁ fb b u nz lo hi) in
        inl (
          b,
          s₂,
          rw g (
              rw e
                (rw (wblock-ok dev works words id s₁) (hand_back-ok dev works b s₂ ok₂ (λ n. u)))),
          record {
            sound = ok₂;
            new = new-ne-zero s sound b m a.free a.marked;
            was_free = a.free;
            mapped = λ k.
                ap (λ (ws : List ℕ). block_at s.sv_i (write_disk s₁.disk id (set ws (fb - 15) b)) k)
                  (sym same)
                ∙ block_at-entry s.sv_i s₁.disk fb b k nz (ok₁.indirect_size nz) lo hi
                ∙ ap (λ (x : ℕ). if k == fb then b else x)
                    (granted-block_at s sound b m a.free a.marked k);
            zeroed = rw (==_ne b id ne) (rw (==_refl b));
          },
        )
  ]
