-- ===== src/Sfs/Tests.antt =====
-- Runs of sfs_rwblock and sfs_bmap, and the theorems at concrete inputs.
use mehrad.Base.{
  ℕ, zero, suc, ◌/◌, ◌≤◌, ◌<◌, ◌≡◌, ◌≢◌, refl, ap, sym, subst, Bool, true, false, le→ltb, lt→ltb,
  [], ◌∷◌, ret, success, eio, einval, Code, arith, ◌⊎◌, ◌%◌, some, inl, replicate, dec_lt,
  get_elem?-ge, get_elem?,
}
use mehrad.Bitmap.{Bitmap, test_bit}
use mehrad.Bitmap.Usage.{used, IsValid, used_in}
use mehrad.Sfs.Device.{sfs_rwblock, rw_tries, FirstAnswer, sfs_rwblock_lem}
use mehrad.Sfs.State.{State, ok}
use mehrad.Sfs.Block.{sfs_bmap, zero_block}
use mehrad.Sfs.Bmap.{block_at, IsSound, InUse}
use mehrad.Sfs.Bmap.Mapping.{or_zero-replicate}
use mehrad.Sfs.Bmap.Lookup.{sfs_bmap_lookup}
use mehrad.Sfs.Bmap.Fill.{Filled, sfs_bmap_fill}

-- A device that fails twice.
abbrev flaky : ℕ → Code
flaky zero = eio
flaky (suc zero) = eio
flaky (suc (suc n)) = success

flaky_works : sfs_rwblock flaky ≡ ret success
unfolding sfs_rwblock rw_tries
flaky_works = refl

flaky-ne-einval : (k : ℕ) → flaky k ≢ einval
flaky-ne-einval zero = λ e. cc
flaky-ne-einval (suc zero) = λ e. cc
flaky-ne-einval (suc (suc n)) = λ e. cc

sfs_rwblock_lem_example :
    ((t : ℕ) × (c : Code) × (sfs_rwblock flaky ≡ ret c) × (t ≤ 10) × FirstAnswer flaky 0 t c)
    ⊎ ((sfs_rwblock flaky ≡ ret eio) × ((k : ℕ) → k ≤ 10 → flaky k ≡ eio))
sfs_rwblock_lem_example = sfs_rwblock_lem flaky flaky-ne-einval

-- A disk of sixteen blocks, of which the first three are in use, and a file of one block.
abbrev pub steady : Bool → ℕ → ℕ → Code
steady write block try = success

abbrev pub small_map : Bitmap
small_map = record { nbits = 16; v = 7 ∷ 0 ∷ [] }

abbrev pub one_block : State
one_block = record {
  sp_nblocks = 16;
  freemap = small_map;
  freemapdirty = false;
  disk = λ b. zero_block;
  sv_i = record {
    sfi_size = 512;
    sfi_type = 1;
    sfi_linkcount = 1;
    sfi_direct = 2 ∷ replicate 14 0;
    sfi_indirect = 0;
    sfi_waste = [];
  };
  sv_ino = 1;
  sv_dirty = false;
}

past_end : (i : ℕ) → 16 ≤ i → used small_map.v i ≡ true
unfolding used
past_end i h = ap (λ o. used_in o (i % 8)) (get_elem?-ge small_map.v (i / 8) (omega arith))

small_map_bytes : (ix w : ℕ) → get_elem? small_map.v ix ≡ some w → w < 256
small_map_bytes zero w e = ground arith
small_map_bytes (suc zero) w e = ground arith
small_map_bytes (suc (suc ix)) w e = cc

small_map-IsValid : IsValid small_map
small_map-IsValid = record {
  small = omega arith;
  sized = refl;
  bytes = small_map_bytes;
  overhang = past_end;
}

first_block : block_at one_block.sv_i one_block.disk 0 ≡ 2
unfolding block_at
first_block = refl

no_more_blocks : (k : ℕ) → block_at one_block.sv_i one_block.disk (suc k) ≡ 0
unfolding block_at
no_more_blocks k = elim (dec_lt (suc k) 15) [
  | yes lt ↦ rw (lt→ltb (suc k) 15 lt) (or_zero-replicate 14 k)
  | no ge ↦ rw (le→ltb (suc k) 15 (omega arith)) refl
]

two-InUse : InUse one_block 2
unfolding used test_bit
two-InUse = (omega arith, refl)

blocks-InUse :
    (fb : ℕ)
    → block_at one_block.sv_i one_block.disk fb ≢ 0
    → InUse one_block (block_at one_block.sv_i one_block.disk fb)
blocks-InUse zero n = subst (InUse one_block) (sym first_block) two-InUse
blocks-InUse (suc k) n = absurd (n (no_more_blocks k))

zero_used : used small_map.v 0 ≡ true
unfolding used test_bit
zero_used = refl

pub one_block-IsSound : IsSound one_block
one_block-IsSound = record {
  map_valid = small_map-IsValid;
  covers = omega arith;
  beyond = past_end;
  super = zero_used;
  directs = refl;
  indirect_in_use = λ n. absurd (n refl);
  indirect_size = λ n. absurd (n refl);
  blocks_in_use = blocks-InUse;
}

sfs_bmap_lookup_example :
    sfs_bmap steady 0 true one_block
    ≡ ret (ok (block_at one_block.sv_i one_block.disk 0), one_block)
sfs_bmap_lookup_example =
    sfs_bmap_lookup steady (λ w b. refl) 0 true one_block one_block-IsSound (omega arith)
      (inl (subst (λ (x : ℕ). x ≢ 0) (sym first_block) (omega arith)))

sfs_bmap_fill_example : Filled one_block 20 (sfs_bmap steady 20 true one_block)
sfs_bmap_fill_example =
    sfs_bmap_fill steady (λ w b. refl) 20 one_block one_block-IsSound (omega arith)
      (no_more_blocks 19)
