-- ===== src/Sfs/Bmap/Mapping.antt =====
-- How the stores that sfs_bmap makes change which block of the disk holds a block of the file.
use mehrad.Base.{
  ℕ, zero, suc, ◌-◌, ◌≤◌, ◌<◌, ◌≡◌, ◌≢◌, refl, ap, ◌∙◌, sym, Bool, false, List, ◌==◌, ==_iff, ==_ne,
  ==_refl, lt→ltb, le→ltb, if◌then◌else◌, get_elem?, set, length, get_elem?-set_self,
  get_elem?-set_ne, replicate, arith, dec_lt, ℕ_discrete,
}
use mehrad.Sfs.State.{Inode}
use mehrad.Sfs.Block.{zero_block, write_disk}
use mehrad.Sfs.Bmap.{or_zero, block_at}

pub or_zero-replicate : (n k : ℕ) → or_zero (get_elem? (replicate n 0) k) ≡ 0
or_zero-replicate zero k = refl
or_zero-replicate (suc n) zero = refl
or_zero-replicate (suc n) (suc k) = or_zero-replicate n k

or_zero-set :
    (xs : List ℕ) (i v k : ℕ)
    → i < length xs
    → or_zero (get_elem? (set xs i v) k) ≡ (if k == i then v else or_zero (get_elem? xs k))
or_zero-set xs i v k h = elim (ℕ_discrete k i) [
  | yes e ↦
      rw ((==_iff k i).1 e)
        (ap or_zero (ap (get_elem? (set xs i v)) e ∙ get_elem?-set_self xs i v h))
  | no ne ↦ rw (==_ne k i ne) (ap or_zero (get_elem?-set_ne xs i k v (λ e. ne (sym e))))
]

-- Clearing another block than the indirect one.
pub block_at-elsewhere :
    (i : Inode) (disk : ℕ → List ℕ) (b : ℕ) (ws : List ℕ) (k : ℕ)
    → b ≢ i.sfi_indirect
    → block_at i (write_disk disk b ws) k ≡ block_at i disk k
unfolding block_at
block_at-elsewhere i disk b ws k ne =
    let t : (i.sfi_indirect == b) ≡ false = ==_ne i.sfi_indirect b (λ e. ne (sym e)) in rw t refl

pub block_at-direct :
    (i : Inode) (disk : ℕ → List ℕ) (fb b k : ℕ)
    → length i.sfi_direct ≡ 15
    → fb < 15
    → block_at (record i { sfi_direct = set i.sfi_direct fb b }) disk k
      ≡ (if k == fb then b else block_at i disk k)
unfolding block_at
block_at-direct i disk fb b k size h = elim (dec_lt k 15) [
  | yes lt ↦ rw (lt→ltb k 15 lt) (or_zero-set i.sfi_direct fb b k (omega (arith, size)))
  | no ge ↦ let t : (k == fb) ≡ false = ground arith in rw t (rw (le→ltb k 15 (omega arith)) refl)
]

-- A new indirect block, all zeros, maps nothing.
pub block_at-new_indirect :
    (i : Inode) (disk : ℕ → List ℕ) (b k : ℕ)
    → i.sfi_indirect ≡ 0
    → disk b ≡ zero_block
    → block_at (record i { sfi_indirect = b }) disk k ≡ block_at i disk k
unfolding block_at
block_at-new_indirect i disk b k none_yet z = elim (dec_lt k 15) [
  | yes lt ↦ rw (lt→ltb k 15 lt) refl
  | no ge ↦ elim (ℕ_discrete b 0) [
    | yes e ↦
        rw (le→ltb k 15 (omega arith))
          (rw ((==_iff b 0).1 e) (rw ((==_iff i.sfi_indirect 0).1 none_yet) refl))
    | no ne ↦ rw (le→ltb k 15 (omega arith)) (
        rw ((==_iff i.sfi_indirect 0).1 none_yet) (
          rw (==_ne b 0 ne) (
            ap (λ (ws : List ℕ). or_zero (get_elem? ws (k - 15))) z
            ∙ or_zero-replicate 128 (k - 15))))
  ]
]

-- An entry of the indirect block.
pub block_at-entry :
    (i : Inode) (disk : ℕ → List ℕ) (fb b k : ℕ)
    → i.sfi_indirect ≢ 0
    → length (disk i.sfi_indirect) ≡ 128
    → 15 ≤ fb
    → fb < 143
    → block_at i (write_disk disk i.sfi_indirect (set (disk i.sfi_indirect) (fb - 15) b)) k
      ≡ (if k == fb then b else block_at i disk k)
unfolding block_at
block_at-entry i disk fb b k nz size lo hi = elim (dec_lt k 15) [
  | yes lt ↦ let t : (k == fb) ≡ false = ground arith in rw t (rw (lt→ltb k 15 lt) refl)
  | no ge ↦
      let t : (k - 15 == fb - 15) ≡ (k == fb) = ground arith in
      rw (le→ltb k 15 (omega arith)) (
        rw (==_ne i.sfi_indirect 0 nz) (
          rw (==_refl i.sfi_indirect) (
            or_zero-set (disk i.sfi_indirect) (fb - 15) b (k - 15) (omega (arith, size))
            ∙ ap (λ (t : Bool). if t then b else or_zero (get_elem? (disk i.sfi_indirect) (k - 15)))
                t)))
]
