-- ===== src/Kheap/Tests.antt =====
-- A heap with one page, of two blocks of 2048 bytes, the second of which is in use.
use mehrad.Base.{
  ℕ, ◌==◌, ==_ne, ℕ_discrete, subst, get_elem?, panic, if◌then◌else◌, ◌+◌, ◌<◌, ◌≤◌, ◌≡◌, refl, sym,
  ap, ◌∙◌, arith, Bool, true, false, inl, inr, ◌⊎◌, List, [], ◌∷◌, some, Outcome, ret,
}
use mehrad.Vm.{alloc_kpages, ram_stealmem}
use mehrad.Kheap.{
  Heap, sizes, update, remove, subpage_kmalloc, subpage_kfree, kmalloc, kfree, blocktype,
  block_from, alloc_in, take_block, find_page, put_block, freepageref,
}
use mehrad.Kheap.Page.{IsChain, AreBlocks, IsAbsent, AreDistinct, IsPage}
use mehrad.Kheap.Pages.{IsListed, IsHeap}
use mehrad.Kheap.Take.{IsFor, IsTaken}
use mehrad.Kheap.Alloc.{subpage_kmalloc_lem}
use mehrad.Kheap.Free.{Kept, subpage_kfree_lem}

abbrev half_used : Heap
half_used = record {
  inuse = true ∷ false ∷ [];
  refs = λ r. record { pageaddr = 0x80010000; blktype = 7; freelist_offset = 0; nfree = 1 };
  sizebases = λ k. if k == 7 then 0 ∷ [] else [];
  allbase = 0 ∷ [];
  words = λ a. 0;
  ram = record { firstpaddr = 0x11000; lastpaddr = 0x20000 };
}

abbrev free_blocks : ℕ → List ℕ
free_blocks r = 0x80010000 ∷ []

half_used-IsPage : (r : ℕ) → IsPage half_used.words (half_used.refs r) (free_blocks r)
unfolding IsChain AreBlocks AreDistinct IsAbsent sizes
half_used-IsPage r = record {
  kind = omega arith;
  placed = refl;
  kernel = omega arith;
  within = omega arith;
  offset = inr (omega arith);
  chain = (refl, refl);
  count = refl;
  few = omega arith;
  blocks = (record { from = omega arith; to = omega arith; stride = refl }, tt);
  distinct = (tt, tt);
}

half_used-IsHeap : IsHeap half_used free_blocks
unfolding IsListed AreDistinct IsAbsent
half_used-IsHeap = record {
  pages = λ r l. half_used-IsPage r;
  apart = λ r s l m ne. absurd (ne (only r l ∙ sym (only s m)));
  sized = λ k r l. listed k r l;
  bits = λ r l. bit r (only r l);
  below = λ r l. omega arith;
  memory = record {
    some_used = omega arith;
    aligned = refl;
    ordered = omega arith;
    small = omega arith;
  };
  once = (tt, tt);
  once_sized = λ k. distinct_at k (k == 7);
}
  where
    only : (r : ℕ) → (r ≡ 0) ⊎ ⊥ → r ≡ 0
    only r (inl e) = e
    only r (inr e) = absurd e

    listed : (k r : ℕ) → IsListed r (half_used.sizebases k) → ((r ≡ 0) ⊎ ⊥) × (7 ≡ k)
    listed k r l = elim (ℕ_discrete k 7) [
      | yes e ↦
          (let t : (k == 7) ≡ true = ground arith in
            (subst (λ b. IsListed r (if b then 0 ∷ [] else [])) t l, sym e))
      | no ne ↦ absurd (subst (λ b. IsListed r (if b then 0 ∷ [] else [])) (==_ne k 7 ne) l)
    ]

    bit : (r : ℕ) → r ≡ 0 → get_elem? half_used.inuse r ≡ some true
    bit r e = ap (get_elem? half_used.inuse) e

    distinct_at : (k : ℕ) (b : Bool) → AreDistinct (if b then 0 ∷ [] else [])
    distinct_at k true = (tt, tt)
    distinct_at k false = tt

subpage_kmalloc_lem_example :
    (k : ℕ) × IsFor 1500 k
    × ((x : ℕ) × (h' : Heap) × (subpage_kmalloc 1500 half_used ≡ ret (x, h'))
        × (IsTaken half_used free_blocks k x h' ⊎ ((x ≡ 0) × IsHeap h' free_blocks)))
subpage_kmalloc_lem_example =
    subpage_kmalloc_lem 1500 half_used free_blocks half_used-IsHeap (omega arith)

subpage_kfree_lem_example :
    (h' : Heap) × (subpage_kfree 0x80010800 half_used ≡ ret (true, h'))
    × IsHeap h' (update free_blocks 0 (0x80010800 ∷ 0x80010000 ∷ []))
    × IsPage h'.words (h'.refs 0) (0x80010800 ∷ 0x80010000 ∷ [])
    × Kept half_used h' 0 (0x80010800 ∷ 0x80010000 ∷ [])
    × ((a : ℕ) → (a < 0x80010800) ⊎ (0x80010800 + sizes 7 ≤ a) → h'.words a ≡ 0)
unfolding IsListed IsAbsent sizes
subpage_kfree_lem_example =
    subpage_kfree_lem half_used free_blocks 0x80010800 0 half_used-IsHeap (inl refl)
      (record { from = omega arith; to = omega arith; stride = refl }) (λ e. omega arith, tt)
      (omega arith)

abbrev address : Outcome (ℕ × Heap) → ℕ
address panic = 0
address (ret (x, h)) = x

-- The block that is free is handed out.
takes_free : address (kmalloc 1500 half_used) ≡ 0x80010000
unfolding kmalloc subpage_kmalloc blocktype block_from sizes alloc_in take_block
takes_free = refl

abbrev pages_left : Outcome Heap → List ℕ
pages_left panic = 7 ∷ []
pages_left (ret h) = h.allbase

-- The page is given up when the block in use is freed.
gives_up : pages_left (kfree 0x80010800 half_used) ≡ []
unfolding kfree subpage_kfree find_page put_block freepageref remove sizes
gives_up = refl

-- A request of 2048 bytes takes a page, though there are blocks of that size.
takes_page : address (kmalloc 2048 half_used) ≡ 0x80011000
unfolding kmalloc alloc_kpages ram_stealmem
takes_page = refl
