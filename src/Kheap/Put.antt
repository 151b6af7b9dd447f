-- ===== src/Kheap/Put.antt =====
-- put_block, the part of subpage_kfree of kern/lib/kheap.c that frees a block of a page.
use mehrad.Base.{
  ℕ, zero, suc, ◌+◌, ◌-◌, ◌*◌, ◌/◌, ◌%◌, ◌^◌, ◌<◌, ◌≤◌, ◌≡◌, ◌≢◌, refl, sym, ◌∙◌, subst, true,
  false, ◌⊎◌, inl, inr, List, [], ◌∷◌, some, ret, ltb, leb, lt→ltb, ◌==◌, ==_ne, arith, length, set,
  get_elem?, dec_lt,
}
use mehrad.Kheap.{PageRef, Heap, sizes, update, fill_deadbeef, put_block, remove_lists, freepageref}
use mehrad.Kheap.Page.{IsBlock, IsChain, AreBlocks, IsAbsent, AreDistinct, IsPage, first_free}
use mehrad.Kheap.Sizes.{sizes-IsSize, blocks_apart}
use mehrad.Kheap.Cut.{update_self, update_other}

fill_deadbeef-outside :
    (n ptr : ℕ) (w : ℕ → ℕ) (a : ℕ) → (a < ptr) ⊎ (ptr + n * 4 ≤ a) → fill_deadbeef n ptr w a ≡ w a
unfolding fill_deadbeef
fill_deadbeef-outside zero ptr w a o = refl
fill_deadbeef-outside (suc n) ptr w a (inl l) =
    fill_deadbeef-outside n (ptr + 4) (update w ptr 0xdeadbeef) a (inl (omega arith))
    ∙ update_other w ptr 0xdeadbeef a (λ q. omega arith)
fill_deadbeef-outside (suc n) ptr w a (inr l) =
    fill_deadbeef-outside n (ptr + 4) (update w ptr 0xdeadbeef) a (inr (omega arith))
    ∙ update_other w ptr 0xdeadbeef a (λ q. omega arith)

-- Memory once the block `x` has been filled, and `next` put in its first word.
abbrev pub freed_words : ℕ → ℕ → ℕ → (ℕ → ℕ) → ℕ → ℕ
freed_words size x next w = update (fill_deadbeef (size / 4) x w) x next

pub freed_words-outside :
    (k x next : ℕ) (w : ℕ → ℕ) (a : ℕ)
    → k < 8
    → (a < x) ⊎ (x + sizes k ≤ a)
    → freed_words (sizes k) x next w a ≡ w a
freed_words-outside k x next w a l o =
    let s = sizes-IsSize k l in
    let e = s.words in
    let wide = s.wide in
    update_other (fill_deadbeef (sizes k / 4) x w) x next a (not_here o wide)
    ∙ fill_deadbeef-outside (sizes k / 4) x w a (subst (λ m. (a < x) ⊎ (x + m ≤ a)) (sym e) o)
  where
    not_here : (a < x) ⊎ (x + sizes k ≤ a) → 16 ≤ sizes k → a ≢ x
    not_here (inl m) wide q = omega arith
    not_here (inr m) wide q = omega arith

IsChain-kept :
    (page k x : ℕ) (w v : ℕ → ℕ) (a : ℕ) (xs : List ℕ)
    → k < 8
    → IsBlock page (sizes k) x
    → ((y : ℕ) → (y < x) ⊎ (x + sizes k ≤ y) → v y ≡ w y)
    → AreBlocks page (sizes k) xs
    → IsAbsent x xs
    → IsChain w a xs
    → IsChain v a xs
unfolding IsChain AreBlocks IsAbsent
IsChain-kept page k x w v a [] l b same bs n c = c
IsChain-kept page k x w v a (y ∷ ys) l b same (by, bs) (ne, n) (e, c) =
    let s = sizes-IsSize k l in
    let wide = s.wide in
    let o : (y < x) ⊎ (x + sizes k ≤ y) = elim (blocks_apart page x y k l b by ne) [
      | inl m ↦ inr m
      | inr m ↦ inl (omega arith)
    ] in
    (e, rw (same y o) (IsChain-kept page k x w v (w y) ys l b same bs n c))

abbrev pub freed_ref : PageRef → ℕ → List ℕ → PageRef
freed_ref pr x free = record pr { freelist_offset = x - pr.pageaddr; nfree = suc (length free) }

abbrev pub words_after : Heap → ℕ → ℕ → ℕ → ℕ
words_after h r x = freed_words (sizes (h.refs r).blktype) x (first_free (h.refs r)) h.words

freed-IsPage :
    (h : Heap) (r x : ℕ) (free : List ℕ)
    → IsPage h.words (h.refs r) free
    → IsBlock (h.refs r).pageaddr (sizes (h.refs r).blktype) x
    → IsAbsent x free
    → length free < 4096 / sizes (h.refs r).blktype
    → IsPage (words_after h r x) (freed_ref (h.refs r) x free) (x ∷ free)
unfolding IsChain AreBlocks AreDistinct
freed-IsPage h r x free p b n room =
    let l = b.from in
    let u = b.to in
    let few = (sizes-IsSize (h.refs r).blktype p.kind).few in
    let t : (x - (h.refs r).pageaddr == 0xffff) ≡ false = ==_ne _ 0xffff (λ q. omega arith) in
    let kept =
      IsChain-kept (h.refs r).pageaddr (h.refs r).blktype x h.words (words_after h r x)
        (first_free (h.refs r)) free p.kind b
        (λ y o. freed_words-outside (h.refs r).blktype x (first_free (h.refs r)) h.words y p.kind o)
        p.blocks n p.chain in
    let first =
      update_self (fill_deadbeef (sizes (h.refs r).blktype / 4) x h.words) x
        (first_free (h.refs r)) in
    record {
      kind = p.kind;
      placed = p.placed;
      kernel = p.kernel;
      within = p.within;
      offset = inr (omega arith);
      chain =
          (rw t (omega arith), subst (λ a. IsChain (words_after h r x) a free) (sym first) kept);
      count = refl;
      few = omega arith;
      blocks = (b, p.blocks);
      distinct = (n, p.distinct);
    }

abbrev pub after_free : Heap → ℕ → ℕ → List ℕ → Heap
after_free h r x free = record h {
  words = words_after h r x;
  refs = update h.refs r (freed_ref (h.refs r) x free);
}

-- On a well-formed page with a block in use, a block that is not free is freed: the page is well
-- formed with it in front of its free blocks, and no word outside of the block is written; a page all
-- of whose blocks are free then is taken off the lists, and its pageref is free.
pub put_block_lem :
    (h : Heap) (r x : ℕ) (free : List ℕ)
    → IsPage h.words (h.refs r) free
    → IsBlock (h.refs r).pageaddr (sizes (h.refs r).blktype) x
    → IsAbsent x free
    → length free < 4096 / sizes (h.refs r).blktype
    → get_elem? h.inuse r ≡ some true
    → IsPage (words_after h r x) (freed_ref (h.refs r) x free) (x ∷ free)
      × ((a : ℕ) → (a < x) ⊎ (x + sizes (h.refs r).blktype ≤ a) → words_after h r x a ≡ h.words a)
      × (((length (x ∷ free) < 4096 / sizes (h.refs r).blktype)
            × (put_block r x h ≡ ret (after_free h r x free)))
          ⊎ ((length (x ∷ free) ≡ 4096 / sizes (h.refs r).blktype)
              × (put_block r x h
                  ≡ ret (record (remove_lists r (h.refs r).blktype (after_free h r x free)) {
                    inuse = set h.inuse r false;
                  }))))
unfolding put_block freepageref
put_block_lem h r x free p b n room bit =
    let l = b.from in
    let u = b.to in
    let few = p.few in
    let c = p.count in
    let k = (h.refs r).blktype in
    let low : ltb (x - (h.refs r).pageaddr) 4096 ≡ true = lt→ltb _ _ (omega arith) in
    let stride = b.stride in
    let on : ((x - (h.refs r).pageaddr) % sizes k == 0) ≡ true = ground arith in
    let one_more : ((h.refs r).nfree + 1) % 2 ^ 16 ≡ suc (length free) = omega arith in
    let fits : leb (suc (length free)) (4096 / sizes k) ≡ true = ground arith in
    (
      freed-IsPage h r x free p b n room,
      λ a o. freed_words-outside k x (first_free (h.refs r)) h.words a p.kind o,
      elim (dec_lt (suc (length free)) (4096 / sizes k)) [
        | yes m ↦ inl (
          m,
          rw low (
              rw on (
                rw one_more (
                  rw fits
                    (rw (==_ne (suc (length free)) (4096 / sizes k) (λ q. omega arith)) refl)))),
        )
        | no g ↦
            let e : (suc (length free) == 4096 / sizes k) ≡ true = ground arith in
            inr (omega arith, rw low (rw on (rw one_more (rw fits (rw e (rw bit refl))))))
      ],
    )
