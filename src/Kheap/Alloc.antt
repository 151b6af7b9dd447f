-- ===== src/Kheap/Alloc.antt =====
-- subpage_kmalloc of kern/lib/kheap.c on the whole heap.
use mehrad.Base.{
  ℕ, zero, suc, ◌+◌, ◌*◌, ◌/◌, ◌^◌, ◌<◌, ◌≤◌, ◌≡◌, ◌≢◌, refl, sym, ap, ◌∙◌, subst, Bool, true,
  false, ◌⊎◌, inl, inr, List, ◌∷◌, ret, ◌==◌, ==_ne, ==_refl, if◌then◌else◌, arith, length, set,
  get_elem?, get_elem?-set_ne, get_elem?-set_self, fun_ext,
}
use mehrad.Kheap.{
  Heap, sizes, update, alloc_fresh, fill_page, allocpageref, freepageref, subpage_kmalloc,
}
use mehrad.Kheap.Pages.{IsListed, IsHeap}
use mehrad.Kheap.Fresh.{with_page, IsHeap-with_page, allocpageref_lem, alloc_kpages_one}
use mehrad.Kheap.Sizes.{sizes-IsSize}
use mehrad.Kheap.Cut.{cut_page_lem, cut_ref, blocks_down}
use mehrad.Kheap.Take.{IsFor, blocktype_lem, IsTaken, take_block-IsTakenFrom, alloc_in_lem}

update_twice : {A : Type 0} (f : ℕ → A) (r : ℕ) (a b : A) → update (update f r a) r b ≡ update f r b
update_twice f r a b = fun_ext (λ q. inner f a b q (q == r))
  where
    inner :
        {A : Type 0} (f : ℕ → A) (a b : A) (q : ℕ) (c : Bool)
        → (if c then b else (if c then a else f q)) ≡ (if c then b else f q)
    inner f a b q true = refl
    inner f a b q false = refl

blocks_down-some :
    (page size n : ℕ) → 1 ≤ n → (x : ℕ) × (xs : List ℕ) × (blocks_down page size n ≡ x ∷ xs)
unfolding blocks_down
blocks_down-some page size zero l = absurd (omega arith)
blocks_down-some page size (suc n) l = (page + n * size, blocks_down page size n, refl)

-- With a pageref and a page, a fresh page is cut and a block of it handed out.
fresh_page :
    (h : Heap) (free : ℕ → List ℕ) (k r : ℕ)
    → IsHeap h free
    → k < 8
    → ((q : ℕ) → IsListed q h.allbase → q ≢ r)
    → r < length h.inuse
    → (h.ram).firstpaddr + 4096 ≤ (h.ram).lastpaddr
    → (x : ℕ) × (h' : Heap) × (fill_page k r
          (record h { inuse = set h.inuse r true })
          (2 ^ 31 + (h.ram).firstpaddr, record (h.ram) { firstpaddr = (h.ram).firstpaddr + 4096 })
        ≡ ret (x, h'))
      × IsTaken h free k x h'
unfolding IsListed
fresh_page h free k r H l new in_range room =
    let m = H.memory in
    let al = m.aligned in
    let sm = m.small in
    let pos = m.some_used in
    let page = 2 ^ 31 + (h.ram).firstpaddr in
    let several = (sizes-IsSize k l).several in
    let h₀ : Heap = record h {
      inuse = set h.inuse r true;
      ram = record (h.ram) { firstpaddr = (h.ram).firstpaddr + 4096 };
    } in
    let (v, e, p, same) = cut_page_lem page k r h₀ l (omega arith) (omega arith) (omega arith) in
    let bs = blocks_down page (sizes k) (4096 / sizes k) in
    let (x, xs, b) = blocks_down-some page (sizes k) (4096 / sizes k) (omega arith) in
    let h₁ = with_page h r k (cut_ref page k) v in
    let H₁ : IsHeap h₁ (update free r bs) =
      IsHeap-with_page h free r k (cut_ref page k) v bs H new in_range p refl refl room same in
    let at_r : h₁.refs r ≡ cut_ref page k =
      ap (λ b. if b then cut_ref page k else h.refs r) (==_refl r) in
    let free_r : update free r bs r ≡ x ∷ xs = ap (λ c. if c then bs else free r) (==_refl r) ∙ b in
    let (h', i) =
      take_block-IsTakenFrom h₁ (update free r bs) r k x xs H₁ (inl refl) (ap (λ a. a.blktype) at_r)
        free_r in
    (
      x,
      h',
      rw (==_ne page 0 (λ z. omega arith), e) i.taking,
      record {
        page = r;
        left = xs;
        block = i.block;
        kind = i.kind;
        not_free = i.not_free;
        origin = inr (new, i.same_pages);
        heap = subst (IsHeap h') (update_twice free r bs xs) i.heap;
      },
    )

-- Without a page, the pageref is given back.
no_page :
    (h : Heap) (free : ℕ → List ℕ) (r : ℕ)
    → IsHeap h free
    → ((q : ℕ) → IsListed q h.allbase → q ≢ r)
    → IsHeap (record h { inuse = set (set h.inuse r true) r false }) free
no_page h free r H new = record {
  pages = H.pages;
  apart = H.apart;
  sized = H.sized;
  bits = λ q l.
      get_elem?-set_ne (set h.inuse r true) r q false (λ e. new q l (sym e))
      ∙ get_elem?-set_ne h.inuse r q true (λ e. new q l (sym e))
      ∙ H.bits q l;
  below = H.below;
  memory = H.memory;
  once = H.once;
  once_sized = H.once_sized;
}

fresh_lem :
    (h : Heap) (free : ℕ → List ℕ) (k : ℕ)
    → IsHeap h free
    → k < 8
    → (x : ℕ) × (h' : Heap) × (alloc_fresh k h (allocpageref h.inuse) ≡ ret (x, h'))
      × (IsTaken h free k x h' ⊎ ((x ≡ 0) × IsHeap h' free))
unfolding freepageref
fresh_lem h free k H l = elim (allocpageref_lem h.inuse) [
  | inl e ↦ (0, h, rw e refl, inr (refl, H))
  | inr (r, e, g, in_range) ↦
      let new : (q : ℕ) → IsListed q h.allbase → q ≢ r =
        λ q m z. absurd (let bit = ap (get_elem? h.inuse) (sym z) ∙ H.bits q m in cc (bit, g)) in
      elim (alloc_kpages_one h.ram H.memory) [
        | inl (room, a) ↦
            let (x, h', f, t) = fresh_page h free k r H l new in_range room in
            (x, h', rw e (rw a f), inl t)
        | inr a ↦ (
          0,
          record h { inuse = set (set h.inuse r true) r false },
          rw e (rw a (rw (get_elem?-set_self h.inuse r true in_range) refl)),
          inr (refl, no_page h free r H new),
        )
      ]
]

-- On a well-formed heap, a request of at most 2048 bytes is for blocks of the smallest size that is
-- large enough: subpage_kmalloc hands out a block of that size that was free, on a page there was or
-- on a page more, and that is free no longer; or it returns NULL. The heap stays well formed.
pub subpage_kmalloc_lem :
    (sz : ℕ) (h : Heap) (free : ℕ → List ℕ)
    → IsHeap h free
    → sz ≤ 2048
    → (k : ℕ) × IsFor sz k
      × ((x : ℕ) × (h' : Heap) × (subpage_kmalloc sz h ≡ ret (x, h'))
          × (IsTaken h free k x h' ⊎ ((x ≡ 0) × IsHeap h' free)))
unfolding subpage_kmalloc
subpage_kmalloc_lem sz h free H l =
    let (k, e, f) = blocktype_lem sz l in
    let fresh = alloc_fresh k h (allocpageref h.inuse) in
    (
      k,
      f,
      elim (alloc_in_lem (h.sizebases k) h free k fresh H (H.sized k)) [
        | inl (x, h', r, t) ↦ (x, h', rw e r, inl t)
        | inr r ↦ (let (x, h', a, t) = fresh_lem h free k H f.known in (x, h', rw e (r ∙ a), t))
      ],
    )
