-- ===== src/Kheap/Cut.antt =====
-- cut_page, the part of subpage_kmalloc of kern/lib/kheap.c that makes a page of blocks.
use mehrad.Base.{
  ℕ, zero, suc, ◌+◌, ◌-◌, ◌*◌, ◌/◌, ◌%◌, ◌^◌, ◌<◌, ◌≤◌, ◌≡◌, ◌≢◌, refl, sym, ap, ◌∙◌, subst, false,
  ◌⊎◌, inl, inr, List, [], ◌∷◌, ret, ◌==◌, ==_ne, ==_refl, arith, length,
}
use mehrad.Kheap.{PageRef, Heap, sizes, update, link_blocks, cut_page}
use mehrad.Kheap.Page.{IsChain, AreBlocks, IsAbsent, AreDistinct, IsPage}
use mehrad.Kheap.Sizes.{sizes-IsSize, block_at}

pub update_self : (f : ℕ → ℕ) (i a : ℕ) → update f i a i ≡ a
update_self f i a = rw (==_refl i) refl

pub update_other : (f : ℕ → ℕ) (i a j : ℕ) → j ≢ i → update f i a j ≡ f j
update_other f i a j n = rw (==_ne j i n) refl

-- The first `n` blocks of a page, the last one first.
unfoldable pub blocks_down : ℕ → ℕ → ℕ → List ℕ
blocks_down page size zero = []
blocks_down page size (suc n) = (page + n * size) ∷ blocks_down page size n

IsChain-update :
    (w : ℕ → ℕ) (i v a : ℕ) (xs : List ℕ)
    → IsAbsent i xs
    → IsChain w a xs
    → IsChain (update w i v) a xs
unfolding IsChain IsAbsent
IsChain-update w i v a [] n c = c
IsChain-update w i v a (x ∷ xs) (ne, n) (e, c) =
    (e, rw (==_ne x i (λ q. ne (sym q))) (IsChain-update w i v (w x) xs n c))

IsAbsent-above :
    (page size x n : ℕ) → 0 < size → page + n * size ≤ x → IsAbsent x (blocks_down page size n)
unfolding IsAbsent blocks_down
IsAbsent-above page size x zero p l = tt
IsAbsent-above page size x (suc n) p l =
    (λ e. omega arith, IsAbsent-above page size x n p (omega arith))

length-blocks_down : (page size n : ℕ) → length (blocks_down page size n) ≡ n
unfolding blocks_down
length-blocks_down page size zero = refl
length-blocks_down page size (suc n) = ap suc (length-blocks_down page size n)

AreDistinct-blocks_down : (page size n : ℕ) → 0 < size → AreDistinct (blocks_down page size n)
unfolding AreDistinct blocks_down
AreDistinct-blocks_down page size zero p = tt
AreDistinct-blocks_down page size (suc n) p = (
  IsAbsent-above page size (page + n * size) n p (omega arith),
  AreDistinct-blocks_down page size n p,
)

AreBlocks-blocks_down :
    (page k n : ℕ)
    → k < 8
    → n ≤ 4096 / sizes k
    → AreBlocks page (sizes k) (blocks_down page (sizes k) n)
unfolding AreBlocks blocks_down
AreBlocks-blocks_down page k zero l m = tt
AreBlocks-blocks_down page k (suc n) l m =
    (block_at page n k l (omega arith), AreBlocks-blocks_down page k n l (omega arith))

linked :
    (j page size : ℕ) (w : ℕ → ℕ)
    → 0 < size
    → IsChain w (page + j * size) (blocks_down page size (suc j))
    → IsChain
        (update w (page + suc j * size) (page + j * size))
        (page + suc j * size)
        (blocks_down page size (suc (suc j)))
unfolding IsChain blocks_down
linked j page size w p (e, c) =
    let here = page + suc j * size in
    (
      refl,
      rw (==_refl here) (
          IsChain-update w here (page + j * size) (page + j * size) (blocks_down page size (suc j))
            (IsAbsent-above page size here (suc j) p (omega arith)) (e, c)),
    )

outside :
    (n j page size : ℕ) (w v : ℕ → ℕ)
    → 0 < size
    → ((a : ℕ)
        → (a < page) ⊎ (page + suc (suc j + n) * size ≤ a)
        → v a ≡ update w (page + suc j * size) (page + j * size) a)
    → (a : ℕ) → (a < page) ⊎ (page + suc (j + suc n) * size ≤ a)
    → v a ≡ w a
outside n j page size w v p same a (inl l) =
    same a (inl l) ∙ update_other w (page + suc j * size) (page + j * size) a (λ q. omega arith)
outside n j page size w v p same a (inr l) =
    let e : suc (suc j + n) ≡ suc (j + suc n) = omega arith in
    let d : suc (j + suc n) * size ≡ suc j * size + suc n * size = omega arith in
    same a (inr (subst (λ m. page + m * size ≤ a) (sym e) l))
    ∙ update_other w (page + suc j * size) (page + j * size) a (λ q. omega arith)

-- What the rounds of the linking leave, from block `j` on.
link_blocks_lem :
    (n j page size : ℕ) (w : ℕ → ℕ)
    → 0 < size
    → IsChain w (page + j * size) (blocks_down page size (suc j))
    → (v : ℕ → ℕ) × (link_blocks n (suc j) page size w ≡ ret v)
      × IsChain v (page + (j + n) * size) (blocks_down page size (suc (j + n)))
      × ((a : ℕ) → (a < page) ⊎ (page + suc (j + n) * size ≤ a) → v a ≡ w a)
unfolding link_blocks
link_blocks_lem zero j page size w p c =
    let e : j + 0 ≡ j = omega arith in (w, refl, rw e c, λ a o. refl)
link_blocks_lem (suc n) j page size w p c =
    let here = page + suc j * size in
    let back : suc j - 1 ≡ j = omega arith in
    let ne : (here == page + j * size) ≡ false = ==_ne here (page + j * size) (λ q. omega arith) in
    let e : suc j + n ≡ j + suc n = omega arith in
    let (v, r, c', same) =
      link_blocks_lem n (suc j) page size (update w here (page + j * size)) p
        (linked j page size w p c) in
    (
      v,
      rw back (rw ne r),
      subst (λ m. IsChain v (page + m * size) (blocks_down page size (suc m))) e c',
      λ a o. outside n j page size w v p same a o,
    )

-- The pageref of a page that has just been cut.
abbrev pub cut_ref : ℕ → ℕ → PageRef
cut_ref page k = record {
  pageaddr = page;
  blktype = k;
  freelist_offset = (4096 / sizes k - 1) * sizes k;
  nfree = 4096 / sizes k;
}

cut_ref-IsPage :
    (page k : ℕ) (v : ℕ → ℕ)
    → k < 8
    → page % 4096 ≡ 0
    → 0 < page
    → page + 4096 ≤ 2 ^ 32
    → IsChain v
        (page + (4096 / sizes k - 1) * sizes k)
        (blocks_down page (sizes k) (4096 / sizes k))
    → IsPage v (cut_ref page k) (blocks_down page (sizes k) (4096 / sizes k))
cut_ref-IsPage page k v l a p u c =
    let s = sizes-IsSize k l in
    let whole = s.whole in
    let several = s.several in
    let wide = s.wide in
    let few = s.few in
    let len = length-blocks_down page (sizes k) (4096 / sizes k) in
    let last = block_at 0 (4096 / sizes k - 1) k l (omega arith) in
    let to = last.to in
    let low : (4096 / sizes k - 1) * sizes k < 4096 = omega arith in
    let t : ((4096 / sizes k - 1) * sizes k == 0xffff) ≡ false =
      ==_ne _ 0xffff (λ q. omega arith) in
    record {
      kind = l;
      placed = a;
      kernel = p;
      within = u;
      offset = inr low;
      chain = rw t c;
      count = sym len;
      few = omega arith;
      blocks = AreBlocks-blocks_down page k (4096 / sizes k) l (omega arith);
      distinct = AreDistinct-blocks_down page (sizes k) (4096 / sizes k) (omega arith);
    }

first_word : (page size : ℕ) (w : ℕ → ℕ) → update w page 0 (page + 0 * size) ≡ 0
first_word page size w = let e : page + 0 * size ≡ page = omega arith in rw e (update_self w page 0)

outside_page :
    (page size n : ℕ) (w v : ℕ → ℕ)
    → suc n * size ≡ 4096
    → ((a : ℕ) → (a < page) ⊎ (page + suc n * size ≤ a) → v a ≡ update w page 0 a)
    → (a : ℕ) → (a < page) ⊎ (page + 4096 ≤ a)
    → v a ≡ w a
outside_page page size n w v e same a (inl l) =
    same a (inl l) ∙ update_other w page 0 a (λ q. omega arith)
outside_page page size n w v e same a (inr l) =
    same a (inr (omega arith)) ∙ update_other w page 0 a (λ q. omega arith)

-- A page that is cut for blocks of a size is well formed, with all its blocks free, and no word
-- outside of it is written.
pub cut_page_lem :
    (page k r : ℕ) (h : Heap)
    → k < 8
    → page % 4096 ≡ 0
    → 0 < page
    → page + 4096 ≤ 2 ^ 32
    → (v : ℕ → ℕ) × (cut_page page k r h
        ≡ ret (record h {
          refs = update h.refs r (cut_ref page k);
          sizebases = update h.sizebases k (r ∷ h.sizebases k);
          allbase = r ∷ h.allbase;
          words = v;
        }))
      × IsPage v (cut_ref page k) (blocks_down page (sizes k) (4096 / sizes k))
      × ((a : ℕ) → (a < page) ⊎ (page + 4096 ≤ a) → v a ≡ h.words a)
unfolding cut_page IsChain blocks_down
cut_page_lem page k r h l a p u =
    let s = sizes-IsSize k l in
    let whole = s.whole in
    let several = s.several in
    let wide = s.wide in
    let n = 4096 / sizes k - 1 in
    let one : suc n ≡ 4096 / sizes k = omega arith in
    let full : suc (0 + n) * sizes k ≡ 4096 = subst (λ m. m * sizes k ≡ 4096) (omega arith) whole in
    let zero_n : 0 + n ≡ n = omega arith in
    let (v, e, c, same) =
      link_blocks_lem n 0 page (sizes k) (update h.words page 0) (omega arith)
        (refl, first_word page (sizes k) h.words) in
    let page_e : page - page % 4096 ≡ page = omega arith in
    (
      v,
      rw e (rw page_e refl),
      cut_ref-IsPage page k v l a p u (
          subst (λ m. IsChain v (page + n * sizes k) (blocks_down page (sizes k) m)) one
            (subst (λ m. IsChain v (page + m * sizes k) (blocks_down page (sizes k) (suc m))) zero_n
              c)),
      λ x o. outside_page page (sizes k) (0 + n) h.words v full same x o,
    )
