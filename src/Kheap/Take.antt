-- ===== src/Kheap/Take.antt =====
-- subpage_kmalloc of kern/lib/kheap.c: the size, and the search of the pages there are.
use mehrad.Base.{
  ℕ, zero, suc, ◌+◌, ◌<◌, ◌≤◌, ◌≡◌, ◌≢◌, refl, sym, ap, ◌∙◌, subst, true, false, ◌⊎◌, inl, inr,
  List, [], ◌∷◌, Outcome, ret, ltb, leb, lt→ltb, le→ltb, ◌==◌, ==_refl, if◌then◌else◌, arith,
  length, ℕ_discrete, dec_le,
}
use mehrad.Kheap.{Heap, sizes, update, blocktype, block_from, alloc_in, take_block}
use mehrad.Kheap.Page.{
  IsBlock, IsAbsent, AreBlocks, AreDistinct, IsPage, after_taking, after_taking-place,
  after_taking-kind, take_block_lem,
}
use mehrad.Kheap.Pages.{IsListed, IsHeap}
use mehrad.Kheap.Changes.{IsHeap-update}

-- The size that is used for a request is the smallest that is large enough.
pub record IsFor (sz k : ℕ) : Type 0 where
  pub known : k < 8
  pub enough : sz ≤ sizes k
  pub smallest : (j : ℕ) → j < k → sizes j < sz

block_from_lem :
    (n i sz : ℕ)
    → n + i ≡ 8
    → sz ≤ sizes 7
    → i ≤ 7
    → ((j : ℕ) → j < i → sizes j < sz)
    → (k : ℕ) × (block_from n i sz ≡ ret k) × IsFor sz k
unfolding block_from
block_from_lem zero i sz e b l small = absurd (omega arith)
block_from_lem (suc n) i sz e b l small = elim (dec_le sz (sizes i)) [
  | yes m ↦
      (let t : leb sz (sizes i) ≡ true = ground arith in
        (i, rw t refl, record { known = omega arith; enough = m; smallest = small }))
  | no g ↦
      let t : leb sz (sizes i) ≡ false = ground arith in
      let not_last : i ≢ 7 = λ q. g (subst (λ x. sz ≤ sizes x) (sym q) b) in
      let (k, r, f) =
        block_from_lem n (i + 1) sz (omega arith) b (omega arith)
          (λ j q. below i sz small (omega arith) j q) in
      (k, rw t r, f)
]
  where
    below :
        (i sz : ℕ)
        → ((j : ℕ) → j < i → sizes j < sz)
        → sizes i < sz
        → (j : ℕ) → j < i + 1
        → sizes j < sz
    below i sz small here j q = elim (ℕ_discrete j i) [
      | yes e ↦ subst (λ x. sizes x < sz) (sym e) here
      | no ne ↦ small j (omega arith)
    ]

pub blocktype_lem : (sz : ℕ) → sz ≤ 2048 → (k : ℕ) × (blocktype sz ≡ ret k) × IsFor sz k
unfolding blocktype sizes
blocktype_lem sz l = block_from_lem 8 0 sz refl l (omega arith) (λ j q. absurd (omega arith))

-- A block of the size `k` has been handed out: it is the first free one of a page, and is no longer
-- free; that page was there before, or is a page more.
pub record IsTaken (h : Heap) (free : ℕ → List ℕ) (k x : ℕ) (h' : Heap) : Type 0 where
  pub page : ℕ
  pub left : List ℕ
  pub block : IsBlock (h'.refs page).pageaddr (sizes k) x
  pub kind : (h'.refs page).blktype ≡ k
  pub not_free : IsAbsent x left
  pub origin :
      (IsListed page h.allbase × (free page ≡ x ∷ left) × (h'.allbase ≡ h.allbase))
      ⊎ (((q : ℕ) → IsListed q h.allbase → q ≢ page) × (h'.allbase ≡ page ∷ h.allbase))
  pub heap : IsHeap h' (update free page left)

-- What becomes of the page `r` when its first free block is taken.
pub record IsTakenFrom (h : Heap) (free : ℕ → List ℕ) (r k x : ℕ) (xs : List ℕ) (h' : Heap)
    : Type 0 where
  pub taking : take_block r h ≡ ret (x, h')
  pub block : IsBlock (h'.refs r).pageaddr (sizes k) x
  pub kind : (h'.refs r).blktype ≡ k
  pub not_free : IsAbsent x xs
  pub same_pages : h'.allbase ≡ h.allbase
  pub heap : IsHeap h' (update free r xs)

pub take_block-IsTakenFrom :
    (h : Heap) (free : ℕ → List ℕ) (r k x : ℕ) (xs : List ℕ)
    → IsHeap h free
    → IsListed r h.allbase
    → (h.refs r).blktype ≡ k
    → free r ≡ x ∷ xs
    → (h' : Heap) × IsTakenFrom h free r k x xs h'
unfolding AreBlocks AreDistinct
take_block-IsTakenFrom h free r k x xs H l kind f =
    let p = subst (IsPage h.words (h.refs r)) f (H.pages r l) in
    let (b, _) = p.blocks in
    let (n, _) = p.distinct in
    let (e, q) = take_block_lem r h x xs p in
    let pr = after_taking (h.refs r) xs in
    let at_r : update h.refs r pr r ≡ pr = ap (λ b. if b then pr else h.refs r) (==_refl r) in
    (
      record h { refs = update h.refs r pr },
      record {
        taking = e;
        block =
            subst (λ a. IsBlock a.pageaddr (sizes k) x) (sym at_r)
              (subst (λ a. IsBlock a (sizes k) x) (sym (after_taking-place (h.refs r) xs))
                (subst (λ j. IsBlock (h.refs r).pageaddr (sizes j) x) kind b));
        kind = ap (λ a. a.blktype) at_r ∙ after_taking-kind (h.refs r) xs ∙ kind;
        not_free = n;
        same_pages = refl;
        heap =
            IsHeap-update h r pr (after_taking-place (h.refs r) xs)
              (after_taking-kind (h.refs r) xs) free h.words xs H l q (λ a o. refl);
      },
    )

-- The loop over the pages of the size hands out a block, or comes to its end.
pub alloc_in_lem :
    (rs : List ℕ) (h : Heap) (free : ℕ → List ℕ) (k : ℕ) (fresh : Outcome (ℕ × Heap))
    → IsHeap h free
    → ((r : ℕ) → IsListed r rs → IsListed r h.allbase × ((h.refs r).blktype ≡ k))
    → ((x : ℕ) × (h' : Heap) × (alloc_in rs k h fresh ≡ ret (x, h')) × IsTaken h free k x h')
      ⊎ (alloc_in rs k h fresh ≡ fresh)
unfolding alloc_in IsListed
alloc_in_lem [] h free k fresh H all = inr refl
alloc_in_lem (r ∷ rs) h free k fresh H all =
    let (l, kind) = all r (inl refl) in
    let t : ((h.refs r).blktype == k) ≡ true = ground arith in
    let count = (H.pages r l).count in
    by_free r l kind t (free r) refl count (alloc_in_lem rs h free k fresh H (λ q m. all q (inr m)))
  where
    by_free :
        (r : ℕ)
        → IsListed r h.allbase
        → (h.refs r).blktype ≡ k
        → ((h.refs r).blktype == k) ≡ true
        → (fs : List ℕ) → free r ≡ fs
        → (h.refs r).nfree ≡ length (free r)
        → ((x : ℕ) × (h' : Heap) × (alloc_in rs k h fresh ≡ ret (x, h')) × IsTaken h free k x h')
          ⊎ (alloc_in rs k h fresh ≡ fresh)
        → ((x : ℕ) × (h' : Heap) × (alloc_in (r ∷ rs) k h fresh ≡ ret (x, h'))
            × IsTaken h free k x h')
          ⊎ (alloc_in (r ∷ rs) k h fresh ≡ fresh)
    by_free r l kind t [] f count rest =
        let none_free : (h.refs r).nfree ≡ 0 = count ∙ ap (λ fs. length fs) f in
        let z : ltb 0 (h.refs r).nfree ≡ false = le→ltb 0 (h.refs r).nfree (omega arith) in
        elim rest [
          | inl (x, h', e, i) ↦ inl (x, h', rw t (rw z e), i)
          | inr e ↦ inr (rw t (rw z e))
        ]
    by_free r l kind t (x ∷ xs) f count rest =
        let some_free : (h.refs r).nfree ≡ suc (length xs) = count ∙ ap (λ fs. length fs) f in
        let z : ltb 0 (h.refs r).nfree ≡ true = lt→ltb 0 (h.refs r).nfree (omega arith) in
        let (h', i) = take_block-IsTakenFrom h free r k x xs H l kind f in
        inl (
          x,
          h',
          rw t (rw z i.taking),
          record {
            page = r;
            left = xs;
            block = i.block;
            kind = i.kind;
            not_free = i.not_free;
            origin = inl (l, f, i.same_pages);
            heap = i.heap;
          },
        )
