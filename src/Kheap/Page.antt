-- ===== src/Kheap/Page.antt =====
-- One page of kern/lib/kheap.c, with its list of free blocks.
use mehrad.Base.{
  ℕ, ◌+◌, ◌-◌, ◌%◌, ◌^◌, ◌<◌, ◌≤◌, ◌≡◌, ◌≢◌, refl, sym, ap, ◌∙◌, true, false, ◌⊎◌, inl, inr, List,
  [], ◌∷◌, ret, lt→ltb, ◌==◌, ==_ne, if◌then◌else◌, arith, length,
}
use mehrad.Kheap.{PageRef, Heap, sizes, invalid_offset, update, taken_ref, take_block}

pub record IsBlock (page size x : ℕ) : Type 0 where
  pub from : page ≤ x
  pub to : x < page + 4096
  pub stride : (x - page) % size ≡ 0

-- The blocks are linked, from the address `a` on.
unfoldable pub IsChain : (ℕ → ℕ) → ℕ → List ℕ → Type 0
IsChain words a [] = a ≡ 0
IsChain words a (x ∷ xs) = (a ≡ x) × IsChain words (words x) xs

unfoldable pub AreBlocks : ℕ → ℕ → List ℕ → Type 0
AreBlocks page size [] = Unit {0}
AreBlocks page size (x ∷ xs) = IsBlock page size x × AreBlocks page size xs

unfoldable pub IsAbsent : ℕ → List ℕ → Type 0
IsAbsent x [] = Unit {0}
IsAbsent x (y ∷ ys) = (x ≢ y) × IsAbsent x ys

unfoldable pub AreDistinct : List ℕ → Type 0
AreDistinct [] = Unit {0}
AreDistinct (x ∷ xs) = IsAbsent x xs × AreDistinct xs

-- The address of the first free block of a page, 0 if there is none.
abbrev pub first_free : PageRef → ℕ
first_free pr = if pr.freelist_offset == invalid_offset then 0 else pr.pageaddr + pr.freelist_offset

-- A page of the kernel whose free blocks are `free`, in the order of their list.
pub record IsPage (words : ℕ → ℕ) (pr : PageRef) (free : List ℕ) : Type 0 where
  pub kind : pr.blktype < 8
  pub placed : pr.pageaddr % 4096 ≡ 0
  pub kernel : 0 < pr.pageaddr
  pub within : pr.pageaddr + 4096 ≤ 2 ^ 32
  pub offset : (pr.freelist_offset ≡ invalid_offset) ⊎ (pr.freelist_offset < 4096)
  pub chain : IsChain words (first_free pr) free
  pub count : pr.nfree ≡ length free
  pub few : length free ≤ 256
  pub blocks : AreBlocks pr.pageaddr (sizes pr.blktype) free
  pub distinct : AreDistinct free

-- What is taken: the first free block, if the page is well formed and has one.
last_taken :
    (words : ℕ → ℕ) (pr : PageRef) (next x : ℕ)
    → IsPage words pr (x ∷ [])
    → next ≡ 0
    → taken_ref next pr ≡ ret (record pr { nfree = 0; freelist_offset = invalid_offset })
last_taken words pr next x h e =
    let c = h.count in
    let t : (next == 0) ≡ true = ground arith in
    let n : (pr.nfree + 2 ^ 16 - 1) % 2 ^ 16 ≡ 0 = omega arith in rw t (rw n refl)

next_taken :
    (words : ℕ → ℕ) (pr : PageRef) (next x y : ℕ) (ys : List ℕ)
    → IsPage words pr (x ∷ y ∷ ys)
    → IsBlock pr.pageaddr (sizes pr.blktype) y
    → next ≡ y
    → taken_ref next pr
      ≡ ret (record pr { nfree = length (y ∷ ys); freelist_offset = y - pr.pageaddr })
next_taken words pr next x y ys h b e =
    let c = h.count in
    let f = h.few in
    let k = h.kernel in
    let w = h.within in
    let l = b.from in
    let u = b.to in
    let t : (next == 0) ≡ false = ==_ne next 0 (λ z. omega arith) in
    let n : (pr.nfree + 2 ^ 16 - 1) % 2 ^ 16 ≡ length (y ∷ ys) = omega arith in
    let o : (next + 2 ^ 32 - pr.pageaddr) % 2 ^ 32 ≡ y - pr.pageaddr = omega arith in
    rw t (
      rw n (
        rw o (
          rw (lt→ltb 0 (length (y ∷ ys)) (omega arith))
            (rw (lt→ltb (y - pr.pageaddr) 4096 (omega arith)) refl))))

-- The offset of a page that has a free block.
offset-first :
    (words : ℕ → ℕ) (pr : PageRef) (x : ℕ) (xs : List ℕ)
    → IsPage words pr (x ∷ xs)
    → (pr.freelist_offset < 4096) × (pr.pageaddr + pr.freelist_offset ≡ x)
unfolding IsChain AreBlocks
offset-first words pr x xs h =
    let (e, _) = h.chain in
    let (b, _) = h.blocks in
    let k = h.kernel in
    let l = b.from in
    elim h.offset [
      | inl i ↦
          let t : (pr.freelist_offset == invalid_offset) ≡ true = ground arith in
          let z : 0 ≡ x = ap (λ b. if b then 0 else pr.pageaddr + pr.freelist_offset) (sym t) ∙ e in
          absurd (omega arith)
      | inr o ↦
          let t : (pr.freelist_offset == invalid_offset) ≡ false =
            ==_ne pr.freelist_offset invalid_offset (λ z. omega arith) in
          let z : pr.pageaddr + pr.freelist_offset ≡ x =
            ap (λ b. if b then 0 else pr.pageaddr + pr.freelist_offset) (sym t) ∙ e in
          (o, z)
    ]

-- The pageref after the first free block has been taken, of `xs` that are left.
pub after_taking : PageRef → List ℕ → PageRef
after_taking pr [] = record pr { nfree = 0; freelist_offset = invalid_offset }
after_taking pr (y ∷ ys) = record pr { nfree = length (y ∷ ys); freelist_offset = y - pr.pageaddr }

pub after_taking-place : (pr : PageRef) (xs : List ℕ) → (after_taking pr xs).pageaddr ≡ pr.pageaddr
unfolding after_taking
after_taking-place pr [] = refl
after_taking-place pr (y ∷ ys) = refl

pub after_taking-kind : (pr : PageRef) (xs : List ℕ) → (after_taking pr xs).blktype ≡ pr.blktype
unfolding after_taking
after_taking-kind pr [] = refl
after_taking-kind pr (y ∷ ys) = refl

taken_lem :
    (words : ℕ → ℕ) (pr : PageRef) (x : ℕ) (xs : List ℕ)
    → IsPage words pr (x ∷ xs)
    → (taken_ref (words x) pr ≡ ret (after_taking pr xs)) × IsPage words (after_taking pr xs) xs
unfolding IsChain AreBlocks AreDistinct after_taking
taken_lem words pr x [] h =
    let (_, e) = h.chain in
    (
      last_taken words pr (words x) x h e,
      record {
        kind = h.kind;
        placed = h.placed;
        kernel = h.kernel;
        within = h.within;
        offset = inl refl;
        chain = refl;
        count = refl;
        few = omega arith;
        blocks = tt;
        distinct = tt;
      },
    )
taken_lem words pr x (y ∷ ys) h =
    let (_, (e, c)) = h.chain in
    let (_, (b, bs)) = h.blocks in
    let (_, d) = h.distinct in
    let f = h.few in
    let l = b.from in
    let u = b.to in
    let t : (y - pr.pageaddr == invalid_offset) ≡ false =
      ==_ne (y - pr.pageaddr) invalid_offset (λ z. omega arith) in
    (
      next_taken words pr (words x) x y ys h b e,
      record {
        kind = h.kind;
        placed = h.placed;
        kernel = h.kernel;
        within = h.within;
        offset = inr (omega arith);
        chain = (rw t (omega arith), c);
        count = refl;
        few = omega arith;
        blocks = (b, bs);
        distinct = d;
      },
    )

-- A page that is well formed and has a free block: the first one is handed out, the page is well
-- formed with the others as its free blocks, and nothing else changes.
pub take_block_lem :
    (r : ℕ) (h : Heap) (x : ℕ) (xs : List ℕ)
    → IsPage h.words (h.refs r) (x ∷ xs)
    → (take_block r h ≡ ret (x, record h { refs = update h.refs r (after_taking (h.refs r) xs) }))
      × IsPage h.words (after_taking (h.refs r) xs) xs
unfolding take_block
take_block_lem r h x xs p =
    let (o, e) = offset-first h.words (h.refs r) x xs p in
    let (t, q) = taken_lem h.words (h.refs r) x xs p in
    (rw (lt→ltb (h.refs r).freelist_offset 4096 o) (rw e (rw t refl)), q)
