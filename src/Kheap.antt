-- ===== src/Kheap.antt =====
-- kern/lib/kheap.c: the kernel's allocator. A page is cut into blocks of one size, and the free blocks
-- of a page are linked through their first words. A pageref is its place in the array pagerefs; the
-- lists that start at sizebases and at allbase are lists of places, and pagerefs_inuse is its bits.
-- Pages come from Vm, which takes none back.
pub mod Page
pub mod Sizes
pub mod Cut
pub mod Put
pub mod Pages
pub mod Changes
pub mod Fresh
pub mod Take
pub mod Alloc
pub mod Free
mod Tests
use mehrad.Base.{
  ℕ, zero, suc, ◌+◌, ◌-◌, ◌*◌, ◌/◌, ◌%◌, ◌^◌, Bool, true, false, ◌&&◌, ◌||◌, not, List, [], ◌∷◌,
  Option, none, some, Outcome, ret, panic, ◌>>=◌, ◌>>◌, assert, fetch, ltb, leb, ◌==◌,
  if◌then◌else◌, get_elem?, set,
}
use mehrad.Vm.{Ram, alloc_kpages, page_size, page_frame}

abbrev pub nsizes : ℕ
nsizes = 8

abbrev size_or_zero : Option ℕ → ℕ
size_or_zero none = 0
size_or_zero (some n) = n

-- The table of the sizes, which is read below nsizes only.
unfoldable pub sizes : ℕ → ℕ
sizes i = size_or_zero (get_elem? (16 ∷ 32 ∷ 64 ∷ 128 ∷ 256 ∷ 512 ∷ 1024 ∷ 2048 ∷ []) i)

abbrev pub invalid_offset : ℕ
invalid_offset = 0xffff

pub record PageRef : Type 0 where
  pub pageaddr : ℕ
  pub blktype : ℕ
  pub freelist_offset : ℕ
  pub nfree : ℕ

pub record Heap : Type 0 where
  pub inuse : List Bool
  pub refs : ℕ → PageRef
  pub sizebases : ℕ → List ℕ
  pub allbase : List ℕ
  pub words : ℕ → ℕ
  pub ram : Ram

abbrev pub update : {A : Type 0} → (ℕ → A) → ℕ → A → ℕ → A
update f i a j = if j == i then a else f j

-- The loop of fill_deadbeef, with `n` words to go.
unfoldable pub fill_deadbeef : ℕ → ℕ → (ℕ → ℕ) → ℕ → ℕ
fill_deadbeef zero ptr words = words
fill_deadbeef (suc n) ptr words = fill_deadbeef n (ptr + 4) (update words ptr 0xdeadbeef)

-- The first bit that is clear.
unfoldable pub allocpageref : List Bool → Option ℕ
allocpageref [] = none
allocpageref (false ∷ bs) = some 0
allocpageref (true ∷ bs) = elim (allocpageref bs) [ none ↦ none | some i ↦ some (suc i) ]

unfoldable pub freepageref : ℕ → List Bool → Outcome (List Bool)
freepageref r inuse = do b ← fetch (get_elem? inuse r); assert b; ret (set inuse r false)

unfoldable pub block_from : ℕ → ℕ → ℕ → Outcome ℕ
block_from zero i sz = panic
block_from (suc n) i sz =
    let rest = block_from n (i + 1) sz in if leb sz (sizes i) then ret i else rest

unfoldable pub blocktype : ℕ → Outcome ℕ
blocktype sz = block_from nsizes 0 sz

-- The pageref once the block at its offset is taken; `next` is the word in the block.
abbrev pub taken_ref : ℕ → PageRef → Outcome PageRef
taken_ref next pr =
    let nfree = (pr.nfree + 2 ^ 16 - 1) % 2 ^ 16 in
    let offset = (next + 2 ^ 32 - pr.pageaddr) % 2 ^ 32 in
    if next == 0
    then assert (nfree == 0) >> ret (record pr { nfree = nfree; freelist_offset = invalid_offset })
    else assert (ltb 0 nfree)
      >> (assert (ltb offset page_size)
          >> ret (record pr { nfree = nfree; freelist_offset = offset }))

-- From the label doalloc on.
unfoldable pub take_block : ℕ → Heap → Outcome (ℕ × Heap)
take_block r h = do
  assert (ltb (h.refs r).freelist_offset page_size)
  pr ← taken_ref (h.words ((h.refs r).pageaddr + (h.refs r).freelist_offset)) (h.refs r)
  ret ((h.refs r).pageaddr + (h.refs r).freelist_offset, record h { refs = update h.refs r pr })

-- The loop over the pages of the size, which goes on to `fresh` when none has a free block.
unfoldable pub alloc_in : List ℕ → ℕ → Heap → Outcome (ℕ × Heap) → Outcome (ℕ × Heap)
alloc_in [] blktype h fresh = fresh
alloc_in (r ∷ rs) blktype h fresh =
    let rest = alloc_in rs blktype h fresh in
    assert ((h.refs r).blktype == blktype)
    >> (if ltb 0 (h.refs r).nfree then take_block r h else rest)

-- The loop that links the blocks of a fresh page, with `n` blocks to go.
unfoldable pub link_blocks : ℕ → ℕ → ℕ → ℕ → (ℕ → ℕ) → Outcome (ℕ → ℕ)
link_blocks zero i fla size words = ret words
link_blocks (suc n) i fla size words =
    assert (not (fla + i * size == fla + (i - 1) * size))
    >> link_blocks n (suc i) fla size (update words (fla + i * size) (fla + (i - 1) * size))

-- The page `prpage` is cut into blocks, for the pageref `r`.
unfoldable pub cut_page : ℕ → ℕ → ℕ → Heap → Outcome Heap
cut_page prpage blktype r h = do
  let size = sizes blktype
  let nfree = page_size / size
  words ← link_blocks (nfree - 1) 1 prpage size (update h.words prpage 0)
  ret (record h {
    refs = update h.refs r (record {
      pageaddr = page_frame prpage;
      blktype = blktype;
      freelist_offset = (nfree - 1) * size;
      nfree = nfree;
    });
    sizebases = update h.sizebases blktype (r ∷ h.sizebases blktype);
    allbase = r ∷ h.allbase;
    words = words;
  })

abbrev pub fill_page : ℕ → ℕ → Heap → ℕ × Ram → Outcome (ℕ × Heap)
fill_page blktype r h (prpage, ram) =
    if prpage == 0
    then (do inuse ← freepageref r h.inuse; ret (0, record h { inuse = inuse; ram = ram }))
    else (do h' ← cut_page prpage blktype r (record h { ram = ram }); take_block r h')

-- A page for blocks of the size, and a block of it; 0 is NULL.
abbrev pub alloc_fresh : ℕ → Heap → Option ℕ → Outcome (ℕ × Heap)
alloc_fresh blktype h none = ret (0, h)
alloc_fresh blktype h (some r) =
    fill_page blktype r (record h { inuse = set h.inuse r true }) (alloc_kpages 1 h.ram)

unfoldable pub subpage_kmalloc : ℕ → Heap → Outcome (ℕ × Heap)
subpage_kmalloc sz h = do
  blktype ← blocktype sz
  alloc_in (h.sizebases blktype) blktype h (alloc_fresh blktype h (allocpageref h.inuse))

-- The loop over all the pages for the one that the address is in.
unfoldable pub find_page : ℕ → (ℕ → PageRef) → List ℕ → Outcome (Option ℕ)
find_page ptraddr refs [] = ret none
find_page ptraddr refs (r ∷ rs) =
    let rest = find_page ptraddr refs rs in
    assert (ltb (refs r).blktype nsizes)
    >> (if leb (refs r).pageaddr ptraddr && ltb ptraddr ((refs r).pageaddr + page_size)
        then ret (some r)
        else rest)

unfoldable pub remove : ℕ → List ℕ → List ℕ
remove r [] = []
remove r (x ∷ xs) = let rest = remove r xs in if x == r then xs else x ∷ rest

abbrev pub remove_lists : ℕ → ℕ → Heap → Heap
remove_lists r blktype h = record h {
  sizebases = update h.sizebases blktype (remove r (h.sizebases blktype));
  allbase = remove r h.allbase;
}

-- A page all of whose blocks are free is given up.
abbrev pub give_up : ℕ → ℕ → Heap → Outcome Heap
give_up r blktype h = do
  inuse ← freepageref r h.inuse
  ret (record (remove_lists r blktype h) { inuse = inuse })

-- The block at `ptraddr` goes to the front of the free list of its page.
unfoldable pub put_block : ℕ → ℕ → Heap → Outcome Heap
put_block r ptraddr h =
    let pr = h.refs r in
    let size = sizes pr.blktype in
    let offset = ptraddr - pr.pageaddr in
    let next =
      if pr.freelist_offset == invalid_offset then 0 else pr.pageaddr + pr.freelist_offset in
    let nfree = (pr.nfree + 1) % 2 ^ 16 in
    let words = update (fill_deadbeef (size / 4) ptraddr h.words) ptraddr next in
    let h' = record h {
      words = words;
      refs = update h.refs r (record pr { freelist_offset = offset; nfree = nfree });
    } in
    if not (ltb offset page_size) || not (offset % size == 0)
    then panic
    else assert (leb nfree (page_size / size))
      >> (if nfree == page_size / size then give_up r pr.blktype h' else ret h')

abbrev pub free_on : ℕ → Heap → Option ℕ → Outcome (Bool × Heap)
free_on ptraddr h none = ret (false, h)
free_on ptraddr h (some r) = do h' ← put_block r ptraddr h; ret (true, h')

-- Whether the address is in a page that is cut into blocks: then the block is freed.
unfoldable pub subpage_kfree : ℕ → Heap → Outcome (Bool × Heap)
subpage_kfree ptraddr h = do r ← find_page ptraddr h.refs h.allbase; free_on ptraddr h r

abbrev pub of_ram : Heap → ℕ × Ram → ℕ × Heap
of_ram h (addr, ram) = (addr, record h { ram = ram })

unfoldable pub kmalloc : ℕ → Heap → Outcome (ℕ × Heap)
kmalloc sz h =
    if leb 2048 sz
    then ret (of_ram h (alloc_kpages ((sz + page_size - 1) % 2 ^ 32 / page_size) h.ram))
    else subpage_kmalloc sz h

unfoldable pub kfree : ℕ → Heap → Outcome Heap
kfree ptr h = if ptr == 0 then ret h else do
  (on_page, h') ← subpage_kfree ptr h
  if on_page then ret h' else assert (ptr % page_size == 0) >> ret h'
