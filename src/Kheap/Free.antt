-- ===== src/Kheap/Free.antt =====
-- subpage_kfree of kern/lib/kheap.c on the whole heap.
use mehrad.Base.{
  set, ℕ, ◌+◌, ◌/◌, ◌<◌, ◌≤◌, ◌≡◌, ◌≢◌, refl, sym, ap, subst, true, false, ◌&&◌, ◌⊎◌, inl, inr,
  List, [], ◌∷◌, none, some, ret, ltb, leb, lt→ltb, ◌==◌, if◌then◌else◌, arith, length, ℕ_discrete,
}
use mehrad.Kheap.{remove, Heap, sizes, update, find_page, subpage_kfree}
use mehrad.Kheap.Page.{IsPage, IsBlock, IsAbsent}
use mehrad.Kheap.Sizes.{block_end}
use mehrad.Kheap.Pages.{IsListed, IsHeap}
use mehrad.Kheap.Put.{put_block_lem, words_after, freed_ref, after_free}
use mehrad.Kheap.Changes.{IsHeap-update, IsHeap-give_up}

abbrev pub IsInPage : ℕ → ℕ → Type 0
IsInPage page a = (page ≤ a) × (a < page + 4096)

in_page : (page a : ℕ) → IsInPage page a → (leb page a && ltb a (page + 4096)) ≡ true
in_page page a (l, u) = ground arith

not_in_page :
    (page a : ℕ) → (a < page) ⊎ (page + 4096 ≤ a) → (leb page a && ltb a (page + 4096)) ≡ false
not_in_page page a (inl l) = ground arith
not_in_page page a (inr l) = ground arith

find_page_lem :
    (h : Heap) (free : ℕ → List ℕ) (r a : ℕ) (rs : List ℕ)
    → IsHeap h free
    → ((q : ℕ) → IsListed q rs → IsListed q h.allbase)
    → IsListed r rs
    → IsInPage (h.refs r).pageaddr a
    → find_page a h.refs rs ≡ ret (some r)
unfolding find_page IsListed
find_page_lem h free r a [] H all l i = absurd l
find_page_lem h free r a (q ∷ rs) H all l i = elim (ℕ_discrete q r) [
  | yes e ↦
      let kind = (H.pages q (all q (inl refl))).kind in
      let here =
        in_page (h.refs q).pageaddr a (subst (λ q. IsInPage (h.refs q).pageaddr a) (sym e) i) in
      rw (lt→ltb (h.refs q).blktype 8 kind) (rw here (ap (λ q. ret (some q)) e))
  | no ne ↦
      let kind = (H.pages q (all q (inl refl))).kind in
      let rest : IsListed r rs = later l ne in
      let elsewhere = not_in_page (h.refs q).pageaddr a (
        off (h.refs q).pageaddr (h.refs r).pageaddr i
          (H.apart q r (all q (inl refl)) (all r l) ne)) in
      rw (lt→ltb (h.refs q).blktype 8 kind)
        (rw elsewhere (find_page_lem h free r a rs H (λ s m. all s (inr m)) rest i))
]
  where
    later : (r ≡ q) ⊎ IsListed r rs → q ≢ r → IsListed r rs
    later (inl e) ne = absurd (ne (sym e))
    later (inr m) ne = m

    off : (p o : ℕ) → IsInPage o a → (p + 4096 ≤ o) ⊎ (o + 4096 ≤ p) → (a < p) ⊎ (p + 4096 ≤ a)
    off p o (f, t) (inl m) = inr (omega arith)
    off p o (f, t) (inr m) = inl (omega arith)

not_found :
    (h : Heap) (free : ℕ → List ℕ) (a : ℕ) (rs : List ℕ)
    → IsHeap h free
    → ((q : ℕ) → IsListed q rs → IsListed q h.allbase)
    → ((q : ℕ) → IsListed q rs → (a < (h.refs q).pageaddr) ⊎ ((h.refs q).pageaddr + 4096 ≤ a))
    → find_page a h.refs rs ≡ ret none
unfolding find_page IsListed
not_found h free a [] H all out = refl
not_found h free a (q ∷ rs) H all out =
    rw (lt→ltb (h.refs q).blktype 8 (H.pages q (all q (inl refl))).kind) (
      rw (not_in_page (h.refs q).pageaddr a (out q (inl refl)))
        (not_found h free a rs H (λ s m. all s (inr m)) (λ s m. out s (inr m))))

-- An address that is in none of the pages is not subpage_kfree's, which returns -1 and changes nothing.
pub subpage_kfree_elsewhere :
    (h : Heap) (free : ℕ → List ℕ) (x : ℕ)
    → IsHeap h free
    → ((q : ℕ)
        → IsListed q h.allbase
        → (x < (h.refs q).pageaddr) ⊎ ((h.refs q).pageaddr + 4096 ≤ x))
    → subpage_kfree x h ≡ ret (false, h)
unfolding subpage_kfree
subpage_kfree_elsewhere h free x H out = rw (not_found h free x h.allbase H (λ q m. m) out) refl

-- What becomes of the page: it stays on the lists, if a block of it is in use still, or is taken off them, and
-- its pageref is free, if all of its blocks are free.
pub data Kept (h h' : Heap) (r : ℕ) (blocks : List ℕ) : Type 0 where
  stays :
      length blocks < 4096 / sizes (h.refs r).blktype
      → h'.allbase ≡ h.allbase
      → h'.sizebases ≡ h.sizebases
      → h'.inuse ≡ h.inuse
      → IsListed r h'.allbase
      → Kept h h' r blocks
  goes :
      length blocks ≡ 4096 / sizes (h.refs r).blktype
      → h'.allbase ≡ remove r h.allbase
      → h'.sizebases (h.refs r).blktype ≡ remove r (h.sizebases (h.refs r).blktype)
      → h'.inuse ≡ set h.inuse r false
      → Kept h h' r blocks

-- On a well-formed heap, a block of a page that is not free, on a page that has one in use, is freed:
-- subpage_kfree finds its page and puts it in front of the page's free blocks; the page stays on the lists as
-- they are, unless all of its blocks are free then: in that case, and only then, it is taken off them, and its
-- pageref is free. The heap stays well formed, and no word outside of the block is written.
pub subpage_kfree_lem :
    (h : Heap) (free : ℕ → List ℕ) (x r : ℕ)
    → IsHeap h free
    → IsListed r h.allbase
    → IsBlock (h.refs r).pageaddr (sizes (h.refs r).blktype) x
    → IsAbsent x (free r)
    → length (free r) < 4096 / sizes (h.refs r).blktype
    → (h' : Heap) × (subpage_kfree x h ≡ ret (true, h'))
      × IsHeap h' (update free r (x ∷ free r))
      × IsPage h'.words (h'.refs r) (x ∷ free r)
      × Kept h h' r (x ∷ free r)
      × ((a : ℕ) → (a < x) ⊎ (x + sizes (h.refs r).blktype ≤ a) → h'.words a ≡ h.words a)
unfolding subpage_kfree
subpage_kfree_lem h free x r H l b n room =
    let p = H.pages r l in
    let found = find_page_lem h free r x h.allbase H (λ q m. m) l (b.from, b.to) in
    let (q, same, how) = put_block_lem h r x (free r) p b n room (H.bits r l) in
    let from = b.from in
    let end = block_end (h.refs r).pageaddr x (h.refs r).blktype p.kind b in
    let H' =
      IsHeap-update h r (freed_ref (h.refs r) x (free r)) refl refl free (words_after h r x)
        (x ∷ free r) H l q
        (λ a o. same a (beyond (h.refs r).pageaddr (sizes (h.refs r).blktype) a from end o)) in
    elim how [
      | inl (some_used, e) ↦ (
        after_free h r x (free r),
        rw found (rw e refl),
        H',
        subst (λ a. IsPage (words_after h r x) a (x ∷ free r)) (sym at_r) q,
        stays some_used refl refl refl l,
        same,
      )
      | inr (all_free, e) ↦ (
        _,
        rw found (rw e refl),
        IsHeap-give_up (after_free h r x (free r)) (update free r (x ∷ free r)) r (h.refs r).blktype
            H' kind_kept,
        subst (λ a. IsPage (words_after h r x) a (x ∷ free r)) (sym at_r) q,
        goes all_free refl off_size refl,
        same,
      )
    ]
  where
    beyond :
        (page size a : ℕ)
        → page ≤ x
        → x + size ≤ page + 4096
        → (a < page) ⊎ (page + 4096 ≤ a)
        → (a < x) ⊎ (x + size ≤ a)
    beyond page size a f e (inl m) = inl (omega arith)
    beyond page size a f e (inr m) = inr (omega arith)

    kind_kept : (update h.refs r (freed_ref (h.refs r) x (free r)) r).blktype ≡ (h.refs r).blktype
    kind_kept =
        let t : (r == r) ≡ true = ground arith in
        ap (λ b. (if b then freed_ref (h.refs r) x (free r) else h.refs r).blktype) t

    at_r : update h.refs r (freed_ref (h.refs r) x (free r)) r ≡ freed_ref (h.refs r) x (free r)
    at_r =
        let t : (r == r) ≡ true = ground arith in
        ap (λ b. if b then freed_ref (h.refs r) x (free r) else h.refs r) t

    off_size :
        update h.sizebases
          (h.refs r).blktype
          (remove r (h.sizebases (h.refs r).blktype))
          (h.refs r).blktype
        ≡ remove r (h.sizebases (h.refs r).blktype)
    off_size =
        let t : ((h.refs r).blktype == (h.refs r).blktype) ≡ true = ground arith in
        ap
          (λ b.
            if b then remove r (h.sizebases (h.refs r).blktype) else h.sizebases (h.refs r).blktype)
          t
