-- ===== src/Kheap/Changes.antt =====
-- The ways in which the pages of kern/lib/kheap.c change, each of which keeps them well formed.
use mehrad.Base.{
  ℕ, ◌+◌, ◌^◌, ◌<◌, ◌≤◌, ◌≡◌, sym, ap, ◌∙◌, subst, true, false, ◌⊎◌, inl, inr, List, ◌==◌, ==_ne,
  if◌then◌else◌, arith, set, get_elem?-set_ne, ℕ_discrete,
}
use mehrad.Kheap.{PageRef, Heap, update, remove, remove_lists}
use mehrad.Kheap.Page.{AreDistinct, IsPage}
use mehrad.Kheap.Pages.{
  IsListed, IsHeap, IsPage-same, IsListed-remove, remove-AreDistinct, IsListed-kept,
}

-- A pageref that is written anew, and that keeps its page and its size.
module _ (h : Heap) (r : ℕ) (pr : PageRef) (place : pr.pageaddr ≡ (h.refs r).pageaddr)
    (kind : pr.blktype ≡ (h.refs r).blktype) where
  same_place : (s : ℕ) → (update h.refs r pr s).pageaddr ≡ (h.refs s).pageaddr
  same_place s = elim (ℕ_discrete s r) [
    | yes e ↦
        (let t : (s == r) ≡ true = ground arith in
          ap (λ b. (if b then pr else h.refs s).pageaddr) t
          ∙ place
          ∙ ap (λ s. (h.refs s).pageaddr) (sym e))
    | no ne ↦ ap (λ b. (if b then pr else h.refs s).pageaddr) (==_ne s r ne)
  ]

  same_kind : (s : ℕ) → (update h.refs r pr s).blktype ≡ (h.refs s).blktype
  same_kind s = elim (ℕ_discrete s r) [
    | yes e ↦
        (let t : (s == r) ≡ true = ground arith in
          ap (λ b. (if b then pr else h.refs s).blktype) t
          ∙ kind
          ∙ ap (λ s. (h.refs s).blktype) (sym e))
    | no ne ↦ ap (λ b. (if b then pr else h.refs s).blktype) (==_ne s r ne)
  ]

  pub IsHeap-update :
      (free : ℕ → List ℕ) (v : ℕ → ℕ) (fs : List ℕ)
      → IsHeap h free
      → IsListed r h.allbase
      → IsPage v pr fs
      → ((a : ℕ) → (a < pr.pageaddr) ⊎ (pr.pageaddr + 4096 ≤ a) → v a ≡ h.words a)
      → IsHeap (record h { words = v; refs = update h.refs r pr }) (update free r fs)
  IsHeap-update free v fs H l p same = record {
    pages = λ s m. elim (ℕ_discrete s r) [
      | yes e ↦
          (let t : (s == r) ≡ true = ground arith in
            subst (λ b. IsPage v (if b then pr else h.refs s) (if b then fs else free s)) (sym t) p)
      | no ne ↦
          subst (λ b. IsPage v (if b then pr else h.refs s) (if b then fs else free s))
            (sym (==_ne s r ne))
            (IsPage-same h.words v (h.refs s) (free s)
              (λ y from to. same y (elsewhere s y (H.apart s r m l ne) from to)) (H.pages s m))
    ];
    apart = λ s q m n ne.
        subst
          (λ a.
            (a + 4096 ≤ (update h.refs r pr q).pageaddr)
            ⊎ ((update h.refs r pr q).pageaddr + 4096 ≤ a))
          (sym (same_place s))
          (subst (λ b. ((h.refs s).pageaddr + 4096 ≤ b) ⊎ (b + 4096 ≤ (h.refs s).pageaddr))
            (sym (same_place q)) (H.apart s q m n ne));
    sized = λ k s m. (let (i, e) = H.sized k s m in (i, same_kind s ∙ e));
    bits = H.bits;
    below = λ s m.
        subst (λ a. a + 4096 ≤ 2 ^ 31 + (h.ram).firstpaddr) (sym (same_place s)) (H.below s m);
    memory = H.memory;
    once = H.once;
    once_sized = H.once_sized;
  }
    where
      elsewhere :
          (s y : ℕ)
          → ((h.refs s).pageaddr + 4096 ≤ (h.refs r).pageaddr)
            ⊎ ((h.refs r).pageaddr + 4096 ≤ (h.refs s).pageaddr)
          → (h.refs s).pageaddr ≤ y
          → y < (h.refs s).pageaddr + 4096
          → (y < pr.pageaddr) ⊎ (pr.pageaddr + 4096 ≤ y)
      elsewhere s y (inl o) from to = inl (omega arith)
      elsewhere s y (inr o) from to = inr (omega arith)

-- A page that is given up.
pub IsHeap-give_up :
    (h : Heap) (free : ℕ → List ℕ) (r k : ℕ)
    → IsHeap h free
    → (h.refs r).blktype ≡ k
    → IsHeap (record (remove_lists r k h) { inuse = set h.inuse r false }) free
IsHeap-give_up h free r k H kind = record {
  pages = λ s m. H.pages s (was s m);
  apart = λ s q m n. H.apart s q (was s m) (was q n);
  sized = λ j s m. sized_then j s m;
  bits = λ s m.
      (let (i, ne) = IsListed-remove r s h.allbase H.once m in
        get_elem?-set_ne h.inuse r s false (λ e. ne (sym e)) ∙ H.bits s i);
  below = λ s m. H.below s (was s m);
  memory = H.memory;
  once = remove-AreDistinct r h.allbase H.once;
  once_sized = λ j. once_then j;
}
  where
    was : (s : ℕ) → IsListed s (remove r h.allbase) → IsListed s h.allbase
    was s m = (IsListed-remove r s h.allbase H.once m).0

    sized_then :
        (j s : ℕ)
        → IsListed s (update h.sizebases k (remove r (h.sizebases k)) j)
        → IsListed s (remove r h.allbase) × ((h.refs s).blktype ≡ j)
    sized_then j s m = elim (ℕ_discrete j k) [
      | yes e ↦
          let t : (j == k) ≡ true = ground arith in
          let m' : IsListed s (remove r (h.sizebases k)) =
            subst (λ b. IsListed s (if b then remove r (h.sizebases k) else h.sizebases j)) t m in
          let (i, ne) = IsListed-remove r s (h.sizebases k) (H.once_sized k) m' in
          let (l, f) = H.sized k s i in (IsListed-kept r s h.allbase l ne, f ∙ sym e)
      | no ne ↦
          let m' : IsListed s (h.sizebases j) =
            subst (λ b. IsListed s (if b then remove r (h.sizebases k) else h.sizebases j))
              (==_ne j k ne) m in
          let (l, f) = H.sized j s m' in
          (
            IsListed-kept r s h.allbase l (λ e. ne (sym f ∙ ap (λ s. (h.refs s).blktype) e ∙ kind)),
            f,
          )
    ]

    once_then : (j : ℕ) → AreDistinct (update h.sizebases k (remove r (h.sizebases k)) j)
    once_then j = elim (ℕ_discrete j k) [
      | yes e ↦
          (let t : (j == k) ≡ true = ground arith in
            subst (λ b. AreDistinct (if b then remove r (h.sizebases k) else h.sizebases j)) (sym t)
              (remove-AreDistinct r (h.sizebases k) (H.once_sized k)))
      | no ne ↦
          subst (λ b. AreDistinct (if b then remove r (h.sizebases k) else h.sizebases j))
            (sym (==_ne j k ne)) (H.once_sized j)
    ]
