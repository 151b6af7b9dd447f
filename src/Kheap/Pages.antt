-- ===== src/Kheap/Pages.antt =====
-- All the pages of kern/lib/kheap.c: what the lists and the bits of the pagerefs have to do with them.
use mehrad.Base.{
  ℕ, ◌+◌, ◌^◌, ◌<◌, ◌≤◌, ◌≡◌, ◌≢◌, refl, sym, ◌∙◌, subst, true, ◌⊎◌, inl, inr, List, [], ◌∷◌, some,
  ◌==◌, ==_ne, if◌then◌else◌, arith, get_elem?, ℕ_discrete,
}
use mehrad.Vm.Frames.{IsRam}
use mehrad.Kheap.{PageRef, Heap, sizes, remove}
use mehrad.Kheap.Page.{IsChain, AreBlocks, IsAbsent, AreDistinct, IsPage, first_free}

unfoldable pub IsListed : ℕ → List ℕ → Type 0
IsListed r [] = ⊥
IsListed r (x ∷ xs) = (r ≡ x) ⊎ IsListed r xs

-- The pages are apart from each other, below the memory that is free, and in use; the lists of the
-- sizes hold pages of the size. `free` tells the free blocks of each.
pub record IsHeap (h : Heap) (free : ℕ → List ℕ) : Type 0 where
  pub pages : (r : ℕ) → IsListed r h.allbase → IsPage h.words (h.refs r) (free r)
  pub apart :
      (r s : ℕ)
      → IsListed r h.allbase
      → IsListed s h.allbase
      → r ≢ s
      → ((h.refs r).pageaddr + 4096 ≤ (h.refs s).pageaddr)
        ⊎ ((h.refs s).pageaddr + 4096 ≤ (h.refs r).pageaddr)
  pub sized :
      (k r : ℕ) → IsListed r (h.sizebases k) → IsListed r h.allbase × ((h.refs r).blktype ≡ k)
  pub bits : (r : ℕ) → IsListed r h.allbase → get_elem? h.inuse r ≡ some true
  pub below :
      (r : ℕ) → IsListed r h.allbase → (h.refs r).pageaddr + 4096 ≤ 2 ^ 31 + (h.ram).firstpaddr
  pub memory : IsRam h.ram
  pub once : AreDistinct h.allbase
  pub once_sized : (k : ℕ) → AreDistinct (h.sizebases k)

IsChain-same :
    (page size : ℕ) (w v : ℕ → ℕ) (a : ℕ) (xs : List ℕ)
    → ((y : ℕ) → page ≤ y → y < page + 4096 → v y ≡ w y)
    → AreBlocks page size xs
    → IsChain w a xs
    → IsChain v a xs
unfolding IsChain AreBlocks
IsChain-same page size w v a [] same bs c = c
IsChain-same page size w v a (y ∷ ys) same (b, bs) (e, c) =
    (e, rw (same y b.from b.to) (IsChain-same page size w v (w y) ys same bs c))

-- A page none of whose words is written stays as it is.
pub IsPage-same :
    (w v : ℕ → ℕ) (pr : PageRef) (free : List ℕ)
    → ((y : ℕ) → pr.pageaddr ≤ y → y < pr.pageaddr + 4096 → v y ≡ w y)
    → IsPage w pr free
    → IsPage v pr free
IsPage-same w v pr free same p = record {
  kind = p.kind;
  placed = p.placed;
  kernel = p.kernel;
  within = p.within;
  offset = p.offset;
  chain =
      IsChain-same pr.pageaddr (sizes pr.blktype) w v (first_free pr) free same p.blocks p.chain;
  count = p.count;
  few = p.few;
  blocks = p.blocks;
  distinct = p.distinct;
}

pub IsAbsent-IsListed : (r q : ℕ) (xs : List ℕ) → IsAbsent r xs → IsListed q xs → q ≢ r
unfolding IsAbsent IsListed
IsAbsent-IsListed r q [] n l e = l
IsAbsent-IsListed r q (x ∷ xs) (ne, n) (inl m) e = ne (sym e ∙ m)
IsAbsent-IsListed r q (x ∷ xs) (ne, n) (inr m) e = IsAbsent-IsListed r q xs n m e

pub unlisted-IsAbsent : (r : ℕ) (xs : List ℕ) → ((q : ℕ) → IsListed q xs → q ≢ r) → IsAbsent r xs
unfolding IsAbsent IsListed
unlisted-IsAbsent r [] n = tt
unlisted-IsAbsent r (x ∷ xs) n =
    (λ e. n x (inl refl) (sym e), unlisted-IsAbsent r xs (λ q l. n q (inr l)))

pub IsListed-remove :
    (r q : ℕ) (xs : List ℕ) → AreDistinct xs → IsListed q (remove r xs) → IsListed q xs × (q ≢ r)
unfolding IsListed remove AreDistinct
IsListed-remove r q [] d l = absurd l
IsListed-remove r q (x ∷ xs) (n, d) l = elim (ℕ_discrete x r) [
  | yes e ↦
      let there : IsListed q xs =
        subst (λ b. IsListed q (if b then xs else x ∷ remove r xs)) (same e) l in
      (inr there, λ m. IsAbsent-IsListed x q xs n there (m ∙ sym e))
  | no ne ↦
      let there : (q ≡ x) ⊎ IsListed q (remove r xs) =
        subst (λ b. IsListed q (if b then xs else x ∷ remove r xs)) (==_ne x r ne) l in
      elim there [
        | inl m ↦ (inl m, λ e. ne (sym m ∙ e))
        | inr m ↦ (let (i, j) = IsListed-remove r q xs d m in (inr i, j))
      ]
]
  where
    same : x ≡ r → (x == r) ≡ true
    same e = ground arith

pub remove-IsAbsent : (r x : ℕ) (xs : List ℕ) → IsAbsent x xs → IsAbsent x (remove r xs)
unfolding IsAbsent remove
remove-IsAbsent r x [] n = tt
remove-IsAbsent r x (y ∷ ys) (ne, n) = elim (ℕ_discrete y r) [
  | yes e ↦ (let t : (y == r) ≡ true = ground arith in rw t n)
  | no z ↦ rw (==_ne y r z) (ne, remove-IsAbsent r x ys n)
]

pub remove-AreDistinct : (r : ℕ) (xs : List ℕ) → AreDistinct xs → AreDistinct (remove r xs)
unfolding AreDistinct remove
remove-AreDistinct r [] d = tt
remove-AreDistinct r (y ∷ ys) (n, d) = elim (ℕ_discrete y r) [
  | yes e ↦ (let t : (y == r) ≡ true = ground arith in rw t d)
  | no z ↦ rw (==_ne y r z) (remove-IsAbsent r y ys n, remove-AreDistinct r ys d)
]

pub IsListed-kept : (r q : ℕ) (xs : List ℕ) → IsListed q xs → q ≢ r → IsListed q (remove r xs)
unfolding IsListed remove
IsListed-kept r q [] l n = l
IsListed-kept r q (x ∷ xs) l n = elim (ℕ_discrete x r) [
  | yes e ↦
      (let t : (x == r) ≡ true = ground arith in
        elim l [ inl m ↦ absurd (n (m ∙ e)) | inr m ↦ rw t m ])
  | no z ↦ rw (==_ne x r z) (elim l [ inl m ↦ inl m | inr m ↦ inr (IsListed-kept r q xs m n) ])
]
