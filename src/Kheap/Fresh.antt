-- ===== src/Kheap/Fresh.antt =====
-- A page more for kern/lib/kheap.c.
use mehrad.Base.{
  ℕ, suc, ◌+◌, ◌%◌, ◌^◌, ◌<◌, ◌≤◌, ◌≡◌, ◌≢◌, refl, sym, ap, ◌∙◌, subst, Bool, true, false, ◌⊎◌, inl,
  inr, List, [], ◌∷◌, none, some, ◌==◌, ==_ne, if◌then◌else◌, arith, length, set, get_elem?,
  get_elem?-set_ne, get_elem?-set_self, ℕ_discrete, dec_le,
}
use mehrad.Vm.{Ram, alloc_kpages}
use mehrad.Vm.Frames.{IsRam, steal_fits, steal_fails}
use mehrad.Kheap.{PageRef, Heap, update, allocpageref}
use mehrad.Kheap.Page.{AreDistinct, IsPage}
use mehrad.Kheap.Pages.{IsListed, IsHeap, IsPage-same, unlisted-IsAbsent}

-- The heap with the page of the pageref `pr`, the size of whose blocks is `k`.
abbrev pub with_page : Heap → ℕ → ℕ → PageRef → (ℕ → ℕ) → Heap
with_page h r k pr v = record h {
  inuse = set h.inuse r true;
  refs = update h.refs r pr;
  sizebases = update h.sizebases k (r ∷ h.sizebases k);
  allbase = r ∷ h.allbase;
  words = v;
  ram = record (h.ram) { firstpaddr = (h.ram).firstpaddr + 4096 };
}

module _ (h : Heap) (free : ℕ → List ℕ) (r k : ℕ) (pr : PageRef) (v : ℕ → ℕ) (fs : List ℕ)
    (H : IsHeap h free) (new : (q : ℕ) → IsListed q h.allbase → q ≢ r)
    (in_range : r < length h.inuse) (p : IsPage v pr fs)
    (place : pr.pageaddr ≡ 2 ^ 31 + (h.ram).firstpaddr) (kind : pr.blktype ≡ k)
    (room : (h.ram).firstpaddr + 4096 ≤ (h.ram).lastpaddr)
    (same : (a : ℕ) → (a < pr.pageaddr) ⊎ (pr.pageaddr + 4096 ≤ a) → v a ≡ h.words a) where
  there : (q : ℕ) → IsListed q h.allbase → update h.refs r pr q ≡ h.refs q
  there q l = ap (λ b. if b then pr else h.refs q) (==_ne q r (new q l))

  here : (q : ℕ) → q ≡ r → update h.refs r pr q ≡ pr
  here q e = let t : (q == r) ≡ true = ground arith in ap (λ b. if b then pr else h.refs q) t

  pages_then :
      (q : ℕ)
      → (q ≡ r) ⊎ IsListed q h.allbase
      → IsPage v (update h.refs r pr q) (update free r fs q)
  pages_then q (inl e) =
      let t : (q == r) ≡ true = ground arith in
      subst (λ b. IsPage v (if b then pr else h.refs q) (if b then fs else free q)) (sym t) p
  pages_then q (inr l) =
      subst (λ b. IsPage v (if b then pr else h.refs q) (if b then fs else free q))
        (sym (==_ne q r (new q l)))
        (IsPage-same h.words v (h.refs q) (free q)
          (λ y from to. let b = H.below q l in same y (inl (omega arith))) (H.pages q l))

  abbrev Apart : PageRef → PageRef → Type 0
  Apart a b = (a.pageaddr + 4096 ≤ b.pageaddr) ⊎ (b.pageaddr + 4096 ≤ a.pageaddr)

  Apart-then :
      (q s : ℕ)
      → (q ≡ r) ⊎ IsListed q h.allbase
      → (s ≡ r) ⊎ IsListed s h.allbase
      → q ≢ s
      → Apart (update h.refs r pr q) (update h.refs r pr s)
  Apart-then q s (inl e) (inl f) ne = absurd (ne (e ∙ sym f))
  Apart-then q s (inl e) (inr m) ne =
      let b = H.below s m in
      subst (λ a. Apart a (update h.refs r pr s)) (sym (here q e))
        (subst (Apart pr) (sym (there s m)) (inr (omega arith)))
  Apart-then q s (inr l) (inl f) ne =
      let b = H.below q l in
      subst (λ a. Apart a (update h.refs r pr s)) (sym (there q l))
        (subst (Apart (h.refs q)) (sym (here s f)) (inl (omega arith)))
  Apart-then q s (inr l) (inr m) ne =
      subst (λ a. Apart a (update h.refs r pr s)) (sym (there q l))
        (subst (Apart (h.refs q)) (sym (there s m)) (H.apart q s l m ne))

  sized_then :
      (j q : ℕ)
      → IsListed q (update h.sizebases k (r ∷ h.sizebases k) j)
      → IsListed q (r ∷ h.allbase) × ((update h.refs r pr q).blktype ≡ j)
  unfolding IsListed
  sized_then j q m = elim (ℕ_discrete j k) [
    | yes e ↦
        let t : (j == k) ≡ true = ground arith in
        let m' : (q ≡ r) ⊎ IsListed q (h.sizebases k) =
          subst (λ b. IsListed q (if b then r ∷ h.sizebases k else h.sizebases j)) t m in
        elim m' [
          | inl f ↦ (inl f, ap (λ x. x.blktype) (here q f) ∙ kind ∙ sym e)
          | inr l ↦
              (let (i, f) = H.sized k q l in (inr i, ap (λ x. x.blktype) (there q i) ∙ f ∙ sym e))
        ]
    | no ne ↦
        let l : IsListed q (h.sizebases j) =
          subst (λ b. IsListed q (if b then r ∷ h.sizebases k else h.sizebases j)) (==_ne j k ne)
            m in
        let (i, f) = H.sized j q l in (inr i, ap (λ x. x.blktype) (there q i) ∙ f)
  ]

  bits_then :
      (q : ℕ) → (q ≡ r) ⊎ IsListed q h.allbase → get_elem? (set h.inuse r true) q ≡ some true
  bits_then q (inl e) =
      ap (get_elem? (set h.inuse r true)) e ∙ get_elem?-set_self h.inuse r true in_range
  bits_then q (inr l) = get_elem?-set_ne h.inuse r q true (λ e. new q l (sym e)) ∙ H.bits q l

  below_then :
      (q : ℕ)
      → (q ≡ r) ⊎ IsListed q h.allbase
      → (update h.refs r pr q).pageaddr + 4096 ≤ 2 ^ 31 + ((h.ram).firstpaddr + 4096)
  below_then q (inl e) =
      subst (λ a. a.pageaddr + 4096 ≤ 2 ^ 31 + ((h.ram).firstpaddr + 4096)) (sym (here q e))
        (omega arith)
  below_then q (inr l) =
      let b = H.below q l in
      subst (λ a. a.pageaddr + 4096 ≤ 2 ^ 31 + ((h.ram).firstpaddr + 4096)) (sym (there q l))
        (omega arith)

  distinct_then : (j : ℕ) → AreDistinct (update h.sizebases k (r ∷ h.sizebases k) j)
  unfolding AreDistinct
  distinct_then j = elim (ℕ_discrete j k) [
    | yes e ↦
        (let t : (j == k) ≡ true = ground arith in
          subst (λ b. AreDistinct (if b then r ∷ h.sizebases k else h.sizebases j)) (sym t)
            (
              unlisted-IsAbsent r (h.sizebases k) (λ q l. new q ((H.sized k q l).0)),
              H.once_sized k,
            ))
    | no ne ↦
        subst (λ b. AreDistinct (if b then r ∷ h.sizebases k else h.sizebases j))
          (sym (==_ne j k ne)) (H.once_sized j)
  ]

  pub IsHeap-with_page : IsHeap (with_page h r k pr v) (update free r fs)
  unfolding IsListed AreDistinct
  IsHeap-with_page =
      let m = H.memory in
      let a = m.some_used in
      let c = m.aligned in
      record {
        pages = pages_then;
        apart = Apart-then;
        sized = sized_then;
        bits = bits_then;
        below = below_then;
        memory = record {
          some_used = omega arith;
          aligned = omega arith;
          ordered = room;
          small = m.small;
        };
        once = (unlisted-IsAbsent r h.allbase new, H.once);
        once_sized = distinct_then;
      }

-- The pageref that is found is one that is not in use.
pub allocpageref_lem :
    (bs : List Bool)
    → (allocpageref bs ≡ none)
      ⊎ ((r : ℕ) × (allocpageref bs ≡ some r) × (get_elem? bs r ≡ some false) × (r < length bs))
unfolding allocpageref
allocpageref_lem [] = inl refl
allocpageref_lem (false ∷ bs) = inr (0, refl, refl, omega arith)
allocpageref_lem (true ∷ bs) = elim (allocpageref_lem bs) [
  | inl e ↦ inl (rw e refl)
  | inr (r, e, g, l) ↦ inr (suc r, rw e refl, g, omega arith)
]

-- One page from the machine.
pub alloc_kpages_one :
    (ram : Ram)
    → IsRam ram
    → ((ram.firstpaddr + 4096 ≤ ram.lastpaddr)
        × (alloc_kpages 1 ram
            ≡ (2 ^ 31 + ram.firstpaddr, record ram { firstpaddr = ram.firstpaddr + 4096 })))
      ⊎ (alloc_kpages 1 ram ≡ (0, ram))
unfolding alloc_kpages
alloc_kpages_one ram m =
    let a = m.some_used in
    let c = m.small in
    elim (dec_le (ram.firstpaddr + 4096) ram.lastpaddr) [
      | yes l ↦
          let e : (ram.firstpaddr + 2147483648) % 2 ^ 32 ≡ 2 ^ 31 + ram.firstpaddr = omega arith in
          inl (
            l,
            rw (steal_fits 1 ram c l) (rw (==_ne ram.firstpaddr 0 (λ z. omega arith)) (rw e refl)),
          )
      | no g ↦ inr (rw (steal_fails 1 ram c m.ordered (omega arith) (omega arith)) refl)
    ]
