-- ===== src/Vm/Coherence.antt =====
-- The TLB as the kernel runs in one address space: as_activate and vm_fault of
-- kern/arch/mips/mips/dumbvm.c, called as the processor calls them.
use mathlib.Core.Option.{some-injective}
use mehrad.Base.{
  ℕ, zero, suc, ◌+◌, ◌≡◌, ◌≢◌, refl, sym, ap, ◌∙◌, subst, true, false, ◌⊎◌, inl, inr, List, [], ◌∷◌,
  some, Outcome, ret, panic, Code, arith, get_elem?, set,
}
use mehrad.Vm.{Addrspace, page_frame}
use mehrad.Vm.Fault.{
  TlbEntry, Mmu, is_valid, invalidate_from, as_activate, translate, entry_for, vm_fault,
}
use mehrad.Vm.Answers.{
  Answered, vm_fault_lem, readonly_fault, unknown_fault, no_space, not_set_up, unmapped, tlb_full,
  mapped,
}

-- The processor faults when no valid entry is for the page.
abbrev pub IsMiss : List TlbEntry → ℕ → Type 0
IsMiss tlb page =
    (j : ℕ) (e : TlbEntry) → get_elem? tlb j ≡ some e → is_valid e ≡ true → e.ehi ≢ page

-- The TLBs that come up while the address space `s` is the current one.
pub data Reachable (s : Addrspace) : Mmu → Type 0 where
  activated : (mmu : Mmu) → Reachable s (as_activate mmu)
  faulted :
      (mmu mmu' : Mmu) (ty a : ℕ) (c : Code)
      → Reachable s mmu
      → IsMiss mmu.tlb (page_frame a)
      → vm_fault ty a (some s) mmu ≡ ret (c, mmu')
      → Reachable s mmu'

-- The valid entries are for pages of `s`, at their frames, and there is one for a page at most.
pub record IsCoherent (s : Addrspace) (tlb : List TlbEntry) : Type 0 where
  pub leads :
      (j : ℕ) (e : TlbEntry)
      → get_elem? tlb j ≡ some e
      → is_valid e ≡ true
      → (p : ℕ) × (translate s e.ehi ≡ some p) × (e ≡ entry_for e.ehi p)
  pub once :
      (j k : ℕ) (d e : TlbEntry)
      → get_elem? tlb j ≡ some d
      → get_elem? tlb k ≡ some e
      → is_valid d ≡ true
      → is_valid e ≡ true
      → d.ehi ≡ e.ehi
      → j ≡ k

pub none_valid :
    (i : ℕ) (tlb : List TlbEntry) (j : ℕ) (e : TlbEntry)
    → get_elem? (invalidate_from i tlb) j ≡ some e
    → is_valid e ≡ false
unfolding invalidate_from
none_valid i [] j e h = absurd (cc h)
none_valid i (d ∷ ds) zero e h = ap is_valid (some-injective _ _ (sym h))
none_valid i (d ∷ ds) (suc j) e h = none_valid (i + 1) ds j e h

activated-IsCoherent : (s : Addrspace) (mmu : Mmu) → IsCoherent s (as_activate mmu).tlb
unfolding as_activate
activated-IsCoherent s mmu = record {
  leads = λ j e h v. absurd (let n = none_valid 0 mmu.tlb j e h in cc (n, v));
  once = λ j k d e h l v w q. absurd (let n = none_valid 0 mmu.tlb j d h in cc (n, v));
}

-- An entry of a list in which one place has been set.
set_cases :
    (tlb : List TlbEntry) (i : ℕ) (new : TlbEntry) (j : ℕ) (e : TlbEntry)
    → get_elem? (set tlb i new) j ≡ some e
    → ((j ≡ i) × (e ≡ new)) ⊎ ((j ≢ i) × (get_elem? tlb j ≡ some e))
set_cases [] i new j e h = absurd (cc h)
set_cases (d ∷ ds) zero new zero e h = inl (refl, some-injective _ _ (sym h))
set_cases (d ∷ ds) zero new (suc j) e h = inr (λ z. omega arith, h)
set_cases (d ∷ ds) (suc i) new zero e h = inr (λ z. omega arith, h)
set_cases (d ∷ ds) (suc i) new (suc j) e h = elim (set_cases ds i new j e h) [
  | inl (p, q) ↦ inl (ap suc p, q)
  | inr (p, q) ↦ inr (λ z. p (omega arith), q)
]

mapped-IsCoherent :
    (s : Addrspace) (tlb : List TlbEntry) (i page p : ℕ)
    → IsCoherent s tlb
    → IsMiss tlb page
    → translate s page ≡ some p
    → IsCoherent s (set tlb i (entry_for page p))
mapped-IsCoherent s tlb i page p c miss t = record {
  leads = λ j e h v. elim (set_cases tlb i (entry_for page p) j e h) [
    | inl (at, q) ↦ (p, ap (λ d. translate s d.ehi) q ∙ t, q ∙ ap (λ d. entry_for d.ehi p) (sym q))
    | inr (off, h') ↦ c.leads j e h' v
  ];
  once = λ j k d e h l v w q.
      both j k d e (set_cases tlb i (entry_for page p) j d h)
        (set_cases tlb i (entry_for page p) k e l) v w q;
}
  where
    both :
        (j k : ℕ) (d e : TlbEntry)
        → ((j ≡ i) × (d ≡ entry_for page p)) ⊎ ((j ≢ i) × (get_elem? tlb j ≡ some d))
        → ((k ≡ i) × (e ≡ entry_for page p)) ⊎ ((k ≢ i) × (get_elem? tlb k ≡ some e))
        → is_valid d ≡ true
        → is_valid e ≡ true
        → d.ehi ≡ e.ehi
        → j ≡ k
    both j k d e (inl (x, _)) (inl (y, _)) v w q = x ∙ sym y
    both j k d e (inl (x, f)) (inr (y, g)) v w q = absurd (miss k e g w (sym q ∙ ap (λ d. d.ehi) f))
    both j k d e (inr (x, f)) (inl (y, g)) v w q = absurd (miss j d f v (q ∙ ap (λ d. d.ehi) g))
    both j k d e (inr (x, f)) (inr (y, g)) v w q = c.once j k d e f g v w q

-- A result of vm_fault whose TLB, if it has one, is coherent.
abbrev KeepsCoherent : Addrspace → Outcome (Code × Mmu) → Type 0
KeepsCoherent s panic = Unit {0}
KeepsCoherent s (ret (c, mmu)) = IsCoherent s mmu.tlb

fault-KeepsCoherent :
    (s : Addrspace) (a : ℕ) (mmu : Mmu) (ty : ℕ) (r : Outcome (Code × Mmu))
    → Answered (some s) a mmu ty r
    → IsCoherent s mmu.tlb
    → IsMiss mmu.tlb (page_frame a)
    → KeepsCoherent s r
fault-KeepsCoherent s a mmu ty r (readonly_fault e) c miss = tt
fault-KeepsCoherent s a mmu ty r (unknown_fault l) c miss = c
fault-KeepsCoherent s a mmu ty r (no_space l e) c miss = c
fault-KeepsCoherent s a mmu ty r (not_set_up v l e f) c miss = tt
fault-KeepsCoherent s a mmu ty r (unmapped v l e f g) c miss = c
fault-KeepsCoherent s a mmu ty r (tlb_full v p l e f g h) c miss = c
fault-KeepsCoherent s a mmu ty r (mapped v p i l e f g h k) c miss =
    mapped-IsCoherent s mmu.tlb i (page_frame a) p c miss
      (ap (λ v. translate v (page_frame a)) (some-injective _ _ e) ∙ g)

-- From as_activate on, as long as the processor calls vm_fault only for pages that no valid entry is
-- for: each valid entry of the TLB leads from a page of the address space to its frame, writable, and
-- no page has two.
pub tlb-IsCoherent : (s : Addrspace) (mmu : Mmu) → Reachable s mmu → IsCoherent s mmu.tlb
tlb-IsCoherent s mmu (activated m) = activated-IsCoherent s m
tlb-IsCoherent s mmu (faulted m m' ty a c r miss e) = subst (KeepsCoherent s) e (
    fault-KeepsCoherent s a m ty (vm_fault ty a (some s) m) (vm_fault_lem (some s) a m ty)
      (tlb-IsCoherent s m r) miss)
