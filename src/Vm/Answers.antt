-- ===== src/Vm/Answers.antt =====
-- How vm_fault of kern/arch/mips/mips/dumbvm.c answers.
use mathlib.Core.Option.{some-injective}
use mehrad.Base.{
  ℕ, zero, suc, ◌%◌, ◌<◌, ◌≡◌, refl, sym, ap, ◌∙◌, true, false, ◌⊎◌, inl, inr, List, [], ◌∷◌,
  Option, some, none, Outcome, ret, panic, Code, success, einval, efault, ==_ne, lt→ltb, le→ltb,
  ◌==◌, dec_lt, ℕ_discrete, arith, Bool-cases, Option-cases, get_elem?, set,
}
use mehrad.Vm.{Addrspace, page_frame}
use mehrad.Vm.Fault.{
  TlbEntry, Mmu, is_valid, as_checks, translate, load_entry, entry_for, load_page, fault_in,
  vm_fault, spl_high,
}
use mehrad.Vm.Isolation.{translate_cases}

-- The entries before `i` are valid, and the entry `i` is not.
pub record IsFirstInvalid (tlb : List TlbEntry) (i : ℕ) : Type 0 where
  pub before : (j : ℕ) (e : TlbEntry) → j < i → get_elem? tlb j ≡ some e → is_valid e ≡ true
  pub invalid : (e : TlbEntry) × (get_elem? tlb i ≡ some e) × (is_valid e ≡ false)

-- All the entries are valid.
abbrev pub IsFull : List TlbEntry → Type 0
IsFull tlb = (j : ℕ) (e : TlbEntry) → get_elem? tlb j ≡ some e → is_valid e ≡ true

load_entry_lem :
    (new : TlbEntry) (tlb : List TlbEntry)
    → (IsFull tlb × (load_entry new tlb ≡ none))
      ⊎ ((i : ℕ) × IsFirstInvalid tlb i × (load_entry new tlb ≡ some (set tlb i new)))
unfolding load_entry
load_entry_lem new [] = inl (λ j e h. absurd (cc h), refl)
load_entry_lem new (e ∷ es) = elim (Bool-cases (is_valid e)) [
  | inr v ↦
      inr (0, record { before = λ j d h. absurd (omega arith); invalid = (e, refl, v) }, rw v refl)
  | inl v ↦ elim (load_entry_lem new es) [
    | inl (all, r) ↦ inl (full_cons e es v all, rw v (rw r refl))
    | inr (i, f, r) ↦ inr (
      suc i,
      record { before = earlier e es i v f.before; invalid = f.invalid },
      rw v (rw r refl),
    )
  ]
]
  where
    full_cons :
        (e : TlbEntry) (es : List TlbEntry) → is_valid e ≡ true → IsFull es → IsFull (e ∷ es)
    full_cons e es v all zero d h = ap is_valid (some-injective _ _ (sym h)) ∙ v
    full_cons e es v all (suc j) d h = all j d h

    earlier :
        (e : TlbEntry) (es : List TlbEntry) (i : ℕ)
        → is_valid e ≡ true
        → ((j : ℕ) (d : TlbEntry) → j < i → get_elem? es j ≡ some d → is_valid d ≡ true)
        → (j : ℕ) (d : TlbEntry) → j < suc i
        → get_elem? (e ∷ es) j ≡ some d
        → is_valid d ≡ true
    earlier e es i v all zero d l h = ap is_valid (some-injective _ _ (sym h)) ∙ v
    earlier e es i v all (suc j) d l h = all j d (omega arith) h

-- What the assertions of vm_fault say about the places of the regions.
checks-aligned :
    (s : Addrspace)
    → as_checks s ≡ true
    → (s.as_vbase1 % 4096 ≡ 0)
      × (s.as_pbase1 % 4096 ≡ 0)
      × (s.as_vbase2 % 4096 ≡ 0)
      × (s.as_pbase2 % 4096 ≡ 0)
      × (s.as_stackpbase % 4096 ≡ 0)
checks-aligned s h = (ground arith, ground arith, ground arith, ground arith, ground arith)

pub translate-aligned :
    (s : Addrspace) (a p : ℕ)
    → as_checks s ≡ true
    → a % 4096 ≡ 0
    → translate s a ≡ some p
    → page_frame p ≡ p
translate-aligned s a p h l t =
    let (v₁, p₁, v₂, p₂, k) = checks-aligned s h in
    elim (translate_cases s a p t) [
      | inl i ↦ (let x = i.above in let z = i.place in omega arith)
      | inr (inl i) ↦ (let x = i.above in let z = i.place in omega arith)
      | inr (inr i) ↦ (let x = i.above in let z = i.place in omega arith)
    ]

-- What a fault of the type `ty` at the address `a` comes to.
pub data Answered (space : Option Addrspace) (a : ℕ) (mmu : Mmu) (ty : ℕ)
    : Outcome (Code × Mmu) → Type 0 where
  readonly_fault : ty ≡ 2 → Answered space a mmu ty panic
  unknown_fault : 2 < ty → Answered space a mmu ty (ret (einval, mmu))
  no_space :
      ty < 2 → space ≡ none → Answered space a mmu ty (ret (efault, record mmu { spl = spl_high }))
  not_set_up :
      (s : Addrspace)
      → ty < 2
      → space ≡ some s
      → as_checks s ≡ false
      → Answered space a mmu ty panic
  unmapped :
      (s : Addrspace)
      → ty < 2
      → space ≡ some s
      → as_checks s ≡ true
      → translate s (page_frame a) ≡ none
      → Answered space a mmu ty (ret (efault, mmu))
  tlb_full :
      (s : Addrspace) (p : ℕ)
      → ty < 2
      → space ≡ some s
      → as_checks s ≡ true
      → translate s (page_frame a) ≡ some p
      → IsFull mmu.tlb
      → Answered space a mmu ty (ret (efault, mmu))
  mapped :
      (s : Addrspace) (p i : ℕ)
      → ty < 2
      → space ≡ some s
      → as_checks s ≡ true
      → translate s (page_frame a) ≡ some p
      → p % 4096 ≡ 0
      → IsFirstInvalid mmu.tlb i
      → Answered space a mmu ty
          (ret (success, record mmu { tlb = set mmu.tlb i (entry_for (page_frame a) p) }))

-- The answer once the address has been translated.
loads_page :
    (s : Addrspace) (a p : ℕ) (mmu : Mmu) (ty : ℕ)
    → ty < 2
    → as_checks s ≡ true
    → translate s (page_frame a) ≡ some p
    → Answered
        (some s)
        a
        mmu
        ty
        (load_page mmu.spl (page_frame a) (record mmu { spl = spl_high }) (some p))
loads_page s a p mmu ty l c t =
    let al = translate-aligned s (page_frame a) p c (omega arith) t in
    let ok : (page_frame p == p) ≡ true = ground arith in
    rw ok (elim (load_entry_lem (entry_for (page_frame a) p) mmu.tlb) [
      | inl (full, r) ↦ rw r (tlb_full s p l refl c t full)
      | inr (i, f, r) ↦ rw r (mapped s p i l refl c t (omega arith) f)
    ])

answers_in :
    (space : Option Addrspace) (a : ℕ) (mmu : Mmu) (ty : ℕ)
    → ty < 2
    → Answered space a mmu ty
        (fault_in mmu.spl (page_frame a) (record mmu { spl = spl_high }) space)
answers_in none a mmu ty l = no_space l refl
answers_in (some s) a mmu ty l = elim (Bool-cases (as_checks s)) [
  | inr c ↦ rw c (not_set_up s l refl c)
  | inl c ↦ elim (Option-cases (translate s (page_frame a))) [
    | inl t ↦ rw c (rw t (unmapped s l refl c t))
    | inr (p, t) ↦ rw c (rw t (loads_page s a p mmu ty l c t))
  ]
]

-- vm_fault panics for a fault on a read-only page or in an address space that is not set up; it
-- returns EINVAL for a fault that it does not know, and EFAULT if there is no address space, with the
-- interrupts left off then, if the address is outside of it, or if every entry of the TLB is valid;
-- else it returns 0, with the page's frame, which is aligned, in the first entry that was not valid.
pub vm_fault_lem :
    (space : Option Addrspace) (a : ℕ) (mmu : Mmu) (ty : ℕ)
    → Answered space a mmu ty (vm_fault ty a space mmu)
unfolding vm_fault
vm_fault_lem space a mmu ty = elim (ℕ_discrete ty 2) [
  | yes e ↦ (let t : (ty == 2) ≡ true = ground arith in rw t (readonly_fault e))
  | no ne ↦
      (let t : (ty == 2) ≡ false = ==_ne ty 2 ne in
        elim (dec_lt 2 ty) [
          | yes l ↦ rw t (rw (lt→ltb 2 ty l) (unknown_fault l))
          | no g ↦ rw t (rw (le→ltb 2 ty (omega arith)) (answers_in space a mmu ty (omega arith)))
        ])
]
