-- ===== src/Vm/Isolation.antt =====
-- Where translate, the part of vm_fault of kern/arch/mips/mips/dumbvm.c that finds the frame, can lead.
use mathlib.Core.Option.{some-injective}
use mehrad.Base.{
  ℕ, ◌+◌, ◌-◌, ◌*◌, ◌%◌, ◌^◌, ◌<◌, ◌≤◌, ◌≡◌, refl, sym, ap, ◌∙◌, Bool, true, false, ◌⊎◌, inl, inr,
  some, none, Outcome, ret, panic, subst, Code, success, enomem, ltb, le→ltb, lt→ltb, arith,
  if◌then◌else◌,
}
use mehrad.Vm.{Ram, Addrspace, page_size, userstack, as_create, as_prepare_load}
use mehrad.Vm.Fault.{translate, within}
use mehrad.Vm.Frames.{IsRam, IsFresh, frames_end, loaded_at, as_prepare_load_lem}

-- `p` is what the address `a` leads to in a region of `n` bytes from `base`, with frames from `frames`.
pub record IsIn (base n frames a p : ℕ) : Type 0 where
  pub above : base ≤ a
  pub below : a < base + n
  pub place : p ≡ (a - base + frames) % 2 ^ 32

pub within-lem : (base top a : ℕ) → within base top a ≡ true → (base ≤ a) × (a < top)
within-lem base top a h = (ground arith, ground arith)

first_of_three :
    (b₁ b₂ b₃ : Bool) (x₁ x₂ x₃ p : ℕ)
    → (if b₁ then some x₁ else if b₂ then some x₂ else if b₃ then some x₃ else none) ≡ some p
    → ((b₁ ≡ true) × (p ≡ x₁)) ⊎ (((b₂ ≡ true) × (p ≡ x₂)) ⊎ ((b₃ ≡ true) × (p ≡ x₃)))
first_of_three true b₂ b₃ x₁ x₂ x₃ p h = inl (refl, sym (some-injective _ _ h))
first_of_three false true b₃ x₁ x₂ x₃ p h = inr (inl (refl, sym (some-injective _ _ h)))
first_of_three false false true x₁ x₂ x₃ p h = inr (inr (refl, sym (some-injective _ _ h)))
first_of_three false false false x₁ x₂ x₃ p h = absurd (cc h)

IsIn-within :
    (base n frames a p : ℕ)
    → within base ((base + n) % 2 ^ 32) a ≡ true
    → p ≡ (a - base + frames) % 2 ^ 32
    → IsIn base n frames a p
IsIn-within base n frames a p h e =
    let (l, u) = within-lem base ((base + n) % 2 ^ 32) a h in
    record { above = l; below = omega arith; place = e }

-- An address that is translated is in one of the regions or in the stack.
pub translate_cases :
    (s : Addrspace) (a p : ℕ)
    → translate s a ≡ some p
    → IsIn s.as_vbase1 (s.as_npages1 * 4096) s.as_pbase1 a p
      ⊎ (IsIn s.as_vbase2 (s.as_npages2 * 4096) s.as_pbase2 a p
          ⊎ IsIn 0x7fff4000 49152 s.as_stackpbase a p)
unfolding translate
translate_cases s a p h =
    let top₁ = (s.as_vbase1 + s.as_npages1 * page_size) % 2 ^ 32 in
    let top₂ = (s.as_vbase2 + s.as_npages2 * page_size) % 2 ^ 32 in
    elim (first_of_three (within s.as_vbase1 top₁ a) (within s.as_vbase2 top₂ a)
      (within 0x7fff4000 userstack a) ((a - s.as_vbase1 + s.as_pbase1) % 2 ^ 32)
      ((a - s.as_vbase2 + s.as_pbase2) % 2 ^ 32) ((a - 0x7fff4000 + s.as_stackpbase) % 2 ^ 32) p
      h) [
        | inl (t, e) ↦ inl (IsIn-within s.as_vbase1 (s.as_npages1 * 4096) s.as_pbase1 a p t e)
        | inr (inl (t, e)) ↦
            inr (inl (IsIn-within s.as_vbase2 (s.as_npages2 * 4096) s.as_pbase2 a p t e))
        | inr (inr (t, e)) ↦ inr (inr (IsIn-within 0x7fff4000 49152 s.as_stackpbase a p t e))
      ]

module _ (lo : ℕ) (s : Addrspace) (small : frames_end lo s ≤ 532676608) where
  -- The frames of an address space lie between the two ends of what as_prepare_load allocated.
  pub translate-bounds :
      (a p : ℕ) → translate (loaded_at lo s) a ≡ some p → (lo ≤ p) × (p < frames_end lo s)
  translate-bounds a p h = elim (translate_cases (loaded_at lo s) a p h) [
    | inl i ↦ (let x = i.above in let y = i.below in let z = i.place in (omega arith, omega arith))
    | inr (inl i) ↦
        (let x = i.above in let y = i.below in let z = i.place in (omega arith, omega arith))
    | inr (inr i) ↦
        (let x = i.above in let y = i.below in let z = i.place in (omega arith, omega arith))
  ]

  -- The address that leads to a frame's, which tells that no other does.
  abbrev reverse : ℕ → ℕ
  reverse p =
      if ltb p (lo + s.as_npages1 * 4096)
      then p - lo + s.as_vbase1
      else if ltb p (lo + s.as_npages1 * 4096 + s.as_npages2 * 4096)
      then p - (lo + s.as_npages1 * 4096) + s.as_vbase2
      else p - (lo + s.as_npages1 * 4096 + s.as_npages2 * 4096) + 0x7fff4000

  reverse-translate : (a p : ℕ) → translate (loaded_at lo s) a ≡ some p → a ≡ reverse p
  reverse-translate a p h = elim (translate_cases (loaded_at lo s) a p h) [
    | inl i ↦
        (let x = i.above in
          let y = i.below in
          let z = i.place in
          let t : ltb p (lo + s.as_npages1 * 4096) ≡ true = lt→ltb _ _ (omega arith) in
          rw t (omega arith))
    | inr (inl i) ↦
        (let x = i.above in
          let y = i.below in
          let z = i.place in
          let t₁ : ltb p (lo + s.as_npages1 * 4096) ≡ false = le→ltb _ _ (omega arith) in
          let t₂ : ltb p (lo + s.as_npages1 * 4096 + s.as_npages2 * 4096) ≡ true =
            lt→ltb _ _ (omega arith) in
          rw t₁ (rw t₂ (omega arith)))
    | inr (inr i) ↦
        (let x = i.above in
          let y = i.below in
          let z = i.place in
          let t₁ : ltb p (lo + s.as_npages1 * 4096) ≡ false = le→ltb _ _ (omega arith) in
          let t₂ : ltb p (lo + s.as_npages1 * 4096 + s.as_npages2 * 4096) ≡ false =
            le→ltb _ _ (omega arith) in
          rw t₁ (rw t₂ (omega arith)))
  ]

  pub translate-injective :
      (a b p : ℕ)
      → translate (loaded_at lo s) a ≡ some p
      → translate (loaded_at lo s) b ≡ some p
      → a ≡ b
  translate-injective a b p h k = reverse-translate a p h ∙ sym (reverse-translate b p k)

abbrev space_of : Outcome (Code × Addrspace × Ram) → Addrspace
space_of panic = as_create
space_of (ret (c, s, r)) = s

abbrev ram_of : Ram → Outcome (Code × Addrspace × Ram) → Ram
ram_of junk panic = junk
ram_of junk (ret (c, s, r)) = r

abbrev code_of : Outcome (Code × Addrspace × Ram) → Code
code_of panic = success
code_of (ret (c, s, r)) = c

-- What an address space is that as_prepare_load has loaded.
loaded :
    (s : Addrspace) (ram : Ram) (s' : Addrspace) (r' : Ram)
    → IsRam ram
    → IsFresh s
    → as_prepare_load s ram ≡ ret (success, s', r')
    → (frames_end ram.firstpaddr s ≤ ram.lastpaddr)
      × (s' ≡ loaded_at ram.firstpaddr s)
      × (r' ≡ record ram { firstpaddr = frames_end ram.firstpaddr s })
      × IsRam (record ram { firstpaddr = frames_end ram.firstpaddr s })
loaded s ram s' r' m f e = elim (as_prepare_load_lem s ram m f) [
  | inl (fits, e', m') ↦ (fits, ap space_of (sym e ∙ e'), ap (ram_of ram) (sym e ∙ e'), m')
  | inr (full, s'', r'', e', m') ↦
      let clash : success ≡ enomem = ap code_of (sym e ∙ e') in absurd (cc clash)
]

-- Two address spaces that are loaded one after the other, each from what the one before left: what
-- they translate, they translate to physical addresses of the free memory there was, one to one, and
-- no address of the one leads to where an address of the other does.
pub isolation :
    (s t : Addrspace) (ram r₁ r₂ : Ram) (s' t' : Addrspace)
    → IsRam ram
    → IsFresh s
    → IsFresh t
    → as_prepare_load s ram ≡ ret (success, s', r₁)
    → as_prepare_load t r₁ ≡ ret (success, t', r₂)
    → (a b p q : ℕ) → translate s' a ≡ some p
    → translate t' b ≡ some q
    → ((ram.firstpaddr ≤ p) × (p < q) × (q < ram.lastpaddr))
      × (((c : ℕ) → translate s' c ≡ some p → c ≡ a) × ((c : ℕ) → translate t' c ≡ some q → c ≡ b))
isolation s t ram r₁ r₂ s' t' m f g e₁ e₂ a b p q h k =
    let (fits₁, se, re, m₁) = loaded s ram s' r₁ m f e₁ in
    let (fits₂, te, re₂, m₂) = loaded t r₁ t' r₂ (subst IsRam (sym re) m₁) g e₂ in
    let at₁ : r₁.firstpaddr ≡ frames_end ram.firstpaddr s = ap (λ r. r.firstpaddr) re in
    let top₁ : r₁.lastpaddr ≡ ram.lastpaddr = ap (λ r. r.lastpaddr) re in
    let small = m.small in
    let small₁ : frames_end ram.firstpaddr s ≤ 532676608 = omega arith in
    let small₂ : frames_end r₁.firstpaddr t ≤ 532676608 = omega arith in
    let here : (c o : ℕ)
        → translate s' c ≡ some o
        → translate (loaded_at ram.firstpaddr s) c ≡ some o =
      λ c o x. ap (λ v. translate v c) (sym se) ∙ x in
    let there : (c o : ℕ)
        → translate t' c ≡ some o
        → translate (loaded_at r₁.firstpaddr t) c ≡ some o =
      λ c o x. ap (λ v. translate v c) (sym te) ∙ x in
    let (l₁, u₁) = translate-bounds ram.firstpaddr s small₁ a p (here a p h) in
    let (l₂, u₂) = translate-bounds r₁.firstpaddr t small₂ b q (there b q k) in
    (
      (l₁, omega arith, omega arith),
      (
        λ c x. translate-injective ram.firstpaddr s small₁ c a p (here c p x) (here a p h),
        λ c x. translate-injective r₁.firstpaddr t small₂ c b q (there c q x) (there b q k),
      ),
    )
