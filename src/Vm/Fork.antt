-- ===== src/Vm/Fork.antt =====
-- as_copy of kern/arch/mips/mips/dumbvm.c as a process sees it: its addresses lead to the same bytes.
use mehrad.Base.{
  Bool, true, false, ◌∙◌, ℕ, ◌+◌, ◌-◌, ◌*◌, ◌%◌, ◌^◌, ◌<◌, ◌≤◌, ◌≡◌, refl, Bool, true, false, ◌⊎◌,
  inl, inr, List, some, none, ret, success, arith, ==_ne, length, get_elem?, if◌then◌else◌,
}
use mehrad.Vm.{StructHeap, not_copied, Ram, Addrspace, userstack, same_regions, as_copy}
use mehrad.Vm.Fault.{translate, within}
use mehrad.Vm.Frames.{IsRam, IsFresh, frames_end, loaded_at, as_prepare_load_lem}
use mehrad.Vm.Isolation.{within-lem}
use mehrad.Vm.Copy.{IsBelow, IsCopied, copied, copies, after_stack}

-- The same tests with other values.
same_choice :
    (b₁ b₂ b₃ : Bool) (x₁ x₂ x₃ y₁ y₂ y₃ : ℕ) (R : ℕ → ℕ → Type 0)
    → (b₁ ≡ true → R x₁ y₁)
    → (b₂ ≡ true → R x₂ y₂)
    → (b₃ ≡ true → R x₃ y₃)
    → (((if b₁ then some x₁ else if b₂ then some x₂ else if b₃ then some x₃ else none) ≡ none)
        × ((if b₁ then some y₁ else if b₂ then some y₂ else if b₃ then some y₃ else none) ≡ none))
      ⊎ ((p : ℕ) × (q : ℕ) × ((if b₁
              then some x₁
              else if b₂
              then some x₂
              else if b₃
              then some x₃
              else none)
            ≡ some p)
          × ((if b₁ then some y₁ else if b₂ then some y₂ else if b₃ then some y₃ else none)
              ≡ some q)
          × R p q)
same_choice true b₂ b₃ x₁ x₂ x₃ y₁ y₂ y₃ R f g h = inr (x₁, y₁, refl, refl, f refl)
same_choice false true b₃ x₁ x₂ x₃ y₁ y₂ y₃ R f g h = inr (x₂, y₂, refl, refl, g refl)
same_choice false false true x₁ x₂ x₃ y₁ y₂ y₃ R f g h = inr (x₃, y₃, refl, refl, h refl)
same_choice false false false x₁ x₂ x₃ y₁ y₂ y₃ R f g h = inl (refl, refl)

-- Where an address leads in `old` and in `new`: nowhere in both, or to the same byte, which in `new`
-- stands in a frame of its own, from `lo` on.
pub SameByte : ℕ → Addrspace → List ℕ → Addrspace → List ℕ → ℕ → Type 0
SameByte lo old mem new m a =
    ((translate old a ≡ none) × (translate new a ≡ none))
    ⊎ ((p : ℕ) × (q : ℕ) × (translate old a ≡ some p)
        × (translate new a ≡ some q)
        × ((p < lo) × (lo ≤ q) × (get_elem? m q ≡ get_elem? mem p)))

same_bytes :
    (lo : ℕ) (old : Addrspace) (mem m : List ℕ)
    → IsBelow lo old mem
    → IsCopied lo old mem m
    → frames_end lo old ≤ 532676608
    → (a : ℕ) → SameByte lo old mem (loaded_at lo (same_regions old)) m a
unfolding translate SameByte
same_bytes lo old mem m h c small a =
    let u = h.first_below in
    let v = h.second_below in
    let w = h.stack_below in
    let n₁ = old.as_npages1 * 4096 in
    let n₂ = old.as_npages2 * 4096 in
    let top₁ = (old.as_vbase1 + n₁) % 2 ^ 32 in
    let top₂ = (old.as_vbase2 + n₂) % 2 ^ 32 in
    same_choice (within old.as_vbase1 top₁ a) (within old.as_vbase2 top₂ a)
      (within 0x7fff4000 userstack a) ((a - old.as_vbase1 + old.as_pbase1) % 2 ^ 32)
      ((a - old.as_vbase2 + old.as_pbase2) % 2 ^ 32) ((a - 0x7fff4000 + old.as_stackpbase) % 2 ^ 32)
      ((a - old.as_vbase1 + lo) % 2 ^ 32) ((a - old.as_vbase2 + (lo + n₁)) % 2 ^ 32)
      ((a - 0x7fff4000 + (lo + n₁ + n₂)) % 2 ^ 32)
      (λ p q. (p < lo) × (lo ≤ q) × (get_elem? m q ≡ get_elem? mem p))
      (λ t.
        let (l, r) = within-lem old.as_vbase1 top₁ a t in
        moves_along old.as_vbase1 n₁ old.as_pbase1 lo (omega arith) (omega arith) (omega arith)
          (omega arith) (omega arith) c.first_copied)
      (λ t.
        let (l, r) = within-lem old.as_vbase2 top₂ a t in
        moves_along old.as_vbase2 n₂ old.as_pbase2 (lo + n₁) (omega arith) (omega arith)
          (omega arith) (omega arith) (omega arith) c.second_copied)
      (λ t.
        let (l, r) = within-lem 0x7fff4000 userstack a t in
        moves_along 0x7fff4000 49152 old.as_stackpbase (lo + n₁ + n₂) (omega arith) (omega arith)
          (omega arith) (omega arith) (omega arith) c.stack_copied)
  where
    moves_along :
        (base n from to : ℕ)
        → base ≤ a
        → a < base + n
        → from + n ≤ lo
        → lo ≤ to
        → to + n ≤ 532676608
        → ((i : ℕ) → i < n → get_elem? m (to + i) ≡ get_elem? mem (from + i))
        → ((a - base + from) % 2 ^ 32 < lo)
          × (lo ≤ (a - base + to) % 2 ^ 32)
          × (get_elem? m ((a - base + to) % 2 ^ 32) ≡ get_elem? mem ((a - base + from) % 2 ^ 32))
    moves_along base n from to b u f l s g =
        let e₁ : (a - base + to) % 2 ^ 32 ≡ to + (a - base) = omega arith in
        let e₂ : (a - base + from) % 2 ^ 32 ≡ from + (a - base) = omega arith in
        (omega arith, omega arith, rw e₁ (rw e₂ (g (a - base) (omega arith))))

-- An address space that has been loaded, whose frames are in use, and the memory.
pub record IsInUse (old : Addrspace) (mem : List ℕ) (ram : Ram) : Type 0 where
  pub few_first : old.as_npages1 < 2 ^ 19
  pub few_second : old.as_npages2 < 2 ^ 19
  pub first_below : old.as_pbase1 + old.as_npages1 * 4096 ≤ ram.firstpaddr
  pub second_below : old.as_pbase2 + old.as_npages2 * 4096 ≤ ram.firstpaddr
  pub stack_below : old.as_stackpbase + 49152 ≤ ram.firstpaddr
  pub in_memory : ram.lastpaddr ≤ length mem

-- The bytes that a process reads stay as they are.
abbrev pub Keeps : Addrspace → List ℕ → List ℕ → Type 0
Keeps old mem m = (a p : ℕ) → translate old a ≡ some p → get_elem? m p ≡ get_elem? mem p

kept-SameByte :
    (lo : ℕ) (old new : Addrspace) (mem m₀ m : List ℕ) (a : ℕ)
    → Keeps old mem m₀
    → SameByte lo old m₀ new m a
    → SameByte lo old mem new m a
unfolding SameByte
kept-SameByte lo old new mem m₀ m a k (inl none_there) = inl none_there
kept-SameByte lo old new mem m₀ m a k (inr (p, q, t, u, (l, g, e))) =
    inr (p, q, t, u, (l, g, e ∙ k a p t))

-- For a heap whose kmalloc leaves the bytes of the old address space as they are, and its frames below those
-- that are free then: if kmalloc finds no memory, as_copy returns ENOMEM with memory as kmalloc left it. If it
-- does, and there are frames for the copy among those that it leaves, as_copy returns 0 and an address space in
-- which the same addresses are mapped as in the old one, each to the byte that it led to there before the call,
-- but in frames that were free, and every byte below those frames is as kmalloc left it. If there are not enough
-- frames, as_copy returns ENOMEM, and memory is what kfree makes of it.
pub as_copy_lem :
    (heap : StructHeap) (old : Addrspace) (mem : List ℕ) (ram : Ram) (created : Bool) (m₀ : List ℕ)
    (r₀ : Ram)
    → heap.kmalloc mem ram ≡ (created, m₀, r₀)
    → IsRam r₀
    → IsInUse old m₀ r₀
    → Keeps old mem m₀
    → ((created ≡ false) × (as_copy heap old mem ram ≡ not_copied (m₀, r₀)))
      ⊎ (((created ≡ true)
            × (new : Addrspace) × (m : List ℕ) × (r : Ram) × (as_copy heap old mem ram
                ≡ ret (record { code = success; new = some new; mem = m; ram = r }))
            × (frames_end r₀.firstpaddr old ≤ r₀.lastpaddr)
            × ((a : ℕ) → SameByte r₀.firstpaddr old mem new m a)
            × ((i : ℕ) → i < r₀.firstpaddr → get_elem? m i ≡ get_elem? m₀ i)
            × IsRam r)
          ⊎ ((created ≡ true)
              × (r : Ram) × (as_copy heap old mem ram ≡ not_copied (heap.kfree m₀ r))
              × (r₀.lastpaddr < frames_end r₀.firstpaddr old)
              × IsRam r))
unfolding as_copy
as_copy_lem heap old mem ram false m₀ r₀ made k u kept = inl (refl, rw made refl)
as_copy_lem heap old mem ram true m₀ r₀ made k u kept =
    let x = u.few_first in
    let y = u.few_second in
    let z = u.in_memory in
    let pos = k.some_used in
    let lo : ℕ = r₀.firstpaddr in
    let fresh : IsFresh (same_regions old) = record {
      no_first = refl;
      no_second = refl;
      no_stack = refl;
      few_first = x;
      few_second = y;
    } in
    elim (as_prepare_load_lem (same_regions old) r₀ k fresh) [
      | inr (full, s', r', e, k') ↦ inr (inr (refl, r', rw made (rw e refl), full, k'))
      | inl (fits, e, k') ↦
          let below : IsBelow r₀.firstpaddr old m₀ = record {
            first_below = u.first_below;
            second_below = u.second_below;
            stack_below = u.stack_below;
            in_memory = omega arith;
          } in
          let small = k.small in
          let c = copied r₀.firstpaddr old m₀ below in
          let new = loaded_at r₀.firstpaddr (same_regions old) in
          let m = after_stack r₀.firstpaddr old m₀ in
          inr (
            inl (
              refl,
              new,
              m,
              record r₀ { firstpaddr = frames_end r₀.firstpaddr old },
              rw made (
                  rw
                    (
                      e,
                      ==_ne r₀.firstpaddr 0 (λ q. omega arith),
                      ==_ne (r₀.firstpaddr + old.as_npages1 * 4096) 0 (λ q. omega arith),
                      ==_ne (r₀.firstpaddr + old.as_npages1 * 4096 + old.as_npages2 * 4096) 0
                          (λ q. omega arith),
                      copies r₀.firstpaddr old m₀ below,
                    )
                    refl),
              fits,
              λ a.
                  kept-SameByte r₀.firstpaddr old new mem m₀ m a kept
                    (same_bytes r₀.firstpaddr old m₀ m below c (omega arith) a),
              λ i l. c.others i (inl l),
              k',
            ))
    ]
