-- ===== src/Vm/Frames.antt =====
-- The memory that as_prepare_load of kern/arch/mips/mips/dumbvm.c gives an address space.
use mehrad.Base.{
  ℕ, ◌+◌, ◌*◌, ◌%◌, ◌^◌, ◌<◌, ◌≤◌, ◌≡◌, refl, ap, ◌∙◌, true, ◌⊎◌, inl, inr, ret, success, enomem,
  ltb, le→ltb, ==_ne, dec_le, arith,
}
use mehrad.Vm.{Ram, Addrspace, ram_stealmem, as_prepare_load, prepare_first}

-- Pages are free between the two bounds, which are addresses in the first 508 megabytes.
pub record IsRam (r : Ram) : Type 0 where
  pub some_used : 0 < r.firstpaddr
  pub aligned : r.firstpaddr % 4096 ≡ 0
  pub ordered : r.firstpaddr ≤ r.lastpaddr
  pub small : r.lastpaddr ≤ 532676608

pub steal_fits :
    (n : ℕ) (r : Ram)
    → r.lastpaddr ≤ 532676608
    → r.firstpaddr + n * 4096 ≤ r.lastpaddr
    → ram_stealmem n r ≡ (r.firstpaddr, record r { firstpaddr = r.firstpaddr + n * 4096 })
unfolding ram_stealmem
steal_fits n r s h =
    let e : (n * 4096) % 2 ^ 32 ≡ n * 4096 = omega arith in
    let m : (r.firstpaddr + n * 4096) % 2 ^ 32 ≡ r.firstpaddr + n * 4096 = omega arith in
    rw e (rw m (rw (le→ltb r.lastpaddr (r.firstpaddr + n * 4096) h) refl))

pub steal_fails :
    (n : ℕ) (r : Ram)
    → r.lastpaddr ≤ 532676608
    → r.firstpaddr ≤ r.lastpaddr
    → n < 2 ^ 19
    → r.lastpaddr < r.firstpaddr + n * 4096
    → ram_stealmem n r ≡ (0, r)
unfolding ram_stealmem
steal_fails n r s o b h =
    let e : (n * 4096) % 2 ^ 32 ≡ n * 4096 = omega arith in
    let m : (r.firstpaddr + n * 4096) % 2 ^ 32 ≡ r.firstpaddr + n * 4096 = omega arith in
    let t : ltb r.lastpaddr (r.firstpaddr + n * 4096) ≡ true = ground arith in
    rw e (rw m (rw t refl))

-- The frames of an address space stand in a row, from `lo` on.
pub record IsLoaded (lo : ℕ) (s : Addrspace) : Type 0 where
  pub first_at : s.as_pbase1 ≡ lo
  pub second_at : s.as_pbase2 ≡ lo + s.as_npages1 * 4096
  pub stack_at : s.as_stackpbase ≡ lo + s.as_npages1 * 4096 + s.as_npages2 * 4096

abbrev pub frames_end : ℕ → Addrspace → ℕ
frames_end lo s = lo + s.as_npages1 * 4096 + s.as_npages2 * 4096 + 49152

abbrev pub loaded_at : ℕ → Addrspace → Addrspace
loaded_at lo s = record s {
  as_pbase1 = lo;
  as_pbase2 = lo + s.as_npages1 * 4096;
  as_stackpbase = lo + s.as_npages1 * 4096 + s.as_npages2 * 4096;
}

-- An address space whose regions are defined and that has no memory yet.
pub record IsFresh (s : Addrspace) : Type 0 where
  pub no_first : s.as_pbase1 ≡ 0
  pub no_second : s.as_pbase2 ≡ 0
  pub no_stack : s.as_stackpbase ≡ 0
  pub few_first : s.as_npages1 < 2 ^ 19
  pub few_second : s.as_npages2 < 2 ^ 19

checks_pass : (s : Addrspace) (r : Ram) → IsFresh s → as_prepare_load s r ≡ ret (prepare_first s r)
unfolding as_prepare_load
checks_pass s r f = rw (f.no_first, f.no_second, f.no_stack) refl

loads :
    (s : Addrspace) (r : Ram)
    → IsRam r
    → IsFresh s
    → frames_end r.firstpaddr s ≤ r.lastpaddr
    → prepare_first s r
      ≡ (success, loaded_at r.firstpaddr s, record r { firstpaddr = frames_end r.firstpaddr s })
loads s r ram f h =
    let a = ram.some_used in
    let c = ram.small in
    rw
      (
        steal_fits s.as_npages1 r c (omega arith),
        ==_ne r.firstpaddr 0 (λ z. omega arith),
        steal_fits s.as_npages2 (record r { firstpaddr = r.firstpaddr + s.as_npages1 * 4096 }) c
            (omega arith),
        ==_ne (r.firstpaddr + s.as_npages1 * 4096) 0 (λ z. omega arith),
        steal_fits 12
            (record r { firstpaddr = r.firstpaddr + s.as_npages1 * 4096 + s.as_npages2 * 4096 }) c
            (omega arith),
        ==_ne (r.firstpaddr + s.as_npages1 * 4096 + s.as_npages2 * 4096) 0 (λ z. omega arith),
      )
      refl

fails_to_load :
    (s : Addrspace) (r : Ram)
    → IsRam r
    → IsFresh s
    → r.lastpaddr < frames_end r.firstpaddr s
    → (s' : Addrspace) × (r' : Ram) × (prepare_first s r ≡ (enomem, s', r')) × IsRam r'
fails_to_load s r ram f h =
    let a = ram.some_used in
    let b = ram.aligned in
    let c = ram.small in
    let o = ram.ordered in
    let n₁ = f.few_first in
    let n₂ = f.few_second in
    let e₁ = r.firstpaddr + s.as_npages1 * 4096 in
    let e₂ = e₁ + s.as_npages2 * 4096 in
    elim (dec_le e₁ r.lastpaddr) [
      | no gt ↦ (
        record s { as_pbase1 = 0 },
        r,
        rw (steal_fails s.as_npages1 r c o n₁ (omega arith)) refl,
        ram,
      )
      | yes le ↦
          let r₁ : Ram = record r { firstpaddr = e₁ } in
          let some₁ = ==_ne e₁ 0 (λ z. omega arith) in
          elim (dec_le e₂ r.lastpaddr) [
            | no gt ↦ (
              record s { as_pbase1 = r.firstpaddr; as_pbase2 = 0 },
              r₁,
              rw
                  (
                    steal_fits s.as_npages1 r c le,
                    ==_ne r.firstpaddr 0 (λ z. omega arith),
                    steal_fails s.as_npages2 r₁ c le n₂ (omega arith),
                  )
                  refl,
              record { some_used = omega arith; aligned = omega arith; ordered = le; small = c },
            )
            | yes le₂ ↦
                let r₂ : Ram = record r { firstpaddr = e₂ } in
                (
                  record s { as_pbase1 = r.firstpaddr; as_pbase2 = e₁; as_stackpbase = 0 },
                  r₂,
                  rw
                      (
                        steal_fits s.as_npages1 r c le,
                        ==_ne r.firstpaddr 0 (λ z. omega arith),
                        steal_fits s.as_npages2 r₁ c le₂,
                        some₁,
                        steal_fails 12 r₂ c le₂ (omega arith) (omega arith),
                      )
                      refl,
                  record {
                    some_used = omega arith;
                    aligned = omega arith;
                    ordered = le₂;
                    small = c;
                  },
                )
          ]
    ]

-- For a fresh address space of regions with fewer than 2^19 pages each: if the free memory has room
-- for both regions and the stack, as_prepare_load gives them the frames from its start on, in a row,
-- and takes them off it; else it returns ENOMEM, and what is left of the memory is still well formed.
pub as_prepare_load_lem :
    (s : Addrspace) (r : Ram)
    → IsRam r
    → IsFresh s
    → ((frames_end r.firstpaddr s ≤ r.lastpaddr)
        × (as_prepare_load s r
            ≡ ret (
              success,
              loaded_at r.firstpaddr s,
              record r { firstpaddr = frames_end r.firstpaddr s },
            ))
        × IsRam (record r { firstpaddr = frames_end r.firstpaddr s }))
      ⊎ ((r.lastpaddr < frames_end r.firstpaddr s)
          × (s' : Addrspace) × (r' : Ram) × (as_prepare_load s r ≡ ret (enomem, s', r'))
          × IsRam r')
as_prepare_load_lem s r ram f =
    let a = ram.some_used in
    let b = ram.aligned in
    elim (dec_le (frames_end r.firstpaddr s) r.lastpaddr) [
      | yes le ↦ inl (
        le,
        checks_pass s r f ∙ ap ret (loads s r ram f le),
        record { some_used = omega arith; aligned = omega arith; ordered = le; small = ram.small },
      )
      | no gt ↦
          let (s', r', e, ram') = fails_to_load s r ram f (omega arith) in
          inr (omega arith, s', r', checks_pass s r f ∙ ap ret e, ram')
    ]
