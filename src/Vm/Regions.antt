-- ===== src/Vm/Regions.antt =====
-- The pages that as_define_region of kern/arch/mips/mips/dumbvm.c sets aside.
use mehrad.Base.{
  ℕ, ◌+◌, ◌-◌, ◌*◌, ◌/◌, ◌%◌, ◌^◌, ◌<◌, ◌≤◌, ◌≡◌, ◌≢◌, refl, true, ◌⊎◌, inl, inr, success, eunimp,
  ==_ne, ◌==◌, ℕ_discrete, arith,
}
use mehrad.Vm.{Addrspace, as_define_region}

-- Pages from `base` on cover the bytes from `vaddr` on, and begin and end less than a page from them.
pub record Covers (base npages vaddr sz : ℕ) : Type 0 where
  pub aligned : base % 4096 ≡ 0
  pub from : base ≤ vaddr
  pub near : vaddr < base + 4096
  pub to : vaddr + sz ≤ base + npages * 4096
  pub no_more : base + npages * 4096 < vaddr + sz + 4096

abbrev pub pages_of : ℕ → ℕ → ℕ
pages_of vaddr sz = (sz + vaddr % 4096 + 4095) / 4096

covers : (vaddr sz : ℕ) → Covers (vaddr - vaddr % 4096) (pages_of vaddr sz) vaddr sz
covers vaddr sz = record {
  aligned = omega arith;
  from = omega arith;
  near = omega arith;
  to = omega arith;
  no_more = omega arith;
}

-- For a region below the kernel's part of the addresses: as_define_region sets the pages aside that
-- cover it, and no others, as the first region or else as the second, and changes nothing else; if
-- both are taken, it returns EUNIMP.
pub as_define_region_lem :
    (vaddr sz : ℕ) (s : Addrspace)
    → vaddr + sz ≤ 2 ^ 31
    → Covers (vaddr - vaddr % 4096) (pages_of vaddr sz) vaddr sz
      × (((s.as_vbase1 ≡ 0)
            × (as_define_region vaddr sz s ≡ (
              success,
              record s { as_vbase1 = vaddr - vaddr % 4096; as_npages1 = pages_of vaddr sz },
            )))
          ⊎ (((s.as_vbase1 ≢ 0)
                × (s.as_vbase2 ≡ 0)
                × (as_define_region vaddr sz s ≡ (
                  success,
                  record s { as_vbase2 = vaddr - vaddr % 4096; as_npages2 = pages_of vaddr sz },
                )))
              ⊎ ((s.as_vbase1 ≢ 0)
                  × (s.as_vbase2 ≢ 0)
                  × (as_define_region vaddr sz s ≡ (eunimp, s)))))
unfolding as_define_region
as_define_region_lem vaddr sz s b =
    let w : (sz + vaddr % 4096) % 2 ^ 32 ≡ sz + vaddr % 4096 = omega arith in
    let n : ((sz + vaddr % 4096 + 4096 - 1) % 2 ^ 32
            - (sz + vaddr % 4096 + 4096 - 1) % 2 ^ 32 % 4096)
          / 4096
        ≡ pages_of vaddr sz =
      omega arith in
    (
      covers vaddr sz,
      elim (ℕ_discrete s.as_vbase1 0) [
        | yes e ↦
            (let t : (s.as_vbase1 == 0) ≡ true = ground arith in inl (e, rw w (rw t (rw n refl))))
        | no ne ↦ elim (ℕ_discrete s.as_vbase2 0) [
          | yes e ↦
              (let t : (s.as_vbase2 == 0) ≡ true = ground arith in
                inr (inl (ne, e, rw w (rw (==_ne s.as_vbase1 0 ne) (rw t (rw n refl))))))
          | no ne₂ ↦ inr (
              inr (ne, ne₂, rw w (rw (==_ne s.as_vbase1 0 ne) (rw (==_ne s.as_vbase2 0 ne₂) refl))))
        ]
      ],
    )
