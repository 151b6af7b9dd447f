-- ===== src/Vm/Tests.antt =====
-- Two small programs in memory.
use mehrad.Base.{
  false, ◌+◌, true, ℕ, ◌<◌, ◌≤◌, ◌≡◌, ◌≢◌, refl, arith, ◌⊎◌, List, [], ◌∷◌, some, ret, success,
  eunimp, length, length-replicate, replicate, get_elem?,
}
use mehrad.Vm.{
  StructHeap, not_copied, Ram, Addrspace, ram_stealmem, as_create, as_define_region,
  as_prepare_load, as_copy,
}
use mehrad.Vm.Fault.{Mmu, as_activate, invalidate_from, translate, load_entry, vm_fault, entry_for}
use mehrad.Vm.Frames.{IsRam, IsFresh, frames_end, loaded_at}
use mehrad.Vm.Isolation.{isolation}
use mehrad.Vm.Answers.{Answered, vm_fault_lem}
use mehrad.Vm.Coherence.{IsCoherent, Reachable, activated, faulted, tlb-IsCoherent, none_valid}
use mehrad.Vm.Regions.{Covers, as_define_region_lem}
use mehrad.Vm.Fork.{SameByte, IsInUse, as_copy_lem}

abbrev ram : Ram
ram = record { firstpaddr = 61440; lastpaddr = 241664 }

ram-IsRam : IsRam ram
ram-IsRam = record {
  some_used = omega arith;
  aligned = refl;
  ordered = omega arith;
  small = omega arith;
}

abbrev program : Addrspace
program = record as_create {
  as_vbase1 = 0x400000;
  as_npages1 = 2;
  as_vbase2 = 0x10000000;
  as_npages2 = 1;
}

program-IsFresh : IsFresh program
program-IsFresh = record {
  no_first = refl;
  no_second = refl;
  no_stack = refl;
  few_first = omega arith;
  few_second = omega arith;
}

abbrev first_program : Addrspace
first_program = loaded_at 61440 program

abbrev second_program : Addrspace
second_program = loaded_at 122880 program

first_loads :
    as_prepare_load program ram
    ≡ ret (success, first_program, record { firstpaddr = 122880; lastpaddr = 241664 })
unfolding as_prepare_load ram_stealmem
first_loads = refl

second_loads :
    as_prepare_load program (record { firstpaddr = 122880; lastpaddr = 241664 })
    ≡ ret (success, second_program, record { firstpaddr = 184320; lastpaddr = 241664 })
unfolding as_prepare_load ram_stealmem
second_loads = refl

-- A byte of the first program's code, and one of the second's stack.
isolation_example :
    ((61440 ≤ 61456) × (61456 < 184064) × (184064 < 241664))
    × (((c : ℕ) → translate first_program c ≡ some 61456 → c ≡ 0x400010)
        × ((c : ℕ) → translate second_program c ≡ some 184064 → c ≡ 0x7fffff00))
unfolding translate
isolation_example =
    isolation program program ram (record { firstpaddr = 122880; lastpaddr = 241664 })
      (record { firstpaddr = 184320; lastpaddr = 241664 }) first_program second_program ram-IsRam
      program-IsFresh program-IsFresh first_loads second_loads 0x400010 0x7fffff00 61456 184064 refl
      refl

abbrev mmu : Mmu
mmu = record { tlb = record { ehi = 0; elo = 0 } ∷ record { ehi = 4096; elo = 512 } ∷ []; spl = 0 }

vm_fault_lem_example :
    Answered (some first_program) 0x401010 mmu 1 (vm_fault 1 0x401010 (some first_program) mmu)
vm_fault_lem_example = vm_fault_lem (some first_program) 0x401010 mmu 1

abbrev after_fault : Mmu
after_fault = record (as_activate mmu) {
  tlb = entry_for 0x401000 65536 ∷ record { ehi = 0x80001000; elo = 0 } ∷ [];
}

fault_loads :
    vm_fault 1 0x401010 (some first_program) (as_activate mmu) ≡ ret (success, after_fault)
unfolding vm_fault as_activate invalidate_from translate load_entry
fault_loads = refl

reached : Reachable first_program after_fault
unfolding as_activate
reached =
    faulted (as_activate mmu) after_fault 1 0x401010 success (activated mmu)
      (λ j e h v. absurd (let n = none_valid 0 mmu.tlb j e h in cc (n, v))) fault_loads

tlb-IsCoherent_example : IsCoherent first_program after_fault.tlb
tlb-IsCoherent_example = tlb-IsCoherent first_program after_fault reached

as_define_region_lem_example :
    Covers 0x400000 3 0x400100 8192
    × (((as_create.as_vbase1 ≡ 0)
          × (as_define_region 0x400100 8192 as_create
              ≡ (success, record as_create { as_vbase1 = 0x400000; as_npages1 = 3 })))
        ⊎ (((as_create.as_vbase1 ≢ 0)
              × (as_create.as_vbase2 ≡ 0)
              × (as_define_region 0x400100 8192 as_create
                  ≡ (success, record as_create { as_vbase2 = 0x400000; as_npages2 = 3 })))
            ⊎ ((as_create.as_vbase1 ≢ 0)
                × (as_create.as_vbase2 ≢ 0)
                × (as_define_region 0x400100 8192 as_create ≡ (eunimp, as_create)))))
as_define_region_lem_example = as_define_region_lem 0x400100 8192 as_create (omega arith)

abbrev memory : List ℕ
memory = replicate 241664 7

memory-length : length memory ≡ 241664
memory-length = length-replicate {A = ℕ} 241664 7

abbrev half_full : Ram
half_full = record { firstpaddr = 122880; lastpaddr = 241664 }

-- A heap that takes one page for the structure, and leaves it there.
abbrev page_heap : StructHeap
page_heap = record {
  kmalloc = λ m r. (true, m, record r { firstpaddr = r.firstpaddr + 4096 });
  kfree = λ m r. (m, r);
}

abbrev after_kmalloc : Ram
after_kmalloc = record { firstpaddr = 126976; lastpaddr = 241664 }

IsInUse-then : IsInUse first_program memory after_kmalloc
IsInUse-then =
    let l = memory-length in
    record {
      few_first = omega arith;
      few_second = omega arith;
      first_below = omega arith;
      second_below = omega arith;
      stack_below = omega arith;
      in_memory = omega arith;
    }

as_copy_lem_example :
    ((true ≡ false)
      × (as_copy page_heap first_program memory half_full ≡ not_copied (memory, after_kmalloc)))
    ⊎ (((true ≡ true)
          × (new : Addrspace) × (m : List ℕ) × (r : Ram) × (as_copy page_heap first_program memory
                half_full
              ≡ ret (record { code = success; new = some new; mem = m; ram = r }))
          × (frames_end 126976 first_program ≤ 241664)
          × ((a : ℕ) → SameByte 126976 first_program memory new m a)
          × ((i : ℕ) → i < 126976 → get_elem? m i ≡ get_elem? memory i)
          × IsRam r)
        ⊎ ((true ≡ true)
            × (r : Ram) × (as_copy page_heap first_program memory half_full
                ≡ not_copied (memory, r))
            × (241664 < frames_end 126976 first_program)
            × IsRam r))
as_copy_lem_example =
    as_copy_lem page_heap first_program memory half_full true memory after_kmalloc refl
      (record {
        some_used = omega arith;
        aligned = refl;
        ordered = omega arith;
        small = omega arith;
      })
      IsInUse-then (λ a p t. refl)

-- A request of so many pages that their size wraps around gets no memory, though it is answered.
wraps : ram_stealmem 1048576 ram ≡ (61440, ram)
unfolding ram_stealmem
wraps = refl
