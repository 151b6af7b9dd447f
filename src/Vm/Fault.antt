-- ===== src/Vm/Fault.antt =====
-- vm_fault and as_activate of kern/arch/mips/mips/dumbvm.c, with the TLB and the interrupt level.
use mehrad.Base.{
  ℕ, ◌+◌, ◌-◌, ◌*◌, ◌/◌, ◌%◌, ◌^◌, Bool, ◌&&◌, not, List, [], ◌∷◌, Option, none, some, Outcome, ret,
  panic, ◌>>◌, assert, Code, success, einval, efault, ltb, leb, ◌==◌, if◌then◌else◌,
}
use mehrad.Vm.{Addrspace, page_size, page_frame, stackpages, userstack}

-- An entry of the TLB: its high and its low word.
pub record TlbEntry : Type 0 where
  pub ehi : ℕ
  pub elo : ℕ

pub record Mmu : Type 0 where
  pub tlb : List TlbEntry
  pub spl : ℕ

abbrev pub spl_high : ℕ
spl_high = 15

abbrev pub tlblo_dirty : ℕ
tlblo_dirty = 0x400

abbrev pub tlblo_valid : ℕ
tlblo_valid = 0x200

-- `elo & TLBLO_VALID`
abbrev pub is_valid : TlbEntry → Bool
is_valid e = e.elo / tlblo_valid % 2 == 1

-- The entry `i` for nothing: TLBHI_INVALID(i), TLBLO_INVALID().
abbrev pub invalid_entry : ℕ → TlbEntry
invalid_entry i = record { ehi = ((0x80000 + i) * page_size) % 2 ^ 32; elo = 0 }

-- The loop of as_activate, from entry `i` on.
unfoldable pub invalidate_from : ℕ → List TlbEntry → List TlbEntry
invalidate_from i [] = []
invalidate_from i (e ∷ es) = invalid_entry i ∷ invalidate_from (i + 1) es

unfoldable pub as_activate : Mmu → Mmu
as_activate mmu = record mmu { tlb = invalidate_from 0 mmu.tlb }

abbrev pub as_checks : Addrspace → Bool
as_checks s =
    not (s.as_vbase1 == 0)
    && (not (s.as_pbase1 == 0)
        && (not (s.as_npages1 == 0)
            && (not (s.as_vbase2 == 0)
                && (not (s.as_pbase2 == 0)
                    && (not (s.as_npages2 == 0)
                        && (not (s.as_stackpbase == 0)
                            && (page_frame s.as_vbase1 == s.as_vbase1
                                && (page_frame s.as_pbase1 == s.as_pbase1
                                    && (page_frame s.as_vbase2 == s.as_vbase2
                                        && (page_frame s.as_pbase2 == s.as_pbase2
                                            && page_frame s.as_stackpbase
                                              == s.as_stackpbase))))))))))

abbrev pub within : ℕ → ℕ → ℕ → Bool
within base top addr = leb base addr && ltb addr top

-- The physical address that vm_fault finds for a page.
unfoldable pub translate : Addrspace → ℕ → Option ℕ
translate s addr =
    let vtop1 = (s.as_vbase1 + s.as_npages1 * page_size) % 2 ^ 32 in
    let vtop2 = (s.as_vbase2 + s.as_npages2 * page_size) % 2 ^ 32 in
    let stackbase = userstack - stackpages * page_size in
    if within s.as_vbase1 vtop1 addr
    then some ((addr - s.as_vbase1 + s.as_pbase1) % 2 ^ 32)
    else if within s.as_vbase2 vtop2 addr
    then some ((addr - s.as_vbase2 + s.as_pbase2) % 2 ^ 32)
    else if within stackbase userstack addr
    then some ((addr - stackbase + s.as_stackpbase) % 2 ^ 32)
    else none

-- `paddr | TLBLO_DIRTY | TLBLO_VALID`, for the address of a page.
abbrev pub entry_for : ℕ → ℕ → TlbEntry
entry_for addr paddr = record { ehi = addr; elo = paddr + tlblo_dirty + tlblo_valid }

-- The loop over the TLB: the first entry that is not valid is written.
unfoldable pub load_entry : TlbEntry → List TlbEntry → Option (List TlbEntry)
load_entry new [] = none
load_entry new (e ∷ es) =
    let rest = load_entry new es in
    if is_valid e then (elim rest [ none ↦ none | some es' ↦ some (e ∷ es') ]) else some (new ∷ es)

abbrev pub answer : ℕ → Mmu → Option (List TlbEntry) → Code × Mmu
answer old mmu none = (efault, record mmu { spl = old })
answer old mmu (some tlb) = (success, record { tlb = tlb; spl = old })

abbrev pub load_page : ℕ → ℕ → Mmu → Option ℕ → Outcome (Code × Mmu)
load_page old addr mmu none = ret (efault, record mmu { spl = old })
load_page old addr mmu (some paddr) = do
  assert (page_frame paddr == paddr)
  ret (answer old mmu (load_entry (entry_for addr paddr) mmu.tlb))

-- From the test of curthread->t_vmspace on; that test's return leaves the interrupts off.
abbrev pub fault_in : ℕ → ℕ → Mmu → Option Addrspace → Outcome (Code × Mmu)
fault_in old addr mmu none = ret (efault, mmu)
fault_in old addr mmu (some s) = do assert (as_checks s); load_page old addr mmu (translate s addr)

abbrev pub vm_fault_readonly : ℕ
vm_fault_readonly = 2

unfoldable pub vm_fault : ℕ → ℕ → Option Addrspace → Mmu → Outcome (Code × Mmu)
vm_fault faulttype faultaddress space mmu =
    let high = record mmu { spl = spl_high } in
    if faulttype == vm_fault_readonly
    then panic
    else if ltb vm_fault_readonly faulttype
    then ret (einval, mmu)
    else fault_in mmu.spl (page_frame faultaddress) high space
