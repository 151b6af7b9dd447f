-- ===== src/Vm.antt =====
-- kern/arch/mips/mips/ram.c and dumbvm.c: physical memory, which is handed out and never taken back,
-- address spaces of two regions and a stack, and the faults that load the TLB. `& PAGE_FRAME` clears
-- the low twelve bits of an address.
pub mod Frames
pub mod Fault
pub mod Isolation
pub mod Answers
pub mod Coherence
pub mod Regions
pub mod Copy
pub mod Fork
mod Tests
use mehrad.Base.{
  ℕ, zero, suc, ◌+◌, ◌-◌, ◌*◌, ◌/◌, ◌%◌, ◌^◌, Bool, true, false, ◌&&◌, not, List, [], ◌∷◌, Option,
  none, some, Outcome, ret, panic, ◌>>=◌, ◌>>◌, assert, Code, success, enomem, einval, efault,
  eunimp, ltb, leb, ◌==◌, if◌then◌else◌, length,
}
use mehrad.Memory.{memmove}

abbrev pub page_size : ℕ
page_size = 4096

abbrev pub stackpages : ℕ
stackpages = 12

abbrev pub userstack : ℕ
userstack = 0x80000000

abbrev pub mips_kseg0 : ℕ
mips_kseg0 = 0x80000000

abbrev pub page_frame : ℕ → ℕ
page_frame addr = addr - addr % page_size

-- The memory that is free: from `firstpaddr` up to `lastpaddr`.
pub record Ram : Type 0 where
  pub firstpaddr : ℕ
  pub lastpaddr : ℕ

abbrev ramsize_max : ℕ
ramsize_max = 532676608

-- `firstfree` is the virtual address that start.S leaves.
unfoldable pub ram_bootstrap : ℕ → ℕ → Ram
ram_bootstrap mips_ramsize firstfree = record {
  firstpaddr = (firstfree + 2 ^ 32 - mips_kseg0) % 2 ^ 32;
  lastpaddr = if ltb ramsize_max mips_ramsize then ramsize_max else mips_ramsize;
}

unfoldable pub ram_stealmem : ℕ → Ram → ℕ × Ram
ram_stealmem npages ram =
    let size = (npages * page_size) % 2 ^ 32 in
    if ltb ram.lastpaddr ((ram.firstpaddr + size) % 2 ^ 32)
    then (0, ram)
    else (ram.firstpaddr, record ram { firstpaddr = (ram.firstpaddr + size) % 2 ^ 32 })

abbrev pub getppages : ℕ → Ram → ℕ × Ram
getppages npages ram = ram_stealmem npages ram

unfoldable pub alloc_kpages : ℕ → Ram → ℕ × Ram
alloc_kpages npages ram =
    let (pa, ram') = getppages npages ram in
    if pa == 0 then (0, ram') else ((pa + mips_kseg0) % 2 ^ 32, ram')

pub record Addrspace : Type 0 where
  pub as_vbase1 : ℕ
  pub as_pbase1 : ℕ
  pub as_npages1 : ℕ
  pub as_vbase2 : ℕ
  pub as_pbase2 : ℕ
  pub as_npages2 : ℕ
  pub as_stackpbase : ℕ

-- as_create, when kmalloc finds memory.
abbrev pub as_create : Addrspace
as_create = record {
  as_vbase1 = 0;
  as_pbase1 = 0;
  as_npages1 = 0;
  as_vbase2 = 0;
  as_pbase2 = 0;
  as_npages2 = 0;
  as_stackpbase = 0;
}

unfoldable pub as_define_region : ℕ → ℕ → Addrspace → Code × Addrspace
as_define_region vaddr sz s =
    let whole = (sz + vaddr % page_size) % 2 ^ 32 in
    let aligned = page_frame ((whole + page_size - 1) % 2 ^ 32) in
    let npages = aligned / page_size in
    if s.as_vbase1 == 0
    then (success, record s { as_vbase1 = page_frame vaddr; as_npages1 = npages })
    else if s.as_vbase2 == 0
    then (success, record s { as_vbase2 = page_frame vaddr; as_npages2 = npages })
    else (eunimp, s)

-- What as_prepare_load has allocated when it fails stays in the address space.
abbrev pub prepare_stack : Addrspace → Ram → Code × Addrspace × Ram
prepare_stack s ram =
    let (pa, ram') = getppages stackpages ram in
    let s' = record s { as_stackpbase = pa } in
    if pa == 0 then (enomem, s', ram') else (success, s', ram')

abbrev pub prepare_second : Addrspace → Ram → Code × Addrspace × Ram
prepare_second s ram =
    let (pa, ram') = getppages s.as_npages2 ram in
    let s' = record s { as_pbase2 = pa } in
    if pa == 0 then (enomem, s', ram') else prepare_stack s' ram'

abbrev pub prepare_first : Addrspace → Ram → Code × Addrspace × Ram
prepare_first s ram =
    let (pa, ram') = getppages s.as_npages1 ram in
    let s' = record s { as_pbase1 = pa } in
    if pa == 0 then (enomem, s', ram') else prepare_second s' ram'

unfoldable pub as_prepare_load : Addrspace → Ram → Outcome (Code × Addrspace × Ram)
as_prepare_load s ram = do
  assert (s.as_pbase1 == 0)
  assert (s.as_pbase2 == 0)
  assert (s.as_stackpbase == 0)
  ret (prepare_first s ram)

-- The initial stack pointer.
unfoldable pub as_define_stack : Addrspace → Outcome (Code × ℕ)
as_define_stack s = do assert (not (s.as_stackpbase == 0)); ret (success, userstack)

-- What kmalloc and kfree of the structure do: whether the structure is there, and what they make of memory and
-- of the free frames, from which the kernel's heap takes its pages as well.
pub record StructHeap : Type 0 where
  pub kmalloc : List ℕ → Ram → Bool × List ℕ × Ram
  pub kfree : List ℕ → Ram → List ℕ × Ram

-- as_copy: the new address space, NULL if there is no memory. Memory is indexed by physical addresses, which the kernel's addresses are once mips_kseg0 is off.
abbrev pub copy_pages : Addrspace → Addrspace → List ℕ → Outcome (List ℕ)
copy_pages new old mem = do
  m₁ ← memmove mem new.as_pbase1 old.as_pbase1 (old.as_npages1 * page_size)
  m₂ ← memmove m₁ new.as_pbase2 old.as_pbase2 (old.as_npages2 * page_size)
  memmove m₂ new.as_stackpbase old.as_stackpbase (stackpages * page_size)

abbrev pub same_regions : Addrspace → Addrspace
same_regions old = record as_create {
  as_vbase1 = old.as_vbase1;
  as_npages1 = old.as_npages1;
  as_vbase2 = old.as_vbase2;
  as_npages2 = old.as_npages2;
}

pub record Copied : Type 0 where
  pub code : Code
  pub new : Option Addrspace
  pub mem : List ℕ
  pub ram : Ram

abbrev pub not_copied : List ℕ × Ram → Outcome Copied
not_copied (mem, ram) = ret (record { code = enomem; new = none; mem = mem; ram = ram })

abbrev pub copy_into : StructHeap → Addrspace → List ℕ → Code × Addrspace × Ram → Outcome Copied
copy_into heap old mem (success, new, ram) = do
  assert (not (new.as_pbase1 == 0))
  assert (not (new.as_pbase2 == 0))
  assert (not (new.as_stackpbase == 0))
  m ← copy_pages new old mem
  ret (record { code = success; new = some new; mem = m; ram = ram })
copy_into heap old mem (c, new, ram) = not_copied (heap.kfree mem ram)

abbrev pub copy_created : StructHeap → Addrspace → Bool × List ℕ × Ram → Outcome Copied
copy_created heap old (false, mem, ram) = not_copied (mem, ram)
copy_created heap old (true, mem, ram) = do
  loaded ← as_prepare_load (same_regions old) ram
  copy_into heap old mem loaded

unfoldable pub as_copy : StructHeap → Addrspace → List ℕ → Ram → Outcome Copied
as_copy heap old mem ram = copy_created heap old (heap.kmalloc mem ram)
