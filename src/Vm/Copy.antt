-- ===== src/Vm/Copy.antt =====
-- as_copy of kern/arch/mips/mips/dumbvm.c: what the copy of an address space holds.
use mehrad.Base.{
  ℕ, ◌+◌, ◌*◌, ◌<◌, ◌≤◌, ◌≡◌, ◌∙◌, ◌⊎◌, inl, inr, List, ret, arith, length, get_elem?,
}
use mehrad.Memory.Copy.{moved, memmove_lem}
use mehrad.Memory.Cells.{IsMoved, moved-IsMoved, IsMoved-others}
use mehrad.Vm.{Addrspace, copy_pages, same_regions}
use mehrad.Vm.Frames.{frames_end, loaded_at}

module _ (lo : ℕ) (old : Addrspace) (mem : List ℕ) where
  abbrev n₁ : ℕ
  n₁ = old.as_npages1 * 4096

  abbrev n₂ : ℕ
  n₂ = old.as_npages2 * 4096

  -- The frames of `old` are in use, below `lo`, from where on the copy's are.
  pub record IsBelow : Type 0 where
    pub first_below : old.as_pbase1 + n₁ ≤ lo
    pub second_below : old.as_pbase2 + n₂ ≤ lo
    pub stack_below : old.as_stackpbase + 49152 ≤ lo
    pub in_memory : frames_end lo old ≤ length mem

  abbrev pub after_first : List ℕ
  after_first = moved mem lo old.as_pbase1 n₁

  abbrev pub after_second : List ℕ
  after_second = moved after_first (lo + n₁) old.as_pbase2 n₂

  abbrev pub after_stack : List ℕ
  after_stack = moved after_second (lo + n₁ + n₂) old.as_stackpbase 49152

  -- What stands in memory after the three moves.
  pub record IsCopied (m : List ℕ) : Type 0 where
    pub first_copied : (i : ℕ) → i < n₁ → get_elem? m (lo + i) ≡ get_elem? mem (old.as_pbase1 + i)
    pub second_copied :
        (i : ℕ) → i < n₂ → get_elem? m (lo + n₁ + i) ≡ get_elem? mem (old.as_pbase2 + i)
    pub stack_copied :
        (i : ℕ) → i < 49152 → get_elem? m (lo + n₁ + n₂ + i) ≡ get_elem? mem (old.as_stackpbase + i)
    pub others : (i : ℕ) → (i < lo) ⊎ (frames_end lo old ≤ i) → get_elem? m i ≡ get_elem? mem i

  module _ (h : IsBelow) where
    IsMoved-first : IsMoved mem after_first lo old.as_pbase1 n₁
    IsMoved-first =
        let a = h.first_below in
        let b = h.in_memory in moved-IsMoved mem lo old.as_pbase1 n₁ (omega arith) (omega arith)

    IsMoved-second : IsMoved after_first after_second (lo + n₁) old.as_pbase2 n₂
    IsMoved-second =
        let a = h.second_below in
        let b = h.in_memory in
        let l = (IsMoved-first).sized in
        moved-IsMoved after_first (lo + n₁) old.as_pbase2 n₂ (omega arith) (omega arith)

    IsMoved-stack : IsMoved after_second after_stack (lo + n₁ + n₂) old.as_stackpbase 49152
    IsMoved-stack =
        let a = h.stack_below in
        let b = h.in_memory in
        let l = (IsMoved-first).sized in
        let k = (IsMoved-second).sized in
        moved-IsMoved after_second (lo + n₁ + n₂) old.as_stackpbase 49152 (omega arith)
          (omega arith)

    pub copied : IsCopied after_stack
    copied =
        let a = h.first_below in
        let b = h.second_below in
        let c = h.stack_below in
        record {
          first_copied = λ i l.
              IsMoved-others IsMoved-stack (lo + i) (inl (omega arith))
              ∙ IsMoved-others IsMoved-second (lo + i) (inl (omega arith))
              ∙ (IsMoved-first).inside i l;
          second_copied = λ i l.
              IsMoved-others IsMoved-stack (lo + n₁ + i) (inl (omega arith))
              ∙ (IsMoved-second).inside i l
              ∙ IsMoved-others IsMoved-first (old.as_pbase2 + i) (inl (omega arith));
          stack_copied = λ i l.
              (IsMoved-stack).inside i l
              ∙ IsMoved-others IsMoved-second (old.as_stackpbase + i) (inl (omega arith))
              ∙ IsMoved-others IsMoved-first (old.as_stackpbase + i) (inl (omega arith));
          others = λ i o. unmoved i o;
        }
      where
        unmoved :
            (i : ℕ) → (i < lo) ⊎ (frames_end lo old ≤ i) → get_elem? after_stack i ≡ get_elem? mem i
        unmoved i (inl l) =
            IsMoved-others IsMoved-stack i (inl (omega arith))
            ∙ IsMoved-others IsMoved-second i (inl (omega arith))
            ∙ IsMoved-others IsMoved-first i (inl l)
        unmoved i (inr l) =
            IsMoved-others IsMoved-stack i (inr (omega arith))
            ∙ IsMoved-others IsMoved-second i (inr (omega arith))
            ∙ IsMoved-others IsMoved-first i (inr (omega arith))

    -- The three calls of memmove make these moves.
    pub copies : copy_pages (loaded_at lo (same_regions old)) old mem ≡ ret after_stack
    copies =
        let a = h.first_below in
        let b = h.second_below in
        let c = h.stack_below in
        let d = h.in_memory in
        let l = (IsMoved-first).sized in
        let k = (IsMoved-second).sized in
        rw
          (
            memmove_lem mem lo old.as_pbase1 n₁ (omega arith) (omega arith),
            memmove_lem after_first (lo + n₁) old.as_pbase2 n₂ (omega arith) (omega arith),
          )
          (memmove_lem after_second (lo + n₁ + n₂) old.as_stackpbase 49152 (omega arith)
            (omega arith))
