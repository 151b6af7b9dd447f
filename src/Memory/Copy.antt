-- ===== src/Memory/Copy.antt =====
-- What the copying loops of memcpy and memmove leave in memory.
use mathlib.Core.List.{append_assoc}
use mehrad.Base.{
  ℕ, zero, suc, ◌+◌, ◌≤◌, ◌≡◌, ap, ◌∙◌, sym, List, [], ◌∷◌, ◌++◌, arith, ret, true, ltb, Bool-cases,
  inl, inr, length, set, take, drop, length-set, get_elem?-of_lt, take-set_end, take-set_after,
  drop-set_before, drop-cons, take-snoc, get_elem?-drop, drop-set_self, take-drop-set_after,
  take-append-drop,
}
use mehrad.Memory.{copy_forward, copy_backward, memmove}

module _ {ℓ} {A : Type ℓ} where
  -- The memory `m` with the `n` cells from `d` replaced by those that stood from `s`.
  abbrev pub moved : List A → ℕ → ℕ → ℕ → List A
  moved m d s n = take d m ++ (take n (drop s m) ++ drop (d + n) m)

  pub copy_forward_lem :
      (m : List A) (d s n : ℕ)
      → d ≤ s
      → s + n ≤ length m
      → copy_forward m d s n ≡ ret (moved m d s n)
  unfolding copy_forward
  copy_forward_lem m d s zero h k =
      let e : d + 0 ≡ d = omega arith in rw e (ap ret (sym (take-append-drop d m)))
  copy_forward_lem m d s (suc n) h k =
      let (c, g) = get_elem?-of_lt m s (omega arith) in
      let e : suc d + n ≡ d + suc n = omega arith in
      let w : ltb d (length m) ≡ true = ground arith in
      rw g (
        rw w (
          copy_forward_lem (set m d c) (suc d) (suc s) n (omega arith)
            (omega (arith, length-set m d c))
          ∙ rw (
            take-set_end d m c (omega arith),
            drop-set_before (suc s) m d c (omega arith),
            drop-set_before (suc d + n) m d c (omega arith),
            append_assoc (take d m) (c ∷ []),
            drop-cons s m c g,
            e,
          )))

  pub copy_backward_lem :
      (m : List A) (d s n : ℕ)
      → s ≤ d
      → d + n ≤ length m
      → copy_backward m d s n ≡ ret (moved m d s n)
  unfolding copy_backward
  copy_backward_lem m d s zero h k =
      let e : d + 0 ≡ d = omega arith in rw e (ap ret (sym (take-append-drop d m)))
  copy_backward_lem m d s (suc n) h k =
      let (c, g) = get_elem?-of_lt m (s + n) (omega arith) in
      let e : suc (d + n) ≡ d + suc n = omega arith in
      let w : ltb (d + n) (length m) ≡ true = ground arith in
      rw g (
        rw w (
          copy_backward_lem (set m (d + n) c) d s n h (omega (arith, length-set m (d + n) c))
          ∙ rw (
            take-set_after d m (d + n) c (omega arith),
            take-drop-set_after s n m (d + n) c (omega arith),
            drop-set_self m (d + n) c (omega arith),
            take-snoc n (drop s m) c (get_elem?-drop s m n ∙ g),
            append_assoc (take n (drop s m)) (c ∷ []),
            e,
          )))

  -- memmove copies as if through a third block of memory, whether or not the two regions overlap,
  -- and changes no cell outside the destination.
  pub memmove_lem :
      (m : List A) (d s n : ℕ)
      → d + n ≤ length m
      → s + n ≤ length m
      → memmove m d s n ≡ ret (moved m d s n)
  unfolding memmove
  memmove_lem m d s n h k = elim (Bool-cases (ltb d s)) [
    | inl lt ↦ rw lt (copy_forward_lem m d s n (ground arith) k)
    | inr ge ↦ rw ge (copy_backward_lem m d s n (ground arith) h)
  ]
