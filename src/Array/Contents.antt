-- ===== src/Array/Contents.antt =====
-- kern/lib/array.c as a list: what each operation does to the contents.
use mathlib.Core.List.{append_assoc}
use mehrad.Base.{
  ◌^◌, ℕ, suc, ◌+◌, ◌-◌, ◌≤◌, ◌<◌, ◌≡◌, refl, ap, ◌∙◌, sym, List, [], ◌∷◌, ◌++◌, some, none, arith,
  Option, ret, panic, true, false, ltb, leb, Bool-cases, Option-cases, inl, inr, length, get_elem?,
  set, take, ◌⊎◌, length-set, drop, Block, success, enomem, get_elem?-of_lt, take-set_end,
  length-take_le, take-append_eq, take-take_le, drop-take, length-drop, length-append,
  get_elem?-take, take-set_inside, ◌>>=◌, ◌==◌,
}
use mehrad.Base.Int.{ℤ, pos, negsuc}
use mehrad.Memory.Copy.{memmove_lem, moved}
use mehrad.Array.{
  Array, array_preallocate, array_setsize, array_add, array_getguy, array_setguy, array_remove,
  cell, write_cell, close_gap, resized,
}
use mehrad.Array.Invariant.{cells, IsValid, contents, grow_max_lem, array_preallocate_lem}

module _ {ℓ} {A : Type ℓ} where
  array_preallocate-none :
      (a : Array A)
      → IsValid a
      → (n : ℕ) → n < 2 ^ 30
      → (array_preallocate none a n >>= (λ r. ret (resized n r))) ≡ ret (enomem, a)
  unfolding array_preallocate
  array_preallocate-none a ok n b =
      let t : leb a.num a.max ≡ true = ground arith in
      let (m, e, big, more, top) = grow_max_lem n n a.max (omega arith) b in rw t (rw e refl)

  -- array_setsize to one more than there is, as array_add calls it.
  array_setsize_next :
      (mem : Block A) (a : Array A)
      → IsValid a
      → a.max + 1 < 2 ^ 29
      → ((a' : Array A) × (array_setsize mem a (a.num + 1) ≡ ret (success, a'))
          × (a'.num ≡ a.num + 1)
          × IsValid a'
          × (take a.num (cells a'.v) ≡ contents a))
        ⊎ ((array_setsize mem a (a.num + 1) ≡ ret (enomem, a)) × (mem ≡ none) × (a.num ≡ a.max))
  unfolding array_setsize
  array_setsize_next mem a ok b =
      let t : leb a.num a.max ≡ true = ground arith in
      elim (Bool-cases (ltb a.max (a.num + 1))) [
        | inl full ↦ elim (Option-cases mem) [
          | inl e ↦ inr (
            rw t (rw full (rw e (array_preallocate-none a ok (a.num + 1) (omega arith)))),
            e,
            ground arith,
          )
          | inr (junk, e) ↦
              let (a', r, v, c, n, big) =
                array_preallocate_lem a ok junk (a.num + 1) (omega arith) (omega arith) in
              inl (
                record a' { num = a.num + 1 },
                rw t (rw full (rw e (rw r))),
                refl,
                record { fits = big; sized = v.sized },
                rw n at c,
              )
        ]
        | inr room ↦
            let z : (a.num + 1 == 0) ≡ false = ground arith in
            inl (
              record a { num = a.num + 1 },
              rw t (rw room (rw z)),
              refl,
              record { fits = ground arith; sized = ok.sized },
              refl,
            )
      ]

  write_cell_lem :
      (v : Option (List A)) (i : ℕ) (p : A)
      → i < length (cells v)
      → (v' : Option (List A)) × (write_cell v i p ≡ ret v') × (cells v' ≡ set (cells v) i p)
  write_cell_lem none i p h = absurd (omega arith)
  write_cell_lem (some b) i p h =
      let w : ltb i (length b) ≡ true = ground arith in (some (set b i p), rw w, refl)

  -- On a well-formed array that has fewer than 2^29 - 1 cells, so that the block that it may ask for is below
  -- 2^32 bytes: array_add appends the pointer. It fails only if the block is full and kmalloc returns NULL, with
  -- ENOMEM and the array as it was; it never panics.
  pub array_add_lem :
      (mem : Block A) (a : Array A) (p : A)
      → IsValid a
      → a.max + 1 < 2 ^ 29
      → ((a' : Array A) × (array_add mem a p ≡ ret (success, a'))
          × IsValid a'
          × (contents a' ≡ contents a ++ p ∷ []))
        ⊎ ((array_add mem a p ≡ ret (enomem, a)) × (mem ≡ none) × (a.num ≡ a.max))
  unfolding array_add
  array_add_lem mem a p ok b = elim (array_setsize_next mem a ok b) [
    | inr (r, e, f) ↦ inr (rw r, e, f)
    | inl (a', r, n, v, c) ↦
        let z : a'.num ≡ suc a.num = omega arith in
        let (v', w, s) = write_cell_lem a'.v a.num p (omega arith) in
        inl (
          record a' { v = v' },
          rw r (rw w),
          record { fits = v.fits; sized = ap length s ∙ length-set (cells a'.v) a.num p ∙ v.sized },
          ap (λ k. take k (cells v')) z
              ∙ ap (take (suc a.num)) s
              ∙ take-set_end a.num (cells a'.v) p (omega arith)
              ∙ ap (λ l. l ++ p ∷ []) c,
        )
  ]

  cell_lem :
      (v : Option (List A)) (i : ℕ) (x : A) → get_elem? (cells v) i ≡ some x → cell v i ≡ ret x
  cell_lem none i x h = cc
  cell_lem (some b) i x h = rw h

  -- An index in range reads the element that stands there.
  pub array_getguy_lem :
      (a : Array A) (i : ℕ)
      → IsValid a
      → i < a.num
      → (x : A) × (array_getguy a (pos i) ≡ ret x) × (get_elem? (contents a) i ≡ some x)
  unfolding array_getguy
  array_getguy_lem a i ok h =
      let (x, g) = get_elem?-of_lt (cells a.v) i (omega arith) in
      let t : leb a.num a.max ≡ true = ground arith in
      let u : ltb i a.num ≡ true = ground arith in
      (x, rw t (rw u (cell_lem a.v i x g)), get_elem?-take a.num (cells a.v) i h ∙ g)

  -- array_setguy overwrites the element at an index in range, and leaves the rest.
  pub array_setguy_lem :
      (a : Array A) (i : ℕ) (p : A)
      → IsValid a
      → i < a.num
      → (a' : Array A) × (array_setguy a (pos i) p ≡ ret a')
        × IsValid a'
        × (contents a' ≡ set (contents a) i p)
  unfolding array_setguy
  array_setguy_lem a i p ok h =
      let (v', w, s) = write_cell_lem a.v i p (omega arith) in
      let t : leb a.num a.max ≡ true = ground arith in
      let u : ltb i a.num ≡ true = ground arith in
      (
        record a { v = v' },
        rw t (rw u (rw w)),
        record { fits = ok.fits; sized = ap length s ∙ length-set (cells a.v) i p ∙ ok.sized },
        ap (take a.num) s ∙ take-set_inside a.num (cells a.v) i p h,
      )

  close_gap_lem :
      (v : Option (List A)) (i n : ℕ)
      → i + 1 + n ≤ length (cells v)
      → (v' : Option (List A)) × (close_gap v i n ≡ ret v')
        × (cells v' ≡ moved (cells v) i (i + 1) n)
  close_gap_lem none i n h = absurd (omega arith)
  close_gap_lem (some b) i n h =
      let r = memmove_lem b i (i + 1) n (omega arith) (omega arith) in
      (some (moved b i (i + 1) n), rw r, refl)

  length-moved :
      (m : List A) (d s n : ℕ)
      → d + n ≤ length m
      → s + n ≤ length m
      → length (moved m d s n) ≡ length m
  length-moved m d s n h k = omega (
    arith,
    length-append {ℓ} (take d m) (take n (drop s m) ++ drop (d + n) m),
    length-append {ℓ} (take n (drop s m)) (drop (d + n) m),
    length-take_le {ℓ} d m,
    length-take_le {ℓ} n (drop s m),
    length-drop {ℓ} s m,
    length-drop {ℓ} (d + n) m,
  )

  take-moved :
      (m : List A) (num i : ℕ)
      → i < num
      → num ≤ length m
      → take (num - 1) (moved m i (i + 1) (num - (i + 1)))
        ≡ take i (take num m) ++ drop (i + 1) (take num m)
  take-moved m num i h k =
      let n = num - (i + 1) in
      let front = take i m ++ take n (drop (i + 1) m) in
      let len : length front ≡ num - 1 = omega (
        arith,
        length-append {ℓ} (take i m) (take n (drop (i + 1) m)),
        length-take_le {ℓ} i m,
        length-take_le {ℓ} n (drop (i + 1) m),
        length-drop {ℓ} (i + 1) m,
      ) in
      ap (take (num - 1)) (sym (append_assoc (take i m) (take n (drop (i + 1) m)) (drop (i + n) m)))
      ∙ take-append_eq (num - 1) front (drop (i + n) m) len
      ∙ rw (take-take_le i num m (omega arith), drop-take (i + 1) num m)

  -- array_remove takes out the element at an index in range and closes the gap, in order.
  pub array_remove_lem :
      (a : Array A) (i : ℕ)
      → IsValid a
      → i < a.num
      → (a' : Array A) × (array_remove a (pos i) ≡ ret a')
        × IsValid a'
        × (contents a' ≡ take i (contents a) ++ drop (i + 1) (contents a))
  unfolding array_remove
  array_remove_lem a i ok h =
      let n = a.num - (i + 1) in
      let (v', r, s) = close_gap_lem a.v i n (omega arith) in
      let t : leb a.num a.max ≡ true = ground arith in
      let u : ltb i a.num ≡ true = ground arith in
      let len = length-moved (cells a.v) i (i + 1) n (omega arith) (omega arith) in
      (
        record a { num = a.num - 1; v = v' },
        rw t (rw u (rw r)),
        record { fits = omega arith; sized = ap length s ∙ len ∙ ok.sized },
        ap (take (a.num - 1)) s ∙ take-moved (cells a.v) a.num i h (omega arith),
      )

  -- Outside the elements, a negative index included, the three operations panic.
  pub array_out_of_range :
      (a : Array A) (index : ℤ) (p : A)
      → ((i : ℕ) → index ≡ pos i → a.num ≤ i)
      → (array_getguy a index ≡ panic)
        × (array_setguy a index p ≡ panic)
        × (array_remove a index ≡ panic)
  unfolding array_getguy array_setguy array_remove
  array_out_of_range a (pos i) p h = ground (arith, h i refl)
  array_out_of_range a (negsuc i) p h = ground arith
