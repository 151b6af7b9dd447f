-- ===== src/Array/Invariant.antt =====
-- The representation invariant of kern/lib/array.c.
use mehrad.Base.{
  zero, ◌^◌, ◌<◌, Bool-cases, inl, inr, false, ℕ, suc, ◌+◌, ◌*◌, ◌≤◌, ◌≡◌, refl, ap, ◌∙◌, sym, List,
  [], ◌∷◌, ◌++◌, some, none, arith, Option, ret, leb, true, ltb, length, set, take, ◌⊎◌,
  length-tabulate, length-set, success, tabulate, get_elem?-of_lt, take-set_end, take-snoc,
}
use mehrad.Array.{block_cells, Array, grow_max, copy_guys, array_preallocate}

-- The loop of array_preallocate ends with room for `nguys`, if that is below 2^30, and no int
-- overflows; the size it settles on is the old one, or at most twice what was asked for.
pub grow_max_lem :
    (rounds nguys m : ℕ)
    → nguys ≤ m + rounds
    → nguys < 2 ^ 30
    → (n : ℕ) × (grow_max rounds nguys m ≡ ret n)
      × (nguys ≤ n)
      × (m ≤ n)
      × ((n ≡ m) ⊎ (n ≤ 2 * nguys))
unfolding grow_max
grow_max_lem zero nguys m h b =
    let t : ltb m nguys ≡ false = ground arith in (m, rw t refl, omega arith, omega arith, inl refl)
grow_max_lem (suc rounds) nguys m h b = elim (Bool-cases (ltb m nguys)) [
  | inr t ↦ (m, rw t refl, ground arith, omega arith, inl refl)
  | inl t ↦
      let (n, e, p, q, u) = grow_max_lem rounds nguys ((m + 1) * 2) (omega arith) b in
      let fits : ltb ((m + 1) * 2) (2 ^ 31) ≡ true = ground arith in
      (n, rw t (rw fits e), p, omega arith, inr (ground arith))
]

module _ {ℓ} {A : Type ℓ} where
  -- The cells that the array has: none without a block.
  abbrev pub cells : Option (List A) → List A
  cells none = []
  cells (some b) = b

  pub record IsValid (a : Array A) : Type ℓ where
    pub fits : a.num ≤ a.max
    pub sized : length (cells a.v) ≡ a.max

  -- What the array holds, in order.
  abbrev pub contents : Array A → List A
  contents a = take a.num (cells a.v)

  pub copy_guys_lem :
      (old : List A) (n i : ℕ) (new : List A)
      → i + n ≤ length old
      → i + n ≤ length new
      → take i new ≡ take i old
      → (out : List A) × (copy_guys (some old) new i n ≡ ret out)
        × (length out ≡ length new)
        × (take (i + n) out ≡ take (i + n) old)
  unfolding copy_guys
  copy_guys_lem old zero i new h k e = let z : i + 0 ≡ i = omega arith in (new, refl, refl, rw z e)
  copy_guys_lem old (suc n) i new h k e =
      let (p, g) = get_elem?-of_lt old i (omega arith) in
      let w : ltb i (length new) ≡ true = ground arith in
      let z : suc i + n ≡ i + suc n = omega arith in
      let next : take (suc i) (set new i p) ≡ take (suc i) old =
        take-set_end i new p (omega arith) ∙ ap (λ l. l ++ p ∷ []) e ∙ sym (take-snoc i old p g) in
      let (out, r, l, t) =
        copy_guys_lem old n (suc i) (set new i p) (omega arith) (omega (arith, length-set new i p))
          next in
      (out, rw g (rw w r), l ∙ length-set new i p, rw z at t)

  -- With no block there is nothing to copy: the loop makes no round.
  copy_all :
      (v : Option (List A)) (num m : ℕ) (junk : ℕ → A)
      → num ≤ length (cells v)
      → num ≤ m
      → (out : List A) × (copy_guys v (tabulate 0 m junk) 0 num ≡ ret out)
        × (length out ≡ m)
        × (take num out ≡ take num (cells v))
  unfolding copy_guys
  copy_all none zero m junk h k = (tabulate 0 m junk, refl, length-tabulate 0 m junk, refl)
  copy_all none (suc num) m junk h k = absurd (omega arith)
  copy_all (some b) num m junk h k =
      let len = length-tabulate 0 m junk in
      let z : 0 + num ≡ num = omega arith in
      let (out, r, l, t) =
        copy_guys_lem b num 0 (tabulate 0 m junk) (omega arith) (omega arith) refl in
      (out, r, l ∙ len, rw z at t)

  -- With memory at hand, array_preallocate gives room for `nguys` and changes no element, as long as the
  -- block that it asks for is below 2^32 bytes.
  pub array_preallocate_lem :
      (a : Array A)
      → IsValid a
      → (junk : ℕ → A) (nguys : ℕ) → a.max < 2 ^ 30
      → nguys < 2 ^ 29
      → (a' : Array A) × (array_preallocate (some junk) a nguys ≡ ret (success, a'))
        × IsValid a'
        × (contents a' ≡ contents a)
        × (a'.num ≡ a.num)
        × (nguys ≤ a'.max)
  unfolding array_preallocate
  array_preallocate_lem a ok junk nguys small few =
      let (m, e, big, more, top) = grow_max_lem nguys nguys a.max (omega arith) (omega arith) in
      let word : m < 2 ^ 30 = ground arith in
      let whole : block_cells m ≡ m = omega arith in
      let (out, r, l, t) = copy_all a.v a.num (block_cells m) junk (omega arith) (omega arith) in
      let t' : leb a.num a.max ≡ true = ground arith in
      (
        record a { max = m; v = some out },
        rw t' (rw e (rw r)),
        record { fits = omega arith; sized = l ∙ whole },
        t,
        refl,
        big,
      )
