-- ===== src/Bitmap/Alloc.antt =====
-- bitmap_alloc of kern/lib/bitmap.c: the first clear bit.
use mathlib.Core.Option.{some-injective}
use mehrad.Base.{
  dec_lt, ℕ_discrete, lt→ltb, ℕ, zero, suc, ◌+◌, ◌*◌, ◌%◌, ◌≤◌, ◌<◌, ◌≡◌, refl, ap, ◌∙◌, sym, true,
  false, Option, none, some, ret, ltb, ◌==◌, get_elem?, set, length, get_elem?-of_lt, arith,
  Option-cases, Bool-cases, inl, inr,
}
use mehrad.Bitmap.{Bitmap, test_bit, set_bit, find_bit, alloc_from, bitmap_alloc}
use mehrad.Bitmap.Bits.{test_bit-full, find_bit-ne-none}
use mehrad.Bitmap.Usage.{used, used-word, IsValid, Marked, set_bit-Marked}

find_bit_lem :
    (w o n x : ℕ)
    → find_bit w o n ≡ some x
    → (o ≤ x)
      × (x < o + n)
      × (test_bit w x ≡ false)
      × ((y : ℕ) → o ≤ y → y < x → test_bit w y ≡ true)
unfolding find_bit
find_bit_lem w o zero x e = cc
find_bit_lem w o (suc n) x e = elim (Bool-cases (test_bit w o)) [
  | inr off ↦
      let q : o ≡ x = some-injective _ _ (rw off at e) in
      (omega arith, omega arith, ap (test_bit w) (sym q) ∙ off, λ y lo hi. absurd (omega arith))
  | inl on ↦
      let (lo, hi, c, all) = find_bit_lem w (suc o) n x (rw on at e) in
      (
        omega arith,
        omega arith,
        c,
        λ y from to. elim (ℕ_discrete o y) [
          | yes q ↦ ap (test_bit w) (sym q) ∙ on
          | no ne ↦ all y (omega arith) to
        ],
      )
]

-- What bitmap_alloc promises: the lowest clear bit, now marked; or none, if every bit is in use.
pub data Allocates (b : Bitmap) : Option ℕ × Bitmap → Type 0 where
  allocated :
      (i : ℕ) (b' : Bitmap)
      → i < b.nbits
      → used b.v i ≡ false
      → ((j : ℕ) → j < i → used b.v j ≡ true)
      → Marked b i true b'
      → Allocates b (some i, b')
  full : ((j : ℕ) → used b.v j ≡ true) → Allocates b (none, b)

-- A word of 0xff extends the stretch of bits in use.
full_word :
    (b : Bitmap) (ix w : ℕ)
    → get_elem? b.v ix ≡ some w
    → (w == 255) ≡ true
    → ((j : ℕ) → j < ix * 8 → used b.v j ≡ true)
    → (j : ℕ) → j < suc ix * 8
    → used b.v j ≡ true
full_word b ix w g t h j lt = elim (dec_lt j (ix * 8)) [
  | yes before ↦ h j before
  | no from ↦
      let q : w ≡ 255 = ground arith in
      used-word b.v ix w j g (omega arith)
      ∙ ap (λ (x : ℕ). test_bit x (j % 8)) q
      ∙ test_bit-full (j % 8) (omega arith)
]

free_bit :
    (b : Bitmap) (ix w o : ℕ)
    → IsValid b
    → get_elem? b.v ix ≡ some w
    → find_bit w 0 8 ≡ some o
    → ((j : ℕ) → j < ix * 8 → used b.v j ≡ true)
    → (ix * 8 + o < b.nbits)
      × (o < 8)
      × (used b.v (ix * 8 + o) ≡ false)
      × ((j : ℕ) → j < ix * 8 + o → used b.v j ≡ true)
free_bit b ix w o ok g e h =
    let (lo, hi, c, all) = find_bit_lem w 0 8 o e in
    let r : (ix * 8 + o) % 8 ≡ o = omega arith in
    let clear : used b.v (ix * 8 + o) ≡ false =
      used-word b.v ix w (ix * 8 + o) g (omega arith) ∙ ap (test_bit w) r ∙ c in
    (
      elim (dec_lt (ix * 8 + o) b.nbits) [
        | yes p ↦ p
        | no out ↦ absurd (cc (ok.overhang (ix * 8 + o) (omega arith), clear))
      ],
      hi,
      clear,
      λ j lt. elim (dec_lt j (ix * 8)) [
        | yes before ↦ h j before
        | no from ↦ used-word b.v ix w j g (omega arith) ∙ all (j % 8) (omega arith) (omega arith)
      ],
    )

alloc_from_lem :
    (b : Bitmap) (ix n : ℕ)
    → IsValid b
    → ix + n ≡ length b.v
    → ((j : ℕ) → j < ix * 8 → used b.v j ≡ true)
    → (r : Option ℕ × Bitmap) × (alloc_from b ix n ≡ ret r) × Allocates b r
unfolding alloc_from
alloc_from_lem b ix zero ok e h = ((none, b), refl, full everywhere)
  where
    everywhere : (j : ℕ) → used b.v j ≡ true
    everywhere j = elim (dec_lt j (ix * 8)) [
      | yes before ↦ h j before
      | no from ↦ ok.overhang j (omega (arith, ok.sized, ok.small))
    ]
alloc_from_lem b ix (suc n) ok e h =
    let (w, g) = get_elem?-of_lt b.v ix (omega arith) in
    elim (Bool-cases (w == 255)) [
      | inl t ↦
          let (r, q, a) = alloc_from_lem b (suc ix) n ok (omega arith) (full_word b ix w g t h) in
          (r, rw g (rw t q), a)
      | inr t ↦ elim (Option-cases (find_bit w 0 8)) [
        | inl f ↦ absurd (find_bit-ne-none w (ok.bytes ix w g) t f)
        | inr (o, f) ↦
            let (lt, ho, clear, below) = free_bit b ix w o ok g f h in
            let b' : Bitmap = record b { v = set b.v ix (set_bit w o) } in
            let a : ltb (ix * 8 + o) b.nbits ≡ true = lt→ltb _ _ lt in
            (
              (some (ix * 8 + o), b'),
              rw g (rw t (rw f (rw a))),
              allocated (ix * 8 + o) b' lt clear below (set_bit-Marked b ix o w _ ok g ho refl),
            )
      ]
    ]

-- bitmap_alloc never panics on a valid bitmap: it marks the lowest clear bit and hands it back, or
-- reports ENOSPC and changes nothing, exactly when every bit is in use.
pub bitmap_alloc_lem :
    (b : Bitmap) → IsValid b → (r : Option ℕ × Bitmap) × (bitmap_alloc b ≡ ret r) × Allocates b r
unfolding bitmap_alloc
bitmap_alloc_lem b ok =
    let (r, q, a) =
      alloc_from_lem b 0 (length b.v) ok (omega arith) (λ j lt. absurd (omega arith)) in
    (r, ap (alloc_from b 0) (sym ok.sized) ∙ q, a)
