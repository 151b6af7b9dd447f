-- ===== src/Bitmap/Usage.antt =====
-- Which bits of a bitmap of kern/lib/bitmap.c are in use, and what the marking operations change.
use mehrad.Base.{
  ℕ, ◌+◌, ◌-◌, ◌*◌, ◌/◌, ◌%◌, ◌^◌, ◌≤◌, ◌<◌, ◌≡◌, refl, ap, ◌∙◌, sym, Bool, true, false, List,
  Option, none, some, ret, panic, ltb, ◌==◌, if◌then◌else◌, get_elem?, set, length, length-set,
  get_elem?-set_self, get_elem?-set_ne, get_elem?-lt, get_elem?-of_lt, arith, Bool-cases, inl, inr,
  ◌⊎◌, ℕ_discrete, ==_ne,
}
use mehrad.Bitmap.{
  Bitmap, div_round_up, test_bit, set_bit, clear_bit, bitmap_mark, bitmap_unmark, bitmap_isset,
}
use mehrad.Bitmap.Bits.{test_bit-set_bit, test_bit-clear_bit, byte_range}

-- Bit `i` of the words: in use if it is set, or if there is no such bit.
abbrev pub used_in : Option ℕ → ℕ → Bool
used_in none o = true
used_in (some w) o = test_bit w o

unfoldable pub used : List ℕ → ℕ → Bool
used v i = used_in (get_elem? v (i / 8)) (i % 8)

abbrev pub AreBytes : List ℕ → Type 0
AreBytes v = (ix w : ℕ) → get_elem? v ix ≡ some w → w < 256

pub AreBytes-set : (v : List ℕ) (ix x : ℕ) → AreBytes v → x < 256 → AreBytes (set v ix x)
AreBytes-set v ix x h hx j w g = elim (ℕ_discrete ix j) [
  | no ne ↦ h j w (sym (get_elem?-set_ne v ix j x ne) ∙ g)
  | yes e ↦
      let lt = get_elem?-lt (set v ix x) j w g in
      let own = get_elem?-set_self v ix x (omega (arith, length-set v ix x)) in ground (arith, own)
]

-- Writing word `ix` anew changes the bits of that word alone.
used-set :
    (v : List ℕ) (ix x i : ℕ)
    → ix < length v
    → used (set v ix x) i ≡ (if i / 8 == ix then test_bit x (i % 8) else used v i)
unfolding used
used-set v ix x i h = elim (ℕ_discrete (i / 8) ix) [
  | yes e ↦
      let t : (i / 8 == ix) ≡ true = ground arith in
      rw t (
        ap (λ (o : Option ℕ). used_in o (i % 8))
          (ap (get_elem? (set v ix x)) e ∙ get_elem?-set_self v ix x h))
  | no ne ↦
      rw (==_ne (i / 8) ix ne) (
        ap (λ (o : Option ℕ). used_in o (i % 8))
          (get_elem?-set_ne v ix (i / 8) x (λ e. ne (sym e))))
]

pub used-word :
    (v : List ℕ) (ix w i : ℕ) → get_elem? v ix ≡ some w → i / 8 ≡ ix → used v i ≡ test_bit w (i % 8)
unfolding used
used-word v ix w i g e = ap (λ (o : Option ℕ). used_in o (i % 8)) (ap (get_elem? v) e ∙ g)

-- Setting bit `o` of word `ix` puts bit `ix * 8 + o` in use, and no other.
pub used-set_bit :
    (v : List ℕ) (ix o w i : ℕ)
    → AreBytes v
    → get_elem? v ix ≡ some w
    → o < 8
    → used (set v ix (set_bit w o)) i ≡ (if ix * 8 + o == i then true else used v i)
used-set_bit v ix o w i h g ho =
    let law = test_bit-set_bit w o (i % 8) (h ix w g) ho (omega arith) in
    used-set v ix (set_bit w o) i (get_elem?-lt v ix w g)
    ∙ ground (arith, law, used-word v ix w i g)

pub used-clear_bit :
    (v : List ℕ) (ix o w i : ℕ)
    → AreBytes v
    → get_elem? v ix ≡ some w
    → o < 8
    → used (set v ix (clear_bit w o)) i ≡ (if ix * 8 + o == i then false else used v i)
used-clear_bit v ix o w i h g ho =
    let law = test_bit-clear_bit w o (i % 8) (h ix w g) ho (omega arith) in
    used-set v ix (clear_bit w o) i (get_elem?-lt v ix w g)
    ∙ ground (arith, law, used-word v ix w i g)

-- Bytes, as many as the bits need, with every bit past the end marked in use.
pub record IsValid (b : Bitmap) : Type 0 where
  pub small : b.nbits < 2 ^ 32 - 8
  pub sized : length b.v ≡ div_round_up b.nbits
  pub bytes : AreBytes b.v
  pub overhang : (i : ℕ) → b.nbits ≤ i → used b.v i ≡ true

word_of :
    (b : Bitmap) (i : ℕ)
    → IsValid b
    → i < b.nbits
    → (w : ℕ) × (get_elem? b.v (i / 8) ≡ some w) × (used b.v i ≡ test_bit w (i % 8))
unfolding used
word_of b i ok h =
    let (w, g) = get_elem?-of_lt b.v (i / 8) (omega (arith, ok.sized, ok.small)) in
    (w, g, ap (λ (o : Option ℕ). used_in o (i % 8)) g)

-- bitmap_isset reads the bit.
pub bitmap_isset_lem :
    (b : Bitmap) (i : ℕ) → IsValid b → i < b.nbits → bitmap_isset b i ≡ ret (used b.v i)
unfolding bitmap_isset
bitmap_isset_lem b i ok h = let (w, g, u) = word_of b i ok h in rw g (ap ret (sym u))

set_bit-IsValid :
    (b : Bitmap) (ix o w : ℕ)
    → IsValid b
    → get_elem? b.v ix ≡ some w
    → o < 8
    → IsValid (record b { v = set b.v ix (set_bit w o) })
set_bit-IsValid b ix o w ok g ho = record {
  small = ok.small;
  sized = length-set b.v ix (set_bit w o) ∙ ok.sized;
  bytes = AreBytes-set b.v ix (set_bit w o) ok.bytes (byte_range w o (ok.bytes ix w g) ho).0;
  overhang = λ i past. used-set_bit b.v ix o w i ok.bytes g ho ∙ ground (arith, ok.overhang i past);
}

-- What an operation leaves: a valid bitmap of the same size, in which bit `i` is `value` and every
-- other bit is as it was.
pub record Marked (b : Bitmap) (i : ℕ) (value : Bool) (b' : Bitmap) : Type 0 where
  pub valid : IsValid b'
  pub same_size : b'.nbits ≡ b.nbits
  pub bit : (j : ℕ) → used b'.v j ≡ (if i == j then value else used b.v j)

pub set_bit-Marked :
    (b : Bitmap) (ix o w i : ℕ)
    → IsValid b
    → get_elem? b.v ix ≡ some w
    → o < 8
    → ix * 8 + o ≡ i
    → Marked b i true (record b { v = set b.v ix (set_bit w o) })
set_bit-Marked b ix o w i ok g ho e = record {
  valid = set_bit-IsValid b ix o w ok g ho;
  same_size = refl;
  bit = λ j. ground (arith, used-set_bit b.v ix o w j ok.bytes g ho);
}

-- bitmap_mark puts a clear bit in use, and panics on one that is in use or past the end.
pub bitmap_mark_lem :
    (b : Bitmap) (i : ℕ)
    → IsValid b
    → ((b' : Bitmap) × (bitmap_mark b i ≡ ret b')
        × (i < b.nbits)
        × (used b.v i ≡ false)
        × Marked b i true b')
      ⊎ ((bitmap_mark b i ≡ panic) × ((b.nbits ≤ i) ⊎ (used b.v i ≡ true)))
unfolding bitmap_mark
bitmap_mark_lem b i ok = elim (Bool-cases (ltb i b.nbits)) [
  | inr out ↦ inr (rw out, inl (ground arith))
  | inl t ↦
      let (w, g, u) = word_of b i ok (ground arith) in
      elim (Bool-cases (test_bit w (i % 8))) [
        | inl on ↦ inr (rw t (rw g (rw on)), inr (u ∙ on))
        | inr off ↦ inl (
          record b { v = set b.v (i / 8) (set_bit w (i % 8)) },
          rw t (rw g (rw off)),
          ground arith,
          u ∙ off,
          set_bit-Marked b (i / 8) (i % 8) w i ok g (omega arith) (omega arith),
        )
      ]
]

clear_bit-Marked :
    (b : Bitmap) (i w : ℕ)
    → IsValid b
    → get_elem? b.v (i / 8) ≡ some w
    → i < b.nbits
    → Marked b i false (record b { v = set b.v (i / 8) (clear_bit w (i % 8)) })
clear_bit-Marked b i w ok g h =
    let law : (j : ℕ)
        → used (set b.v (i / 8) (clear_bit w (i % 8))) j ≡ (if i == j then false else used b.v j) =
      λ j.
        used-clear_bit b.v (i / 8) (i % 8) w j ok.bytes g (omega arith)
        ∙ ap (λ (k : ℕ). if k == j then false else used b.v j) (omega arith) in
    record {
      valid = record {
        small = ok.small;
        sized = length-set b.v (i / 8) (clear_bit w (i % 8)) ∙ ok.sized;
        bytes =
            AreBytes-set b.v (i / 8) (clear_bit w (i % 8)) ok.bytes
              (byte_range w (i % 8) (ok.bytes (i / 8) w g) (omega arith)).1;
        overhang = λ j past. law j ∙ ground (arith, ok.overhang j past);
      };
      same_size = refl;
      bit = law;
    }

-- bitmap_unmark clears a bit in use, and panics on one that is clear or past the end.
pub bitmap_unmark_lem :
    (b : Bitmap) (i : ℕ)
    → IsValid b
    → ((b' : Bitmap) × (bitmap_unmark b i ≡ ret b')
        × (i < b.nbits)
        × (used b.v i ≡ true)
        × Marked b i false b')
      ⊎ ((bitmap_unmark b i ≡ panic) × ((b.nbits ≤ i) ⊎ (used b.v i ≡ false)))
unfolding bitmap_unmark
bitmap_unmark_lem b i ok = elim (Bool-cases (ltb i b.nbits)) [
  | inr out ↦ inr (rw out, inl (ground arith))
  | inl t ↦
      let (w, g, u) = word_of b i ok (ground arith) in
      elim (Bool-cases (test_bit w (i % 8))) [
        | inr off ↦ inr (rw t (rw g (rw off)), inr (u ∙ off))
        | inl on ↦ inl (
          record b { v = set b.v (i / 8) (clear_bit w (i % 8)) },
          rw t (rw g (rw on)),
          ground arith,
          u ∙ on,
          clear_bit-Marked b i w ok g (ground arith),
        )
      ]
]
