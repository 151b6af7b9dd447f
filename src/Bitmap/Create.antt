-- ===== src/Bitmap/Create.antt =====
-- bitmap_create of kern/lib/bitmap.c.
use mehrad.Base.{
  subst, lt→ltb, ltb→lt, ==_iff, ℕ, zero, suc, ◌+◌, ◌-◌, ◌*◌, ◌/◌, ◌%◌, ◌^◌, ◌≤◌, ◌<◌, ◌≡◌, refl,
  ap, ◌∙◌, true, false, List, Option, some, ret, ltb, ◌==◌, get_elem?, set, length, length-set,
  replicate, length-replicate, get_elem?-of_lt, get_elem?-ge, arith, dec_lt, Bool-cases, inl, inr,
}
use mehrad.Bitmap.{Bitmap, div_round_up, test_bit, set_bit, mark_rest, bitmap_create}
use mehrad.Bitmap.Bits.{byte_range, test_bit-zero}
use mehrad.Bitmap.Usage.{used, used_in, AreBytes, AreBytes-set, used-set_bit, IsValid}

-- Bits below `nbits` are clear, those from there up to `upto` are in use.
record Split (v : List ℕ) (nbits upto : ℕ) : Type 0 where
  bytes : AreBytes v
  clear : (i : ℕ) → i < nbits → used v i ≡ false
  on : (i : ℕ) → nbits ≤ i → i < upto → used v i ≡ true

mark_rest_lem :
    (v : List ℕ) (ix j n nbits : ℕ)
    → ix < length v
    → j + n ≡ 8
    → nbits ≤ ix * 8 + j
    → Split v nbits (ix * 8 + j)
    → (v' : List ℕ) × (mark_rest v ix j n ≡ ret v')
      × (length v' ≡ length v)
      × Split v' nbits (ix * 8 + 8)
unfolding mark_rest
mark_rest_lem v ix j zero nbits h e le s =
    let q : ix * 8 + j ≡ ix * 8 + 8 = omega arith in (v, refl, refl, rw q at s)
mark_rest_lem v ix j (suc n) nbits h e le s =
    let (w, g) = get_elem?-of_lt v ix h in
    let law = λ (i : ℕ). used-set_bit v ix j w i s.bytes g (omega arith) in
    let next : Split (set v ix (set_bit w j)) nbits (ix * 8 + suc j) = record {
      bytes =
          AreBytes-set v ix (set_bit w j) s.bytes (byte_range w j (s.bytes ix w g) (omega arith)).0;
      clear = λ i lt. law i ∙ ground (arith, s.clear i lt);
      on = λ i from to. law i ∙ ground (arith, s.on i from);
    } in
    let (v', r, l, s') =
      mark_rest_lem (set v ix (set_bit w j)) ix (suc j) n nbits
        (omega (arith, length-set v ix (set_bit w j))) (omega arith) (omega arith) next in
    (v', rw g r, l ∙ length-set v ix (set_bit w j), s')

get_elem?-replicate : (n i x w : ℕ) → get_elem? (replicate n x) i ≡ some w → w ≡ x
get_elem?-replicate zero i x w e = cc
get_elem?-replicate (suc n) zero x w e = ground arith
get_elem?-replicate (suc n) (suc i) x w e = get_elem?-replicate n i x w e

zeros-clear : (n i : ℕ) → i < n * 8 → used (replicate n 0) i ≡ false
unfolding used
zeros-clear n i h =
    let len : length (replicate {A = ℕ} n 0) ≡ n = length-replicate n 0 in
    let (w, g) = get_elem?-of_lt (replicate {A = ℕ} n 0) (i / 8) (omega arith) in
    let z = get_elem?-replicate n (i / 8) 0 w g in
    ap (λ (o : Option ℕ). used_in o (i % 8)) g
    ∙ ap (λ (x : ℕ). test_bit x (i % 8)) z
    ∙ test_bit-zero (i % 8) (omega arith)

past-used : (v : List ℕ) (i : ℕ) → length v * 8 ≤ i → used v i ≡ true
unfolding used
past-used v i h = ap (λ (o : Option ℕ). used_in o (i % 8)) (get_elem?-ge v (i / 8) (omega arith))

Split-IsValid :
    (v : List ℕ) (nbits : ℕ)
    → nbits < 2 ^ 32 - 8
    → length v ≡ div_round_up nbits
    → Split v nbits (length v * 8)
    → IsValid (record { nbits = nbits; v = v })
Split-IsValid v nbits small sized s = record {
  small = small;
  sized = sized;
  bytes = s.bytes;
  overhang = λ i past. elim (dec_lt i (length v * 8)) [
    | yes inside ↦ s.on i past inside
    | no out ↦ past-used v i (omega arith)
  ];
}

zeros-Split : (n nbits : ℕ) → nbits ≤ n * 8 → Split (replicate n 0) nbits nbits
zeros-Split n nbits h = record {
  bytes = λ ix w g. omega (arith, get_elem?-replicate n ix 0 w g);
  clear = λ i lt. zeros-clear n i (omega arith);
  on = λ i from to. absurd (omega arith);
}

-- With memory, bitmap_create makes a valid bitmap in which every bit is clear.
pub bitmap_create_lem :
    (nbits : ℕ)
    → nbits < 2 ^ 32 - 8
    → (b : Bitmap) × (bitmap_create true true nbits ≡ ret (some b))
      × IsValid b
      × (b.nbits ≡ nbits)
      × ((i : ℕ) → i < nbits → used b.v i ≡ false)
unfolding bitmap_create
bitmap_create_lem nbits small =
    let words = div_round_up nbits in
    let v : List ℕ = replicate words 0 in
    let len : length v ≡ words = length-replicate words 0 in
    let start = zeros-Split words nbits (omega arith) in
    elim (Bool-cases (ltb (nbits / 8) words)) [
      | inl t ↦
          let ix = words - 1 in
          let over = nbits - ix * 8 in
          let lt : nbits / 8 < words = ltb→lt _ _ t in
          let q : nbits ≡ ix * 8 + over = omega arith in
          let a : (nbits / 8 == words - 1) ≡ true = (==_iff _ _).1 (omega arith) in
          let b : ltb 0 over ≡ true = lt→ltb _ _ (omega arith) in
          let c : ltb over 8 ≡ true = lt→ltb _ _ (omega arith) in
          let (v', r, l, s) =
            mark_rest_lem v ix over (8 - over) nbits (omega arith) (omega arith) (omega arith)
              (subst (Split v nbits) q start) in
          let z : ix * 8 + 8 ≡ length v' * 8 = omega arith in
          (
            record { nbits = nbits; v = v' },
            rw t (rw a (rw b (rw c (rw r)))),
            Split-IsValid v' nbits small (l ∙ len) (rw z at s),
            refl,
            s.clear,
          )
      | inr t ↦
          let ge : words ≤ nbits / 8 = ground arith in
          let z : nbits ≡ length v * 8 = omega arith in
          (
            record { nbits = nbits; v = v },
            rw t,
            Split-IsValid v nbits small len (subst (Split v nbits) z start),
            refl,
            start.clear,
          )
    ]
