-- ===== src/Uio/Zeros.antt =====
-- What uiomovezeros of kern/userprog/uio.c leaves in memory.
use mehrad.Base.{
  ℕ, zero, suc, ◌+◌, ◌-◌, ◌%◌, ◌^◌, ◌<◌, ◌≤◌, ◌≡◌, ◌≢◌, refl, ap, ◌∙◌, sym, List, some, ret, assert,
  ◌>>◌, ltb, if◌then◌else◌, arith, ◌⊎◌, inl, inr, min, length, get_elem?, dec_lt, ℕ_discrete, ==_ne,
}
use mehrad.Memory.Copy.{moved}
use mehrad.Memory.Cells.{IsMoved, moved-IsMoved, at_place, IsMoved-others}
use mehrad.Uio.{uio_read, Uio, advanced, uiomove, zero_rounds, is_read, uiomovezeros}
use mehrad.Uio.Transfer.{uiomove_read, advanced_zero}

-- The `n` bytes from `base` on are zero, and the others are as they were.
pub record IsZeroed (m m' : List ℕ) (base n : ℕ) : Type 0 where
  pub sized : length m' ≡ length m
  pub zeros : (i : ℕ) → i < n → get_elem? m' (base + i) ≡ some 0
  pub others : (i : ℕ) → (i < base) ⊎ (base + n ≤ i) → get_elem? m' i ≡ get_elem? m i

-- The uio reads, `n` bytes are left and have room in its buffer, and 16 zero bytes stand at `blank`,
-- outside the buffer.
pub record CanZero (blank n : ℕ) (m : List ℕ) (uio : Uio) : Type 0 where
  pub reads : uio.uio_rw ≡ uio_read
  pub wanted : n ≤ uio.uio_resid
  pub room : uio.uio_resid ≤ uio.iov_len
  pub resid_word : uio.uio_resid < 2 ^ 32
  pub offset_word : uio.uio_offset < 2 ^ 32
  pub buffer : uio.iov_base + n ≤ length m
  pub blank_in : blank + 16 ≤ length m
  pub blanks : (i : ℕ) → i < 16 → get_elem? m (blank + i) ≡ some 0
  pub apart : (blank + 16 ≤ uio.iov_base) ⊎ (uio.iov_base + n ≤ blank)

one_move :
    (blank n a : ℕ) (m : List ℕ) (uio : Uio)
    → CanZero blank n m uio
    → a ≤ n
    → a ≤ 16
    → uiomove blank a m uio ≡ ret (moved m uio.iov_base blank a, advanced uio a)
one_move blank n a m uio c h k =
    let w = c.wanted in
    let b = c.buffer in
    let z = c.blank_in in
    uiomove_read blank a m uio c.reads (omega arith) c.room c.resid_word c.offset_word (omega arith)
      (omega arith)

moved-CanZero :
    (blank n a : ℕ) (m : List ℕ) (uio : Uio)
    → CanZero blank n m uio
    → a ≤ n
    → IsMoved m (moved m uio.iov_base blank a) uio.iov_base blank a
    → CanZero blank (n - a) (moved m uio.iov_base blank a) (advanced uio a)
moved-CanZero blank n a m uio c h v =
    let w = c.wanted in
    let r = c.room in
    let b = c.buffer in
    let z = c.blank_in in
    let q = c.resid_word in
    let l = v.sized in
    record {
      reads = c.reads;
      wanted = omega arith;
      room = omega arith;
      resid_word = omega arith;
      offset_word = omega arith;
      buffer = omega arith;
      blank_in = omega arith;
      blanks = λ i t.
          IsMoved-others v (blank + i)
            (elim c.apart [ inl e ↦ inl (omega arith) | inr e ↦ inr (omega arith) ])
          ∙ c.blanks i t;
      apart = elim c.apart [ inl e ↦ inl (omega arith) | inr e ↦ inr (omega arith) ];
    }

both-IsZeroed :
    (blank n a : ℕ) (m m' : List ℕ) (uio : Uio)
    → CanZero blank n m uio
    → a ≤ n
    → a ≤ 16
    → IsMoved m (moved m uio.iov_base blank a) uio.iov_base blank a
    → IsZeroed (moved m uio.iov_base blank a) m' (uio.iov_base + a) (n - a)
    → IsZeroed m m' uio.iov_base n
both-IsZeroed blank n a m m' uio c h k v w = record {
  sized = w.sized ∙ v.sized;
  zeros = λ i l. elim (dec_lt i a) [
    | yes lt ↦
        w.others (uio.iov_base + i) (inl (omega arith)) ∙ v.inside i lt ∙ c.blanks i (omega arith)
    | no ge ↦
        at_place m' (uio.iov_base + i) (uio.iov_base + a + (i - a)) (omega arith)
        ∙ w.zeros (i - a) (omega arith)
  ];
  others = λ i o. elim o [
    | inl l ↦ w.others i (inl (omega arith)) ∙ v.below i l
    | inr g ↦ w.others i (inr (omega arith)) ∙ IsMoved-others v i (inr (omega arith))
  ];
}

advanced_twice :
    (uio : Uio) (a n : ℕ)
    → a ≤ n
    → n ≤ uio.uio_resid
    → uio.uio_resid ≤ uio.iov_len
    → uio.uio_resid < 2 ^ 32
    → advanced (advanced uio a) (n - a) ≡ advanced uio n
advanced_twice uio a n h w r q =
    let e₁ : uio.iov_base + a + (n - a) ≡ uio.iov_base + n = omega arith in
    let e₂ : uio.iov_len - a - (n - a) ≡ uio.iov_len - n = omega arith in
    let e₃ : ((uio.uio_offset + a) % 2 ^ 32 + (n - a)) % 2 ^ 32 ≡ (uio.uio_offset + n) % 2 ^ 32 =
      omega arith in
    let e₄ : ((uio.uio_resid + 2 ^ 32 - a) % 2 ^ 32 + 2 ^ 32 - (n - a)) % 2 ^ 32
        ≡ (uio.uio_resid + 2 ^ 32 - n) % 2 ^ 32 =
      omega arith in
    rw (e₁, e₂, e₃, e₄) refl

Zeroes : ℕ → ℕ → ℕ → List ℕ → Uio → Type 0
Zeroes rounds blank n m uio =
    (m' : List ℕ) × (zero_rounds rounds blank n m uio ≡ ret (m', advanced uio n))
    × IsZeroed m m' uio.iov_base n

nothing-IsZeroed : (m : List ℕ) (base : ℕ) → IsZeroed m m base 0
nothing-IsZeroed m base = record {
  sized = refl;
  zeros = λ i l. absurd (omega arith);
  others = λ i o. refl;
}

zero_rounds-none :
    (rounds blank n : ℕ) (m : List ℕ) (uio : Uio)
    → CanZero blank n m uio
    → n ≡ 0
    → Zeroes rounds blank n m uio
unfolding zero_rounds Zeroes
zero_rounds-none zero blank n m uio c e = rw e (
  m,
  ap (λ u. ret (m, u)) (sym (advanced_zero uio c.resid_word c.offset_word)),
  nothing-IsZeroed m uio.iov_base,
)
zero_rounds-none (suc rounds) blank n m uio c e = rw e (
  m,
  ap (λ u. ret (m, u)) (sym (advanced_zero uio c.resid_word c.offset_word)),
  nothing-IsZeroed m uio.iov_base,
)

next_round :
    (rounds blank n a : ℕ) (m m' : List ℕ) (uio : Uio)
    → CanZero blank n m uio
    → n ≢ 0
    → (if ltb n 16 then n else 16) ≡ a
    → a ≤ n
    → a ≤ 16
    → zero_rounds rounds blank (n - a) (moved m uio.iov_base blank a) (advanced uio a)
      ≡ ret (m', advanced (advanced uio a) (n - a))
    → zero_rounds (suc rounds) blank n m uio ≡ ret (m', advanced uio n)
unfolding zero_rounds
next_round rounds blank n a m m' uio c nz amt le le' q = rw (==_ne n 0 nz) (
    rw amt (
      rw (one_move blank n a m uio c le le')
        (q ∙ ap (λ u. ret (m', u)) (advanced_twice uio a n le c.wanted c.room c.resid_word))))

zero_rounds_lem :
    (rounds blank n : ℕ) (m : List ℕ) (uio : Uio)
    → CanZero blank n m uio
    → n ≤ rounds
    → Zeroes rounds blank n m uio
unfolding Zeroes
zero_rounds_lem zero blank n m uio c h = zero_rounds-none zero blank n m uio c (omega arith)
zero_rounds_lem (suc rounds) blank n m uio c h = elim (ℕ_discrete n 0) [
  | yes e ↦ zero_rounds-none (suc rounds) blank n m uio c e
  | no nz ↦
      let a : ℕ = min n 16 in
      let w = c.wanted in
      let r = c.room in
      let b = c.buffer in
      let z = c.blank_in in
      let le : a ≤ n = omega arith in
      let amt : (if ltb n 16 then n else 16) ≡ a = ground arith in
      let v = moved-IsMoved m uio.iov_base blank a (omega arith) (omega arith) in
      let (m', q, zeroed) =
        zero_rounds_lem rounds blank (n - a) (moved m uio.iov_base blank a) (advanced uio a)
          (moved-CanZero blank n a m uio c le v) (omega arith) in
      (
        m',
        next_round rounds blank n a m m' uio c nz amt le (omega arith) q,
        both-IsZeroed blank n a m m' uio c le (omega arith) v zeroed,
      )
]

-- For a uio that reads, with as many bytes left and room for them, and 16 zero bytes outside its
-- buffer: uiomovezeros puts zeros into the buffer, as many as are asked for, in rounds of up to 16,
-- changes no other byte, and advances the uio by as much.
pub uiomovezeros_lem :
    (blank n : ℕ) (m : List ℕ) (uio : Uio)
    → CanZero blank n m uio
    → (m' : List ℕ) × (uiomovezeros blank n m uio ≡ ret (m', advanced uio n))
      × IsZeroed m m' uio.iov_base n
unfolding uiomovezeros Zeroes
uiomovezeros_lem blank n m uio c =
    let (m', e, z) = zero_rounds_lem n blank n m uio c (omega arith) in
    (m', ap (λ w. assert (is_read w) >> zero_rounds n blank n m uio) c.reads ∙ e, z)
