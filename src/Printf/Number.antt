-- ===== src/Printf/Number.antt =====
-- The digits that __pf_printnum makes of a number.
use mehrad.Base.{
  ℕ, zero, suc, ◌+◌, ◌*◌, ◌/◌, ◌%◌, ◌^◌, ◌≤◌, ◌<◌, ◌≡◌, refl, ap, ◌∙◌, sym, subst, List, [], ◌∷◌,
  ◌++◌, ret, ltb, if◌then◌else◌, get_elem?, set, length, drop, replicate, some, arith, Bool-cases,
  inl, inr, ◌⊎◌, drop-set_self, length-set, lt→ltb, get_elem?-of_lt,
}
use mathlib.Core.List.{append_assoc, append-nil}
use native.Mathlib.Nat.{pow-suc, pow-zero, div-add-mod, div-add-mod', div-eq_of_lt}
use mehrad.Printf.{digits, print_digits, number_text}

-- The digit with value `v`.
abbrev pub IsDigit : ℕ → ℕ → ℕ → Type 0
IsDigit base v c = (v < base) × (get_elem? digits v ≡ some c)

-- `t` writes `n` in base `base`: its first digit, its others, most significant first.
pub data Writes (base : ℕ) : ℕ → List ℕ → Type 0 where
  single : (n c : ℕ) → IsDigit base n c → Writes base n (c ∷ [])
  append :
      (n v c : ℕ) (t : List ℕ)
      → 0 < n
      → Writes base n t
      → IsDigit base v c
      → Writes base (n * base + v) (t ++ c ∷ [])

digit_of : (v : ℕ) → v < 16 → (c : ℕ) × (get_elem? digits v ≡ some c)
digit_of v h = get_elem?-of_lt digits v h

div_bound : (n b q : ℕ) → 0 < b → n < q * b → n / b < q
div_bound n b q hb h = grind arith

-- One round of the loop.
print_digits-step :
    (base n c : ℕ) (buf : List ℕ) (x : ℕ)
    → 0 < base
    → get_elem? digits (n % base) ≡ some c
    → print_digits base n buf (suc x) ≡ (
        if ltb 0 (n / base)
        then print_digits base (n / base) (set buf x c) x
        else ret (drop x (set buf x c)))
unfolding print_digits
print_digits-step base n c buf x hb g = rw (lt→ltb 0 base hb) (rw g refl)

print_digits_lem :
    (base n : ℕ) (buf : List ℕ) (slots : ℕ)
    → 0 < base
    → base ≤ 16
    → n < base ^ slots
    → 0 < slots
    → slots ≤ length buf
    → (t : List ℕ) × (print_digits base n buf slots ≡ ret (t ++ drop slots buf)) × Writes base n t
print_digits_lem base n buf zero hb h16 h pos fits = absurd (omega arith)
print_digits_lem base n buf (suc x) hb h16 h pos fits =
    let (c, g) = digit_of (n % base) (omega arith) in
    let step = print_digits-step base n c buf x hb g in
    let last = drop-set_self buf x c (omega arith) in
    let rest =
      print_digits_lem base (n / base) (set buf x c) x hb h16
        (div_bound n base (base ^ x) hb (subst (λ (k : ℕ). n < k) (pow-suc base x) h)) in
    elim (Bool-cases (ltb 0 (n / base))) [
      | inr done ↦
          let small : n / base ≡ 0 = ground arith in
          let whole : n % base ≡ n =
            let d = div-add-mod n base in let z = ap (λ (k : ℕ). base * k) small in omega arith in
          (
            c ∷ [],
            step ∙ rw done (ap ret last),
            single n c (omega arith, ap (get_elem? digits) (sym whole) ∙ g),
          )
      | inl more ↦
          let some_left : 0 < n / base = ground arith in
          let (t, e, w) =
            rest (enough x n base hb some_left h) (omega (arith, length-set buf x c)) in
          (
            t ++ c ∷ [],
            step
                ∙ rw more (
                    e
                    ∙ ap (λ (u : List ℕ). ret (t ++ u)) last
                    ∙ ap ret (sym (append_assoc t (c ∷ []) (drop (suc x) buf)))),
            subst (λ (k : ℕ). Writes base k (t ++ c ∷ [])) (div-add-mod' n base)
                (append (n / base) (n % base) c t some_left w (omega arith, g)),
          )
    ]
  where
    enough : (x n base : ℕ) → 0 < base → 0 < n / base → n < base ^ suc x → 0 < x
    enough zero n base hb h k =
        let one : base ^ suc zero ≡ base =
          pow-suc base zero ∙ ap (λ (k : ℕ). k * base) (pow-zero base) ∙ omega arith in
        let none_left = div-eq_of_lt (subst (λ (k : ℕ). n < k) one k) in absurd (omega arith)
    enough (suc x) n base hb h k = omega arith

-- The bases of %o, %d and %u, %x and %p.
abbrev pub IsBase : ℕ → Type 0
IsBase base = (base ≡ 8) ⊎ ((base ≡ 10) ⊎ (base ≡ 16))

number_text_of :
    (base n : ℕ)
    → 0 < base
    → base ≤ 16
    → n < base ^ 11
    → (t : List ℕ) × (number_text base n ≡ ret t) × Writes base n t
unfolding number_text
number_text_of base n lo hi h =
    let (t, e, w) =
      print_digits_lem base n (replicate 11 0) 11 lo hi h (omega arith) (omega arith) in
    (t, e ∙ ap ret (append-nil t), w)

-- For a 32-bit number and one of the bases that the formats use, the buffer of __pf_printnum is
-- large enough, and the text is that number in that base, with no leading zero.
pub number_text_lem :
    (base n : ℕ)
    → IsBase base
    → n < 2 ^ 32
    → (t : List ℕ) × (number_text base n ≡ ret t) × Writes base n t
number_text_lem base n (inl e) h =
    number_text_of base n (omega arith) (omega arith)
      (subst (λ (b : ℕ). n < b ^ 11) (sym e) (omega arith))
number_text_lem base n (inr (inl e)) h =
    number_text_of base n (omega arith) (omega arith)
      (subst (λ (b : ℕ). n < b ^ 11) (sym e) (omega arith))
number_text_lem base n (inr (inr e)) h =
    number_text_of base n (omega arith) (omega arith)
      (subst (λ (b : ℕ). n < b ^ 11) (sym e) (omega arith))
