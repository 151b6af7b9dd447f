-- ===== src/Text/Number.antt =====
-- atoi reads what printf writes.
use mehrad.Base.{
  ℕ, zero, suc, ◌+◌, ◌-◌, ◌*◌, ◌%◌, ◌<◌, ◌≤◌, ◌≡◌, ◌≢◌, refl, ap, ◌∙◌, sym, subst, Bool, true,
  false, List, [], ◌∷◌, ◌++◌, Outcome, ret, leb, ==_ne, if◌then◌else◌, arith, inl, inr, some, ◌>>=◌,
  get_elem?, length, Bool-cases,
}
use mathlib.Core.List.{append_assoc}
use mehrad.Printf.{
  intsz, word, int_limit, Pf, digits, number_text, pf_print, pf_printnum, pf_getnum, pf_setbase,
  pf_endfield, pf_send, send_all, start,
}
use mehrad.Printf.Number.{Writes, IsDigit, number_text_lem}
use mehrad.Printf.Field.{fill_count, printnum_lem}
use mehrad.Printf.Sink.{text_of, collect}
use mehrad.Text.{strchr, decimal_digits, read_digits, atoi_signed, skip_blanks, atoi}
use mehrad.Text.Strings.{terminated}

digit_row :
    (v : ℕ)
    → v < 10
    → (ch : ℕ) × (get_elem? digits v ≡ some ch)
      × (ch ≡ 48 + v)
      × (ch ≢ 0)
      × (strchr decimal_digits ch ≡ ret (some v))
unfolding strchr
digit_row zero h = (48, refl, omega arith, omega arith, refl)
digit_row (suc zero) h = (49, refl, omega arith, omega arith, refl)
digit_row (suc (suc zero)) h = (50, refl, omega arith, omega arith, refl)
digit_row (suc (suc (suc zero))) h = (51, refl, omega arith, omega arith, refl)
digit_row (suc (suc (suc (suc zero)))) h = (52, refl, omega arith, omega arith, refl)
digit_row (suc (suc (suc (suc (suc zero))))) h = (53, refl, omega arith, omega arith, refl)
digit_row (suc (suc (suc (suc (suc (suc zero)))))) h = (54, refl, omega arith, omega arith, refl)
digit_row (suc (suc (suc (suc (suc (suc (suc zero))))))) h =
    (55, refl, omega arith, omega arith, refl)
digit_row (suc (suc (suc (suc (suc (suc (suc (suc zero)))))))) h =
    (56, refl, omega arith, omega arith, refl)
digit_row (suc (suc (suc (suc (suc (suc (suc (suc (suc zero))))))))) h =
    (57, refl, omega arith, omega arith, refl)
digit_row (suc (suc (suc (suc (suc (suc (suc (suc (suc (suc v)))))))))) h = absurd (omega arith)

-- The digit with value `v`, as atoi finds it.
digit_value :
    (v c : ℕ) → IsDigit 10 v c → (c ≡ 48 + v) × (c ≢ 0) × (strchr decimal_digits c ≡ ret (some v))
digit_value v c (lt, g) =
    let (ch, e, at, nz, f) = digit_row v lt in
    let q : ch ≡ c = cc in
    subst (λ (x : ℕ). (x ≡ 48 + v) × (x ≢ 0) × (strchr decimal_digits x ≡ ret (some v))) q
      (at, nz, f)

read_digits-step :
    (val v c : ℕ) (s : List ℕ)
    → IsDigit 10 v c
    → read_digits val (c ∷ s) ≡ read_digits ((val * 10 + v) % word) s
unfolding read_digits
read_digits-step val v c s d = let (at, nz, f) = digit_value v c d in rw (==_ne c 0 nz) (rw f refl)

read_digits_lem :
    {n : ℕ} {t : List ℕ} (s : List ℕ)
    → Writes 10 n t
    → n < word
    → read_digits 0 (t ++ s) ≡ read_digits n s
read_digits_lem s (Writes.single n c d) h =
    read_digits-step 0 n c s d ∙ ap (λ (k : ℕ). read_digits k s) (omega arith)
read_digits_lem s (Writes.append n v c t pos w d) h =
    ap (read_digits 0) (append_assoc t (c ∷ []) s)
    ∙ read_digits_lem (c ∷ s) w (omega arith)
    ∙ read_digits-step n v c s d
    ∙ ap (λ (k : ℕ). read_digits k s) (omega arith)

first_of_number :
    {n : ℕ} {t : List ℕ}
    → Writes 10 n t
    → (v : ℕ) × (c : ℕ) × (r : List ℕ) × (t ≡ c ∷ r) × IsDigit 10 v c
first_of_number (Writes.single n c d) = (n, c, [], refl, d)
first_of_number (Writes.append n v c t pos w d) =
    let (v', c', r, e, d') = first_of_number w in
    (v', c', r ++ c ∷ [], ap (λ (u : List ℕ). u ++ c ∷ []) e, d')

not-blank :
    (v c : ℕ) (s : List ℕ)
    → IsDigit 10 v c
    → (skip_blanks (c ∷ s) ≡ c ∷ s) × (atoi_signed (c ∷ s) ≡ read_digits 0 (c ∷ s))
unfolding skip_blanks atoi_signed
not-blank v c s d =
    let (at, nz, f) = digit_value v c d in let lt = d.0 in (ground arith, ground arith)

-- A text that is the decimal of the int whose pattern is `w`.
pub data IsDecimal (w : ℕ) : List ℕ → Type 0 where
  positive : (t : List ℕ) → w < int_limit → Writes 10 w t → IsDecimal w t
  negative : (t : List ℕ) → int_limit ≤ w → Writes 10 (word - w) t → IsDecimal w (b'-' ∷ t)

at_nul : (n : ℕ) (rest : List ℕ) → read_digits n (0 ∷ rest) ≡ ret n
unfolding read_digits
at_nul n rest = refl

atoi_lem :
    {w : ℕ} {t : List ℕ} (rest : List ℕ)
    → w < word
    → IsDecimal w t
    → atoi (terminated t rest) ≡ ret w
unfolding atoi
atoi_lem rest h (IsDecimal.positive t lt x) =
    let (v, c, r, e, d) = first_of_number x in
    let (a, b) = not-blank v c (r ++ 0 ∷ rest) d in
    let q : terminated t rest ≡ c ∷ (r ++ 0 ∷ rest) = ap (λ (u : List ℕ). u ++ 0 ∷ rest) e in
    ap (λ (u : List ℕ). atoi_signed (skip_blanks u)) q
    ∙ ap atoi_signed a
    ∙ b
    ∙ ap (read_digits 0) (sym q)
    ∙ read_digits_lem (0 ∷ rest) x h
    ∙ at_nul _ rest
atoi_lem rest h (IsDecimal.negative t ge x) =
    signed (t ++ 0 ∷ rest)
    ∙ ap (λ (m : Outcome ℕ). m >>= λ val. ret ((word - val) % word))
        (read_digits_lem (0 ∷ rest) x (omega arith) ∙ at_nul _ rest)
    ∙ ap ret (omega arith)
  where
    signed :
        (s : List ℕ)
        → atoi_signed (skip_blanks (b'-' ∷ s))
          ≡ (read_digits 0 s >>= λ val. ret ((word - val) % word))
    signed s = unfold atoi_signed skip_blanks in refl

-- The state in which %d prints its number.
abbrev decimal_field : Bool → ℕ → Pf (List ℕ)
decimal_field sign num = record {
  clientdata = [];
  ap = [];
  charcount = 0;
  in_pct = true;
  size = intsz;
  num = num;
  sign = sign;
  spacing = 0;
  rightspc = false;
  fillchar = b' ';
  base = 10;
  baseprefix = false;
  altformat = false;
}

no_fill : (n : ℕ) → fill_count 0 n ≡ 0
no_fill n = ground arith

decimal_text :
    (sign : Bool) (num : ℕ) (t : List ℕ)
    → number_text 10 num ≡ ret t
    → pf_printnum (λ c xs. c ++ xs) (decimal_field sign num)
      ≡ ret (
          pf_print
            (λ c xs. c ++ xs)
            (decimal_field sign num)
            ((if sign then b'-' ∷ [] else []) ++ t))
decimal_text sign num t e =
    let sgn : List ℕ = (if sign then b'-' ∷ [] else []) in
    let f = no_fill (length sgn + 0 + length t) in
    printnum_lem collect (decimal_field sign num) t e ∙ rw f refl

-- %d
print-IsDecimal :
    (strings : ℕ → List ℕ) (w : ℕ)
    → w < word
    → (t : List ℕ) × (text_of strings (b'%' ∷ b'd' ∷ []) (w ∷ []) ≡ ret t) × IsDecimal w t
unfolding text_of send_all pf_send start pf_getnum pf_setbase pf_endfield pf_print
print-IsDecimal strings w h = elim (Bool-cases (leb int_limit w)) [
  | inl neg ↦
      let ge : int_limit ≤ w = ground arith in
      let (t, e, x) = number_text_lem 10 (word - w) (inr (inl refl)) (omega arith) in
      (
        b'-' ∷ t,
        rw neg (rw (decimal_text true (word - w) t e)),
        IsDecimal.negative t (ground arith) x,
      )
  | inr nonneg ↦
      let (t, e, x) = number_text_lem 10 w (inr (inl refl)) h in
      (t, rw nonneg (rw (decimal_text false w t e)), IsDecimal.positive t (ground arith) x)
]

-- For every int, __vprintf makes its decimal of the format "%d", with a minus sign if it is negative
-- and no leading zero, and atoi reads that text back as the same int.
pub atoi-printf :
    (strings : ℕ → List ℕ) (w : ℕ) (rest : List ℕ)
    → w < word
    → (t : List ℕ) × (text_of strings (b'%' ∷ b'd' ∷ []) (w ∷ []) ≡ ret t)
      × IsDecimal w t
      × (atoi (terminated t rest) ≡ ret w)
atoi-printf strings w rest h =
    let (t, e, d) = print-IsDecimal strings w h in (t, e, d, atoi_lem rest h d)
