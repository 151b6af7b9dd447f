-- ===== src/Text/Strings.antt =====
-- strlen, strchr, strrchr, strcpy and strcat on a string: bytes that are not NUL, a NUL, and whatever
-- memory follows.
use mehrad.Base.{
  ℕ, zero, suc, ◌+◌, ◌≤◌, ◌<◌, ◌≡◌, ◌≢◌, refl, ap, ◌∙◌, sym, subst, false, List, [], ◌∷◌, ◌++◌,
  Option, none, some, Outcome, ret, panic, ltb, ==_ne, ==_iff, set, take, get_elem?, length, drop,
  arith, ◌⊎◌, inl, inr, ℕ_discrete, Bool-cases, length-append, length-set, lt→ltb, get_elem?-of_lt,
  take-set_end, take-append_eq, ap₂, dec_lt, drop-set_before,
}
use mathlib.Core.List.{append_assoc}
use mehrad.Text.{strlen, strchr, scan_back, strrchr, copy_string, strcpy, strcat}

-- No NUL among the bytes.
abbrev pub IsText : List ℕ → Type 0
IsText [] = Unit {0}
IsText (c ∷ t) = (c ≢ 0) × IsText t

-- A pointer to the string `t`, before the memory `rest`.
abbrev pub terminated : List ℕ → List ℕ → List ℕ
terminated t rest = t ++ 0 ∷ rest

pub strlen_lem : (t rest : List ℕ) → IsText t → strlen (terminated t rest) ≡ ret (length t)
unfolding strlen
strlen_lem [] rest h = refl
strlen_lem (c ∷ t) rest (nz, h) =
    rw (==_ne c 0 nz) (rw (strlen_lem t rest h) (ap ret (omega arith)))

-- `i` is the first place of `ch` in `s`.
pub record IsFirst (ch : ℕ) (s : List ℕ) (i : ℕ) : Type 0 where
  pub here : get_elem? s i ≡ some ch
  pub not_before : (j : ℕ) → j < i → get_elem? s j ≢ some ch

abbrev pub Found : ℕ → List ℕ → Outcome (Option ℕ) → Type 0
Found ch s r =
    ((i : ℕ) × (r ≡ ret (some i)) × IsFirst ch s i)
    ⊎ ((r ≡ ret none) × ((j : ℕ) → get_elem? s j ≢ some ch))

IsFirst-zero : (ch : ℕ) (s : List ℕ) → IsFirst ch (ch ∷ s) 0
IsFirst-zero ch s = record { here = refl; not_before = λ j h. absurd (omega arith) }

later-ne :
    (ch c : ℕ) (s : List ℕ)
    → c ≢ ch
    → ((j : ℕ) → get_elem? s j ≢ some ch)
    → (j : ℕ) → get_elem? (c ∷ s) j ≢ some ch
later-ne ch c s ne h zero = λ e. ne (ground arith)
later-ne ch c s ne h (suc j) = h j

IsFirst-later :
    (ch c : ℕ) (s : List ℕ) (i : ℕ) → c ≢ ch → IsFirst ch s i → IsFirst ch (c ∷ s) (suc i)
IsFirst-later ch c s i ne f = record { here = f.here; not_before = before }
  where
    before : (j : ℕ) → j < suc i → get_elem? (c ∷ s) j ≢ some ch
    before zero lt = λ e. ne (ground arith)
    before (suc j) lt = f.not_before j (omega arith)

-- strchr hands back the first place of the character in the string, its NUL included, and NULL
-- exactly if it is not there.
pub strchr_lem :
    (t rest : List ℕ) (ch : ℕ) → IsText t → Found ch (t ++ 0 ∷ []) (strchr (terminated t rest) ch)
unfolding strchr
strchr_lem [] rest ch h = elim (ℕ_discrete 0 ch) [
  | yes e ↦
      subst (λ (c : ℕ). Found c (0 ∷ []) (strchr (0 ∷ rest) c)) e (inl (0, refl, IsFirst-zero 0 []))
  | no ne ↦ inr (rw (==_ne 0 ch ne), later-ne ch 0 [] ne (λ j e. cc))
]
strchr_lem (c ∷ t) rest ch (nz, h) = elim (ℕ_discrete c ch) [
  | yes e ↦ inl (
    0,
    rw (==_ne c 0 nz) (rw ((==_iff c ch).1 e) refl),
    subst (λ (x : ℕ). IsFirst x (c ∷ (t ++ 0 ∷ [])) 0) e (IsFirst-zero c (t ++ 0 ∷ [])),
  )
  | no ne ↦ elim (strchr_lem t rest ch h) [
    | inl (i, e, f) ↦ inl (
      suc i,
      rw (==_ne c 0 nz) (rw (==_ne c ch ne) (rw e (ap (λ (k : ℕ). ret (some k)) (omega arith)))),
      IsFirst-later ch c (t ++ 0 ∷ []) i ne f,
    )
    | inr (e, none_there) ↦
        inr
          (rw (==_ne c 0 nz) (rw (==_ne c ch ne) (rw e)), later-ne ch c (t ++ 0 ∷ []) ne none_there)
  ]
]

-- `i` is the last place of `ch` in `s`.
pub record IsLast (ch : ℕ) (s : List ℕ) (i : ℕ) : Type 0 where
  pub here : get_elem? s i ≡ some ch
  pub not_after : (j : ℕ) → i < j → get_elem? s j ≢ some ch

-- What the loop of strrchr finds below `i`.
scan_back_lem :
    (s : List ℕ) (ch i : ℕ)
    → i ≤ length s
    → ((k : ℕ) × (scan_back s ch i ≡ ret (some k))
        × (k < i)
        × (get_elem? s k ≡ some ch)
        × ((j : ℕ) → k < j → j < i → get_elem? s j ≢ some ch))
      ⊎ ((scan_back s ch i ≡ ret none) × ((j : ℕ) → j < i → get_elem? s j ≢ some ch))
unfolding scan_back
scan_back_lem s ch zero h = inr (refl, λ j lt. absurd (omega arith))
scan_back_lem s ch (suc i) h =
    let (c, g) = get_elem?-of_lt s i (omega arith) in
    elim (ℕ_discrete c ch) [
      | yes e ↦ inl (
        i,
        rw g (rw ((==_iff c ch).1 e) refl),
        omega arith,
        g ∙ ap some e,
        λ j lo hi. absurd (omega arith),
      )
      | no ne ↦ elim (scan_back_lem s ch i (omega arith)) [
        | inl (k, e, lt, here, past) ↦ inl (
          k,
          rw g (rw (==_ne c ch ne) e),
          omega arith,
          here,
          λ j lo hi. at_end c g ne (past j lo) hi,
        )
        | inr (e, nowhere) ↦ inr (rw g (rw (==_ne c ch ne) e), λ j lt. at_end c g ne (nowhere j) lt)
      ]
    ]
  where
    at_end :
        (c : ℕ)
        → get_elem? s i ≡ some c
        → c ≢ ch
        → {j : ℕ} → (j < i → get_elem? s j ≢ some ch)
        → j < suc i
        → get_elem? s j ≢ some ch
    at_end c g ne {j} h lt = elim (ℕ_discrete j i) [
      | yes e ↦ λ q. ne (let g' : get_elem? s j ≡ some c = ap (get_elem? s) e ∙ g in ground arith)
      | no other ↦ h (omega arith)
    ]

abbrev pub FoundLast : ℕ → List ℕ → Outcome (Option ℕ) → Type 0
FoundLast ch s r =
    ((i : ℕ) × (r ≡ ret (some i)) × IsLast ch s i)
    ⊎ ((r ≡ ret none) × ((j : ℕ) → get_elem? s j ≢ some ch))

-- The string and its NUL are a prefix of the memory.
in_prefix :
    (t rest : List ℕ) (j : ℕ)
    → (j < length t + 1) × (get_elem? (t ++ 0 ∷ []) j ≡ get_elem? (terminated t rest) j)
      ⊎ (get_elem? (t ++ 0 ∷ []) j ≡ none)
in_prefix [] rest zero = inl (omega arith, refl)
in_prefix [] rest (suc j) = inr refl
in_prefix (c ∷ t) rest zero = inl (omega arith, refl)
in_prefix (c ∷ t) rest (suc j) = elim (in_prefix t rest j) [
  | inl (lt, e) ↦ inl (omega arith, e)
  | inr e ↦ inr e
]

in_range : (t rest : List ℕ) (j : ℕ) → j < length t + 1 → get_elem? (t ++ 0 ∷ []) j ≡ none → ⊥
in_range t rest j lt e =
    let (x, g) = get_elem?-of_lt (t ++ 0 ∷ []) j (omega (arith, length-append t (0 ∷ []))) in cc

-- strrchr hands back the last place of the character in the string, its NUL included, and NULL
-- exactly if it is not there.
pub strrchr_lem :
    (t rest : List ℕ) (ch : ℕ)
    → IsText t
    → FoundLast ch (t ++ 0 ∷ []) (strrchr (terminated t rest) ch)
unfolding strrchr
strrchr_lem t rest ch h =
    rw (strlen_lem t rest h)
      (elim (scan_back_lem (terminated t rest) ch (length t + 1)
        (omega (arith, length-append t (0 ∷ rest)))) [
          | inl (k, e, lt, here, past) ↦ inl (
            k,
            e,
            record {
              here = elim (in_prefix t rest k) [
                | inl (lt', q) ↦ q ∙ here
                | inr q ↦ absurd (in_range t rest k lt q)
              ];
              not_after = λ j lo. elim (in_prefix t rest j) [
                | inl (hi, q) ↦ λ u. past j lo hi (sym q ∙ u)
                | inr q ↦ λ u. cc
              ];
            },
          )
          | inr (e, nowhere) ↦ inr (
            e,
            λ j. elim (in_prefix t rest j) [
              | inl (hi, q) ↦ λ u. nowhere j hi (sym q ∙ u)
              | inr q ↦ λ u. cc
            ],
          )
        ])

set-split : (xs : List ℕ) (i v : ℕ) → i < length xs → set xs i v ≡ take i xs ++ v ∷ drop (suc i) xs
set-split [] i v h = absurd (omega arith)
set-split (x ∷ xs) zero v h = refl
set-split (x ∷ xs) (suc i) v h = ap (◌∷◌ x) (set-split xs i v (omega arith))

-- From cell `i` on, if there is room.
copy_string_lem :
    (t rest dest : List ℕ) (i : ℕ)
    → IsText t
    → i + length t < length dest
    → copy_string dest (terminated t rest) i
      ≡ ret (take i dest ++ (t ++ 0 ∷ drop (i + length t + 1) dest))
unfolding copy_string
copy_string_lem [] rest dest i h fits =
    let e : suc i ≡ i + 0 + 1 = omega arith in
    rw (lt→ltb i (length dest) (omega arith))
      (ap ret (set-split dest i 0 (omega arith) ∙ ap (λ (k : ℕ). take i dest ++ 0 ∷ drop k dest) e))
copy_string_lem (c ∷ t) rest dest i (nz, h) fits =
    let dest' : List ℕ = set dest i c in
    let e : i + 1 ≡ suc i = omega arith in
    let ih = copy_string_lem t rest dest' (i + 1) h (omega (arith, length-set dest i c)) in
    let front : take (i + 1) dest' ≡ take i dest ++ c ∷ [] =
      ap (λ (k : ℕ). take k dest') e ∙ take-set_end i dest c (omega arith) in
    let back : drop (i + 1 + length t + 1) dest' ≡ drop (i + length (c ∷ t) + 1) dest =
      drop-set_before (i + 1 + length t + 1) dest i c (omega arith)
      ∙ ap (λ (k : ℕ). drop k dest) (omega arith) in
    rw (==_ne c 0 nz) (
      rw (lt→ltb i (length dest) (omega arith)) (
        ih
        ∙ ap₂ (λ (xs ys : List ℕ). ret (xs ++ (t ++ 0 ∷ ys))) front back
        ∙ ap ret
            (append_assoc (take i dest) (c ∷ []) (t ++ 0 ∷ drop (i + length (c ∷ t) + 1) dest))))

copy_string_overrun :
    (t rest dest : List ℕ) (i : ℕ)
    → IsText t
    → length dest ≤ i + length t
    → copy_string dest (terminated t rest) i ≡ panic
unfolding copy_string
copy_string_overrun [] rest dest i h over =
    let f : ltb i (length dest) ≡ false = ground arith in rw f
copy_string_overrun (c ∷ t) rest dest i (nz, h) over = elim (Bool-cases (ltb i (length dest))) [
  | inl y ↦ rw (==_ne c 0 nz) (
      rw y
        (copy_string_overrun t rest (set dest i c) (i + 1) h (omega (arith, length-set dest i c))))
  | inr n ↦ rw (==_ne c 0 nz) (rw n)
]

-- strcpy puts the string and its NUL over the first bytes of the destination and keeps the others,
-- if there is room for the NUL, and runs over its end if not.
pub strcpy_lem :
    (t rest dest : List ℕ)
    → IsText t
    → ((length t < length dest)
        × (strcpy dest (terminated t rest) ≡ ret (t ++ 0 ∷ drop (length t + 1) dest)))
      ⊎ ((length dest ≤ length t) × (strcpy dest (terminated t rest) ≡ panic))
unfolding strcpy
strcpy_lem t rest dest h = elim (dec_lt (length t) (length dest)) [
  | yes fits ↦ inl (
    fits,
    copy_string_lem t rest dest 0 h (omega arith)
        ∙ ap (λ (k : ℕ). ret (t ++ 0 ∷ drop k dest)) (omega arith),
  )
  | no over ↦ inr (omega arith, copy_string_overrun t rest dest 0 h (omega arith))
]

-- strcat joins the string to the one that the destination holds, if there is room for the NUL.
pub strcat_lem :
    (a t more rest : List ℕ)
    → IsText a
    → IsText t
    → length t ≤ length more
    → strcat (terminated a more) (terminated t rest)
      ≡ ret (terminated (a ++ t) (drop (length t) more))
unfolding strcat
strcat_lem a t more rest ha ht fits =
    let e : length a + length t + 1 ≡ length a + (length t + 1) = omega arith in
    let f : length t + 1 ≡ suc (length t) = omega arith in
    rw (strlen_lem a more ha) (
      copy_string_lem t rest (terminated a more) (length a) ht
        (omega (arith, length-append a (0 ∷ more)))
      ∙ ap₂ (λ (xs ys : List ℕ). ret (xs ++ (t ++ 0 ∷ ys)))
          (take-append_eq (length a) a (0 ∷ more) refl)
          (ap (λ (k : ℕ). drop k (a ++ 0 ∷ more)) e
            ∙ drop-past a (length t + 1)
            ∙ ap (λ (k : ℕ). drop k (0 ∷ more)) f)
      ∙ ap ret (sym (append_assoc a t (0 ∷ drop (length t) more))))
  where
    drop-past : (a : List ℕ) (k : ℕ) → drop (length a + k) (a ++ 0 ∷ more) ≡ drop k (0 ∷ more)
    drop-past [] k = ap (λ (j : ℕ). drop j (0 ∷ more)) (omega arith)
    drop-past (x ∷ a) k =
        let e : suc (length a) + k ≡ suc (length a + k) = omega arith in rw e (drop-past a k)
