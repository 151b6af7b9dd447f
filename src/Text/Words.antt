-- ===== src/Text/Words.antt =====
-- What a call of strtok_r finds: the next word.
use mehrad.Base.{
  ℕ, zero, suc, ◌+◌, ◌≤◌, ◌<◌, ◌≡◌, ◌≢◌, refl, ap, ap₂, ◌∙◌, sym, Bool, true, false, not, List, [],
  ◌∷◌, ◌++◌, Option, none, some, Outcome, ret, panic, ◌>>=◌, ltb, ◌==◌, ==_ne, get_elem?, set,
  length, length-append, arith, inl, inr, Bool-cases, lt→ltb,
}
use mathlib.Core.List.{append_assoc}
use mehrad.Text.{strchr, one_on}
use mehrad.Text.Strings.{IsText, terminated}
use mehrad.Text.Token.{is_found, is_sep, in_word, advance, next_token}
use mehrad.Printf.{one_of}

abbrev pub All : (ℕ → Bool) → List ℕ → Type 0
All test [] = Unit {0}
All test (c ∷ s) = (test c ≡ true) × All test s

-- Separators, and what is in a word.
abbrev pub sep : List ℕ → ℕ → Bool
sep seps c = one_of seps c

abbrev pub letter : List ℕ → ℕ → Bool
letter seps c = not (one_of seps c)

strchr-one_of :
    (seps r : List ℕ) (c : ℕ)
    → IsText seps
    → c ≢ 0
    → (strchr (terminated seps r) c >>= λ at. ret (is_found at)) ≡ ret (one_of seps c)
unfolding strchr
strchr-one_of [] r c h nz = let e : (0 == c) ≡ false = ground arith in rw e
strchr-one_of (x ∷ seps) r c (nx, h) nz = elim (Bool-cases (x == c)) [
  | inl e ↦ rw (==_ne x 0 nx) (rw e refl)
  | inr e ↦
      rw (==_ne x 0 nx) (rw e (later (strchr (terminated seps r) c) (strchr-one_of seps r c h nz)))
]
  where
    later :
        (m : Outcome (Option ℕ)) {t : Outcome Bool}
        → (m >>= λ at. ret (is_found at)) ≡ t
        → ((m >>= λ found. ret (one_on found)) >>= λ at. ret (is_found at)) ≡ t
    later panic e = e
    later (ret none) e = e
    later (ret (some i)) e = e

get_elem?-middle : (p : List ℕ) (c : ℕ) (s : List ℕ) → get_elem? (p ++ c ∷ s) (length p) ≡ some c
get_elem?-middle [] c s = refl
get_elem?-middle (x ∷ p) c s = get_elem?-middle p c s

set-middle : (p : List ℕ) (c v : ℕ) (s : List ℕ) → set (p ++ c ∷ s) (length p) v ≡ p ++ v ∷ s
set-middle [] c v s = refl
set-middle (x ∷ p) c v s = ap (◌∷◌ x) (set-middle p c v s)

set-third :
    (p b w : List ℕ) (e v : ℕ) (s : List ℕ)
    → set (p ++ (b ++ (w ++ e ∷ s))) (length p + length b + length w) v ≡ p ++ (b ++ (w ++ v ∷ s))
set-third [] [] w e v s = ap (λ (k : ℕ). set (w ++ e ∷ s) k v) (omega arith) ∙ set-middle w e v s
set-third [] (x ∷ b) w e v s =
    ap (λ (k : ℕ). set (x ∷ (b ++ (w ++ e ∷ s))) k v) shift ∙ ap (◌∷◌ x) (set-third [] b w e v s)
  where
    shift : 0 + suc (length b) + length w ≡ suc (0 + length b + length w)
    shift = omega arith
set-third (x ∷ p) b w e v s =
    ap (λ (k : ℕ). set (x ∷ (p ++ (b ++ (w ++ e ∷ s)))) k v) shift
    ∙ ap (◌∷◌ x) (set-third p b w e v s)
  where
    shift : suc (length p) + length b + length w ≡ suc (length p + length b + length w)
    shift = omega arith

abbrev Passes : (ℕ → Outcome Bool) → List ℕ → Type 0
Passes test [] = Unit {0}
Passes test (c ∷ s) = (test c ≡ ret true) × Passes test s

-- The loop stops at the first byte that fails its test.
advance_lem :
    (xs : List ℕ) (test : ℕ → Outcome Bool) (p : List ℕ) (c : ℕ) (s : List ℕ) (fuel : ℕ)
    → Passes test xs
    → test c ≡ ret false
    → length xs < fuel
    → advance test (p ++ (xs ++ c ∷ s)) (length p) fuel ≡ ret (length p + length xs)
unfolding advance
advance_lem xs test p c s zero yes_all no_c h = absurd (omega arith)
advance_lem [] test p c s (suc fuel) yes_all no_c h =
    rw (get_elem?-middle p c s) (rw no_c (ap ret (omega arith)))
advance_lem (x ∷ xs) test p c s (suc fuel) (go, yes_all) no_c h =
    let p' : List ℕ = p ++ x ∷ [] in
    let at : length p' ≡ length p + 1 = omega (arith, length-append p (x ∷ [])) in
    let mem : p' ++ (xs ++ c ∷ s) ≡ p ++ (x ∷ (xs ++ c ∷ s)) =
      append_assoc p (x ∷ []) (xs ++ c ∷ s) in
    rw (get_elem?-middle p x (xs ++ c ∷ s)) (
      rw go (
        ap₂ (λ (m : List ℕ) (k : ℕ). advance test m k fuel) (sym mem) (sym at)
        ∙ advance_lem xs test p' c s fuel yes_all no_c (omega arith)
        ∙ ap ret (omega (arith, at))))

is_sep_lem :
    (seps r : List ℕ) (c : ℕ)
    → IsText seps
    → c ≢ 0
    → is_sep (terminated seps r) c ≡ ret (one_of seps c)
is_sep_lem seps r c h nz = rw (==_ne c 0 nz) (strchr-one_of seps r c h nz)

in_word_lem :
    (seps r : List ℕ) (c : ℕ)
    → IsText seps
    → c ≢ 0
    → in_word (terminated seps r) c ≡ ret (not (one_of seps c))
in_word_lem seps r c h nz =
    rw (==_ne c 0 nz) (go (strchr (terminated seps r) c) (strchr-one_of seps r c h nz))
  where
    go :
        (m : Outcome (Option ℕ)) {b : Bool}
        → (m >>= λ at. ret (is_found at)) ≡ ret b
        → (m >>= λ at. ret (not (is_found at))) ≡ ret (not b)
    go panic e = cc
    go (ret none) e = ap (λ (m : Outcome Bool). m >>= λ x. ret (not x)) e
    go (ret (some i)) e = ap (λ (m : Outcome Bool). m >>= λ x. ret (not x)) e

Passes-sep :
    (seps r xs : List ℕ)
    → IsText seps
    → IsText xs
    → All (sep seps) xs
    → Passes (is_sep (terminated seps r)) xs
Passes-sep seps r [] h hx a = tt
Passes-sep seps r (c ∷ xs) h (nz, hx) (t, a) =
    (is_sep_lem seps r c h nz ∙ ap ret t, Passes-sep seps r xs h hx a)

Passes-letter :
    (seps r xs : List ℕ)
    → IsText seps
    → IsText xs
    → All (letter seps) xs
    → Passes (in_word (terminated seps r)) xs
Passes-letter seps r [] h hx a = tt
Passes-letter seps r (c ∷ xs) h (nz, hx) (t, a) =
    (in_word_lem seps r c h nz ∙ ap ret t, Passes-letter seps r xs h hx a)

pub IsText-append : (xs ys : List ℕ) → IsText (xs ++ ys) → IsText xs × IsText ys
IsText-append [] ys h = (tt, h)
IsText-append (x ∷ xs) ys (nz, h) = let (a, b) = IsText-append xs ys h in ((nz, a), b)

get_elem?-second :
    (p u : List ℕ) (c : ℕ) (s : List ℕ)
    → get_elem? (p ++ (u ++ c ∷ s)) (length p + length u) ≡ some c
get_elem?-second p u c s =
    ap₂ (λ (m : List ℕ) (k : ℕ). get_elem? m k) (sym (append_assoc p u (c ∷ s)))
      (sym (length-append p u))
    ∙ get_elem?-middle (p ++ u) c s

module _ (seps r pre : List ℕ) (hs : IsText seps) where
  -- Where the loops of the call stop, for a word that starts by `c` and ends before `e`.
  stops :
      (b w : List ℕ) (c e : ℕ) (s : List ℕ)
      → IsText b
      → All (sep seps) b
      → IsText (c ∷ w)
      → All (letter seps) (c ∷ w)
      → in_word (terminated seps r) e ≡ ret false
      → let mem = pre ++ (b ++ (c ∷ w ++ e ∷ s)) in
        (advance (is_sep (terminated seps r)) mem (length pre) (length mem)
          ≡ ret (length pre + length b))
        × (advance (in_word (terminated seps r)) mem (length pre + length b) (length mem)
            ≡ ret (length pre + length b + length (c ∷ w)))
        × (get_elem? mem (length pre + length b + length (c ∷ w)) ≡ some e)
  stops b w c e s hb ab (nz, hw) (lc, aw) end =
      let mem : List ℕ = pre ++ (b ++ (c ∷ w ++ e ∷ s)) in
      let long : length pre + length b + length w + 2 ≤ length mem = omega (
        arith,
        length-append pre (b ++ (c ∷ w ++ e ∷ s)),
        length-append b (c ∷ w ++ e ∷ s),
        length-append w (e ∷ s),
      ) in
      let not_sep : is_sep (terminated seps r) c ≡ ret false =
        is_sep_lem seps r c hs nz ∙ ap ret (let l = lc in ground arith) in
      let p' : List ℕ = pre ++ b in
      let assoc = append_assoc pre b (c ∷ w ++ e ∷ s) in
      let len = length-append pre b in
      (
        advance_lem b (is_sep (terminated seps r)) pre c (w ++ e ∷ s) (length mem)
            (Passes-sep seps r b hs hb ab) not_sep (omega arith),
        ap₂ (λ (m : List ℕ) (k : ℕ). advance (in_word (terminated seps r)) m k (length mem))
              (sym assoc) (sym len)
            ∙ advance_lem (c ∷ w) (in_word (terminated seps r)) p' e s (length mem)
                (Passes-letter seps r (c ∷ w) hs (nz, hw) (lc, aw)) end (omega arith)
            ∙ ap (λ (k : ℕ). ret (k + length (c ∷ w))) len,
        ap₂ (λ (m : List ℕ) (k : ℕ). get_elem? m (k + length (c ∷ w))) (sym assoc) (sym len)
            ∙ get_elem?-second p' (c ∷ w) e s,
      )

module _ (seps r pre rest : List ℕ) (hs : IsText seps) where
  -- Nothing but separators.
  pub finds_none :
      (u : List ℕ)
      → IsText u
      → All (sep seps) u
      → next_token (terminated seps r) (pre ++ terminated u rest) (length pre)
        ≡ ret (none, pre ++ terminated u rest, none)
  unfolding next_token
  finds_none u hu a =
      let mem : List ℕ = pre ++ terminated u rest in
      let first : advance (is_sep (terminated seps r)) mem (length pre) (length mem)
          ≡ ret (length pre + length u) =
        advance_lem u (is_sep (terminated seps r)) pre 0 rest (length mem)
          (Passes-sep seps r u hs hu a) refl
          (omega (arith, length-append pre (terminated u rest), length-append u (0 ∷ rest))) in
      let at : get_elem? mem (length pre + length u) ≡ some 0 = get_elem?-second pre u 0 rest in
      rw first (rw at)

  -- A word up to the end of the string.
  pub finds_last :
      (b w : List ℕ) (c : ℕ)
      → IsText b
      → All (sep seps) b
      → IsText (c ∷ w)
      → All (letter seps) (c ∷ w)
      → next_token (terminated seps r) (pre ++ (b ++ (c ∷ w ++ 0 ∷ rest))) (length pre)
        ≡ ret (some (length pre + length b), pre ++ (b ++ (c ∷ w ++ 0 ∷ rest)), none)
  unfolding next_token
  finds_last b w c hb ab hw aw =
      let (first, second, last) = stops seps r pre hs b w c 0 rest hb ab hw aw refl in
      rw first
        (rw (get_elem?-second pre b c (w ++ 0 ∷ rest)) (rw (==_ne c 0 hw.0) (rw second (rw last))))

  -- A word before a separator.
  pub finds_next :
      (b w m : List ℕ) (c e : ℕ)
      → IsText b
      → All (sep seps) b
      → IsText (c ∷ w)
      → All (letter seps) (c ∷ w)
      → e ≢ 0
      → sep seps e ≡ true
      → next_token (terminated seps r) (pre ++ (b ++ (c ∷ w ++ e ∷ terminated m rest))) (length pre)
        ≡ ret (
          some (length pre + length b),
          pre ++ (b ++ (c ∷ w ++ 0 ∷ terminated m rest)),
          some (length pre + length b + length (c ∷ w) + 1),
        )
  unfolding next_token
  finds_next b w m c e hb ab hw aw nz t =
      let stop : in_word (terminated seps r) e ≡ ret false =
        in_word_lem seps r e hs nz ∙ ap (λ (k : Bool). ret (not k)) t in
      let (first, second, last) =
        stops seps r pre hs b w c e (terminated m rest) hb ab hw aw stop in
      let s : List ℕ = terminated m rest in
      let in_memory : ltb (length pre + length b + length (c ∷ w))
            (length (pre ++ (b ++ (c ∷ w ++ e ∷ s))))
          ≡ true =
        lt→ltb _ _ (
          omega (
            arith,
            length-append pre (b ++ (c ∷ w ++ e ∷ s)),
            length-append b (c ∷ w ++ e ∷ s),
            length-append w (e ∷ s),
          )) in
      let cut : set (pre ++ (b ++ (c ∷ w ++ e ∷ s))) (length pre + length b + length (c ∷ w)) 0
          ≡ pre ++ (b ++ (c ∷ w ++ 0 ∷ s)) =
        set-third pre b (c ∷ w) e 0 s in
      rw first (
        rw (get_elem?-second pre b c (w ++ e ∷ s))
          (rw (==_ne c 0 hw.0) (rw second (rw last (rw (==_ne e 0 nz) (rw in_memory (rw cut)))))))
