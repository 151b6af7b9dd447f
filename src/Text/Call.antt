-- ===== src/Text/Call.antt =====
-- A call of strtok_r, in terms of the words of the string that is left.
use mehrad.Base.{
  ℕ, ◌+◌, ◌≡◌, ◌≢◌, refl, ap, ◌∙◌, sym, subst, Bool, true, false, List, [], ◌∷◌, ◌++◌, Option, none,
  some, Outcome, ret, length, arith, ◌⊎◌, inl, inr, Bool-cases,
}
use mathlib.Core.List.{append-nil, append_assoc}
use mehrad.Text.Strings.{IsText, terminated}
use mehrad.Text.Token.{next_token, strtok_r}
use mehrad.Text.Words.{All, sep, letter, IsText-append, finds_none, finds_last, finds_next}

-- What the next call finds in `u`, which stands in memory after `pre` and before a NUL and `rest`:
-- nothing but separators; a last word; or a word, whose separator becomes its NUL.
abbrev pub FindsWord :
    List ℕ → List ℕ → List ℕ → List ℕ → Outcome (Option ℕ × List ℕ × Option ℕ) → Type 0
FindsWord seps pre u rest r =
    (All (sep seps) u × (r ≡ ret (none, pre ++ terminated u rest, none)))
    ⊎ (((b : List ℕ) × (w : List ℕ) × (u ≡ b ++ w)
          × All (sep seps) b
          × All (letter seps) w
          × (w ≢ [])
          × (r ≡ ret (some (length pre + length b), pre ++ terminated u rest, none)))
        ⊎ ((b : List ℕ) × (w : List ℕ) × (c : ℕ) × (m : List ℕ) × (u ≡ b ++ (w ++ c ∷ m))
            × All (sep seps) b
            × All (letter seps) w
            × (w ≢ [])
            × (sep seps c ≡ true)
            × (r
                ≡ ret (
                  some (length pre + length b),
                  pre ++ (b ++ terminated w (terminated m rest)),
                  some (length pre + length b + length w + 1),
                ))))

span :
    (test : ℕ → Bool) (u : List ℕ)
    → (b : List ℕ) × (r : List ℕ) × (u ≡ b ++ r)
      × All test b
      × ((r ≡ []) ⊎ ((c : ℕ) × (m : List ℕ) × (r ≡ c ∷ m) × (test c ≡ false)))
span test [] = ([], [], refl, tt, inl refl)
span test (c ∷ u) = elim (Bool-cases (test c)) [
  | inr stop ↦ ([], c ∷ u, refl, tt, inr (c, u, refl, stop))
  | inl go ↦ let (b, r, e, a, x) = span test u in (c ∷ b, r, ap (◌∷◌ c) e, (go, a), x)
]

module _ (seps r pre rest : List ℕ) (hs : IsText seps) where
  last_word :
      (b w : List ℕ) (c : ℕ)
      → IsText (b ++ c ∷ w)
      → All (sep seps) b
      → All (letter seps) (c ∷ w)
      → FindsWord seps pre
          (b ++ c ∷ w)
          rest
          (next_token (terminated seps r) (pre ++ terminated (b ++ c ∷ w) rest) (length pre))
  last_word b w c h a l =
      let (hb, hw) = IsText-append b (c ∷ w) h in
      let q = ap (λ (x : List ℕ). pre ++ x) (append_assoc b (c ∷ w) (0 ∷ rest)) in
      inr (
        inl (
          b,
          c ∷ w,
          refl,
          a,
          l,
          λ e. cc,
          ap (λ (mem : List ℕ). next_token (terminated seps r) mem (length pre)) q
              ∙ finds_last seps r pre rest hs b w c hb a hw l
              ∙ ap (λ (mem : List ℕ). ret (some (length pre + length b), mem, none)) (sym q),
        ))

  more_words :
      (b w m : List ℕ) (c e : ℕ)
      → IsText (b ++ (c ∷ w ++ e ∷ m))
      → All (sep seps) b
      → All (letter seps) (c ∷ w)
      → sep seps e ≡ true
      → FindsWord seps pre (b ++ (c ∷ w ++ e ∷ m)) rest (
          next_token
            (terminated seps r)
            (pre ++ terminated (b ++ (c ∷ w ++ e ∷ m)) rest)
            (length pre))
  more_words b w m c e h a l t =
      let (hb, hr) = IsText-append b (c ∷ w ++ e ∷ m) h in
      let (hw, hm) = IsText-append (c ∷ w) (e ∷ m) hr in
      let q =
        ap (λ (x : List ℕ). pre ++ x)
          (append_assoc b (c ∷ w ++ e ∷ m) (0 ∷ rest)
            ∙ ap (λ (x : List ℕ). b ++ x) (append_assoc (c ∷ w) (e ∷ m) (0 ∷ rest))) in
      inr (
        inr (
          b,
          c ∷ w,
          e,
          m,
          refl,
          a,
          l,
          λ q. cc,
          t,
          ap (λ (mem : List ℕ). next_token (terminated seps r) mem (length pre)) q
              ∙ finds_next seps r pre rest hs b w m c e hb a hw l hm.0 t,
        ))

  abbrev Found : List ℕ → Type 0
  Found u =
      FindsWord seps pre u rest
        (next_token (terminated seps r) (pre ++ terminated u rest) (length pre))

  -- The string `u` after its separators `b`.
  find_word :
      (u b v : List ℕ)
      → IsText u
      → u ≡ b ++ v
      → All (sep seps) b
      → ((v ≡ []) ⊎ ((c : ℕ) × (m : List ℕ) × (v ≡ c ∷ m) × (sep seps c ≡ false)))
      → FindsWord seps pre u rest
          (next_token (terminated seps r) (pre ++ terminated u rest) (length pre))
  find_word u b v hu e a (inl nil) =
      let q : u ≡ b = e ∙ ap (λ (x : List ℕ). b ++ x) nil ∙ append-nil b in
      let a' = subst (All (sep seps)) (sym q) a in inl (a', finds_none seps r pre rest hs u hu a')
  find_word u b v hu e a (inr (c, m, q, n)) =
      let (w, x, f, l, stop) = span (letter seps) m in
      let lc : letter seps c ≡ true = ground arith in
      elim stop [
        | inl nil ↦
            let g : u ≡ b ++ c ∷ w =
              e
              ∙ ap (λ (y : List ℕ). b ++ y)
                  (q ∙ ap (◌∷◌ c) (f ∙ ap (λ (y : List ℕ). w ++ y) nil ∙ append-nil w)) in
            subst Found (sym g) (last_word b w c (subst IsText g hu) a (lc, l))
        | inr (d, m', g', t) ↦
            let g : u ≡ b ++ (c ∷ w ++ d ∷ m') =
              e
              ∙ ap (λ (y : List ℕ). b ++ y) (q ∙ ap (◌∷◌ c) (f ∙ ap (λ (y : List ℕ). w ++ y) g')) in
            let td : sep seps d ≡ true = ground arith in
            subst Found (sym g) (more_words b w m' c d (subst IsText g hu) a (lc, l) td)
      ]

  pub next_token_lem :
      (u : List ℕ)
      → IsText u
      → FindsWord seps pre u rest
          (next_token (terminated seps r) (pre ++ terminated u rest) (length pre))
  next_token_lem u hu = let (b, v, e, a, stop) = span (sep seps) u in find_word u b v hu e a stop

  -- A call of strtok_r at the start of a string, given as the string or as the saved context, hands
  -- back its first word, ended by a NUL, and saves where the string goes on after it, if it does;
  -- and NULL exactly if there are only separators left.
  pub strtok_r_lem :
      (u : List ℕ) (context : Option ℕ)
      → IsText u
      → FindsWord seps pre u rest
          (strtok_r (some (length pre)) (terminated seps r) (pre ++ terminated u rest) context)
        × FindsWord seps pre u rest
            (strtok_r none (terminated seps r) (pre ++ terminated u rest) (some (length pre)))
  unfolding strtok_r
  strtok_r_lem u context hu = (next_token_lem u hu, next_token_lem u hu)
