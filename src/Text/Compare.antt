-- ===== src/Text/Compare.antt =====
-- strcmp orders strings by their first different characters, the NUL that ends them included.
use mehrad.Base.{
  ℕ, ◌<◌, ◌≡◌, ◌≢◌, refl, ap, ◌∙◌, sym, subst, List, [], ◌∷◌, ◌++◌, Outcome, ret, ==_ne, ==_refl,
  arith, ◌⊎◌, inl, inr, ℕ_discrete, dec_lt,
}
use mehrad.Base.Int.{ℤ, pos, negsuc}
use mehrad.Text.{strcmp}
use mehrad.Text.Strings.{IsText, terminated}

-- `a` comes before `b`: at the first place where they differ, its character is lower.
pub data Below (value : ℕ → ℕ) : List ℕ → List ℕ → Type 0 where
  differ : (x y : ℕ) (a b : List ℕ) → value x < value y → Below value (x ∷ a) (y ∷ b)
  same : (x : ℕ) (a b : List ℕ) → Below value a b → Below value (x ∷ a) (x ∷ b)

-- What strcmp returns.
abbrev pub Compared : (ℕ → ℕ) → List ℕ → List ℕ → Outcome ℤ → Type 0
Compared value a b r =
    ((a ≡ b) × (r ≡ ret (pos 0)))
    ⊎ ((Below value (a ++ 0 ∷ []) (b ++ 0 ∷ []) × (r ≡ ret (negsuc 0)))
        ⊎ (Below value (b ++ 0 ∷ []) (a ++ 0 ∷ []) × (r ≡ ret (pos 1))))

module _ (value : ℕ → ℕ) (injective : (x y : ℕ) → value x ≡ value y → x ≡ y) where
  first_differ :
      (x y : ℕ) (a b a' b' : List ℕ)
      → x ≢ y
      → (Below value (x ∷ a') (y ∷ b') × (strcmp value (x ∷ a) (y ∷ b) ≡ ret (negsuc 0)))
        ⊎ (Below value (y ∷ b') (x ∷ a') × (strcmp value (x ∷ a) (y ∷ b) ≡ ret (pos 1)))
  unfolding strcmp
  first_differ x y a b a' b' ne = elim (dec_lt (value y) (value x)) [
    | yes lt ↦ inr (differ y x b' a' lt, ground arith)
    | no ge ↦
        let le : value x < value y =
          let n : value x ≢ value y = λ e. ne (injective x y e) in omega arith in
        inl (differ x y a' b' le, ground arith)
  ]

  first_same : (x : ℕ) (a b : List ℕ) → x ≢ 0 → strcmp value (x ∷ a) (x ∷ b) ≡ strcmp value a b
  unfolding strcmp
  first_same x a b nz = rw (==_ne x 0 nz) (rw (==_refl x) refl)

  both_end : (r q : List ℕ) → strcmp value (0 ∷ r) (0 ∷ q) ≡ ret (pos 0)
  unfolding strcmp
  both_end r q = ground arith

  carry :
      (x : ℕ) (a b : List ℕ) (m : Outcome ℤ) {n : Outcome ℤ}
      → n ≡ m
      → Compared value a b m
      → Compared value (x ∷ a) (x ∷ b) n
  carry x a b m e (inl (p, f)) = inl (ap (◌∷◌ x) p, e ∙ f)
  carry x a b m e (inr (inl (p, f))) = inr (inl (same x (a ++ 0 ∷ []) (b ++ 0 ∷ []) p, e ∙ f))
  carry x a b m e (inr (inr (p, f))) = inr (inr (same x (b ++ 0 ∷ []) (a ++ 0 ∷ []) p, e ∙ f))

  -- For an order of the chars that tells them apart, strcmp returns 0 exactly if the strings are
  -- equal, and otherwise -1 or 1, as the first string or the second has the lower character at the
  -- first place where they differ, their NULs included.
  pub strcmp_lem :
      (a b r q : List ℕ)
      → IsText a
      → IsText b
      → Compared value a b (strcmp value (terminated a r) (terminated b q))
  strcmp_lem [] [] r q ha hb = inl (refl, both_end r q)
  strcmp_lem [] (y ∷ b) r q ha (nz, hb) =
      inr (first_differ 0 y r (terminated b q) [] (b ++ 0 ∷ []) (λ e. nz (sym e)))
  strcmp_lem (x ∷ a) [] r q (nz, ha) hb =
      inr (first_differ x 0 (terminated a r) q (a ++ 0 ∷ []) [] nz)
  strcmp_lem (x ∷ a) (y ∷ b) r q (nx, ha) (ny, hb) = elim (ℕ_discrete x y) [
    | no ne ↦
        inr (first_differ x y (terminated a r) (terminated b q) (a ++ 0 ∷ []) (b ++ 0 ∷ []) ne)
    | yes e ↦
        subst
          (λ (z : ℕ).
            Compared value (x ∷ a) (z ∷ b) (strcmp value (x ∷ terminated a r) (z ∷ terminated b q)))
          e
          (carry x a b _ (first_same x (terminated a r) (terminated b q) nx)
            (strcmp_lem a b r q ha hb))
  ]
