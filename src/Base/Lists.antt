-- ===== src/Base/Lists.antt =====
-- C arrays as lists, measured and indexed by native numbers.
use Prim.Native.Nat.{ℕ, zero, suc, ◌+◌, ◌-◌, ◌<◌, ◌≤◌}
use mathlib.Core.Path.{◌≡◌, refl, ap, ◌∙◌}
use mathlib.Core.Logic.{◌≢◌}
use mathlib.Core.List.{List, [], ◌∷◌, ◌++◌}
use mathlib.Core.Option.{Option, none, some}
use native.Mathlib.Omega.{arith}

module _ {ℓ} {A : Type ℓ} where
  abbrev pub length : List A → ℕ
  length [] = 0
  length (x ∷ xs) = suc (length xs)

  abbrev pub get_elem? : List A → ℕ → Option A
  get_elem? [] i = none
  get_elem? (x ∷ xs) zero = some x
  get_elem? (x ∷ xs) (suc i) = get_elem? xs i

  -- A write out of bounds changes nothing.
  abbrev pub set : List A → ℕ → A → List A
  set [] i v = []
  set (x ∷ xs) zero v = v ∷ xs
  set (x ∷ xs) (suc i) v = x ∷ set xs i v

  abbrev pub take : ℕ → List A → List A
  take zero xs = []
  take (suc n) [] = []
  take (suc n) (x ∷ xs) = x ∷ take n xs

  abbrev pub drop : ℕ → List A → List A
  drop zero xs = xs
  drop (suc n) [] = []
  drop (suc n) (x ∷ xs) = drop n xs

  abbrev pub replicate : ℕ → A → List A
  replicate zero a = []
  replicate (suc n) a = a ∷ replicate n a

  -- The `n` cells from index `i` on of memory that holds `f`.
  abbrev pub tabulate : ℕ → ℕ → (ℕ → A) → List A
  tabulate i zero f = []
  tabulate i (suc n) f = f i ∷ tabulate (suc i) n f

module _ {ℓ} {A : Type ℓ} where
  pub length-append : (xs ys : List A) → length (xs ++ ys) ≡ length xs + length ys
  length-append [] ys = omega arith
  length-append (x ∷ xs) ys = omega (arith, length-append xs ys)

  pub length-set : (xs : List A) (i : ℕ) (v : A) → length (set xs i v) ≡ length xs
  length-set [] i v = refl
  length-set (x ∷ xs) zero v = refl
  length-set (x ∷ xs) (suc i) v = ap suc (length-set xs i v)

  pub length-replicate : (n : ℕ) (a : A) → length (replicate n a) ≡ n
  length-replicate zero a = refl
  length-replicate (suc n) a = ap suc (length-replicate n a)

  pub length-tabulate : (i n : ℕ) (f : ℕ → A) → length (tabulate i n f) ≡ n
  length-tabulate i zero f = refl
  length-tabulate i (suc n) f = ap suc (length-tabulate (suc i) n f)

  pub get_elem?-of_lt : (xs : List A) (i : ℕ) → i < length xs → (x : A) × (get_elem? xs i ≡ some x)
  get_elem?-of_lt [] i h = absurd (omega arith)
  get_elem?-of_lt (x ∷ xs) zero h = (x, refl)
  get_elem?-of_lt (x ∷ xs) (suc i) h = get_elem?-of_lt xs i (omega arith)

  pub get_elem?-lt : (xs : List A) (i : ℕ) (x : A) → get_elem? xs i ≡ some x → i < length xs
  get_elem?-lt [] i x h = cc
  get_elem?-lt (y ∷ xs) zero x h = omega arith
  get_elem?-lt (y ∷ xs) (suc i) x h = omega (arith, get_elem?-lt xs i x h)

  pub get_elem?-ge : (xs : List A) (i : ℕ) → length xs ≤ i → get_elem? xs i ≡ none
  get_elem?-ge [] i h = refl
  get_elem?-ge (x ∷ xs) zero h = absurd (omega arith)
  get_elem?-ge (x ∷ xs) (suc i) h = get_elem?-ge xs i (omega arith)

  pub get_elem?-set_self :
      (xs : List A) (i : ℕ) (v : A) → i < length xs → get_elem? (set xs i v) i ≡ some v
  get_elem?-set_self [] i v h = absurd (omega arith)
  get_elem?-set_self (x ∷ xs) zero v h = refl
  get_elem?-set_self (x ∷ xs) (suc i) v h = get_elem?-set_self xs i v (omega arith)

  pub get_elem?-set_ne :
      (xs : List A) (i j : ℕ) (v : A) → i ≢ j → get_elem? (set xs i v) j ≡ get_elem? xs j
  get_elem?-set_ne [] i j v h = refl
  get_elem?-set_ne (x ∷ xs) zero zero v h = absurd (h refl)
  get_elem?-set_ne (x ∷ xs) zero (suc j) v h = refl
  get_elem?-set_ne (x ∷ xs) (suc i) zero v h = refl
  get_elem?-set_ne (x ∷ xs) (suc i) (suc j) v h = get_elem?-set_ne xs i j v (λ e. h (ap suc e))

  pub get_elem?-append_left :
      (xs ys : List A) (i : ℕ) → i < length xs → get_elem? (xs ++ ys) i ≡ get_elem? xs i
  get_elem?-append_left [] ys i h = absurd (omega arith)
  get_elem?-append_left (x ∷ xs) ys zero h = refl
  get_elem?-append_left (x ∷ xs) ys (suc i) h = get_elem?-append_left xs ys i (omega arith)

  -- Writing the cell just past a prefix extends the prefix.
  pub take-set_end :
      (n : ℕ) (xs : List A) (v : A)
      → n < length xs
      → take (suc n) (set xs n v) ≡ take n xs ++ v ∷ []
  take-set_end n [] v h = absurd (omega arith)
  take-set_end zero (x ∷ xs) v h = refl
  take-set_end (suc n) (x ∷ xs) v h = ap (◌∷◌ x) (take-set_end n xs v (omega arith))

  pub take-append_left : (n : ℕ) (xs ys : List A) → n ≤ length xs → take n (xs ++ ys) ≡ take n xs
  take-append_left zero xs ys h = refl
  take-append_left (suc n) [] ys h = absurd (omega arith)
  take-append_left (suc n) (x ∷ xs) ys h = ap (◌∷◌ x) (take-append_left n xs ys (omega arith))

  pub length-take_le : (n : ℕ) (xs : List A) → n ≤ length xs → length (take n xs) ≡ n
  length-take_le zero xs h = refl
  length-take_le (suc n) [] h = absurd (omega arith)
  length-take_le (suc n) (x ∷ xs) h = omega (arith, length-take_le n xs)

  pub take-take_self :
      (n : ℕ) (xs ys : List A) → n ≤ length xs → take n (take n xs ++ ys) ≡ take n xs
  take-take_self zero xs ys h = refl
  take-take_self (suc n) [] ys h = absurd (omega arith)
  take-take_self (suc n) (x ∷ xs) ys h = ap (◌∷◌ x) (take-take_self n xs ys (omega arith))

  pub get_elem?-take :
      (n : ℕ) (xs : List A) (i : ℕ) → i < n → get_elem? (take n xs) i ≡ get_elem? xs i
  get_elem?-take zero xs i h = absurd (omega arith)
  get_elem?-take (suc n) [] i h = refl
  get_elem?-take (suc n) (x ∷ xs) zero h = refl
  get_elem?-take (suc n) (x ∷ xs) (suc i) h = get_elem?-take n xs i (omega arith)

  pub take-set_inside :
      (n : ℕ) (xs : List A) (i : ℕ) (v : A) → i < n → take n (set xs i v) ≡ set (take n xs) i v
  take-set_inside zero xs i v h = absurd (omega arith)
  take-set_inside (suc n) [] i v h = refl
  take-set_inside (suc n) (x ∷ xs) zero v h = refl
  take-set_inside (suc n) (x ∷ xs) (suc i) v h = ap (◌∷◌ x) (take-set_inside n xs i v (omega arith))

  pub drop-set_before :
      (n : ℕ) (xs : List A) (i : ℕ) (v : A) → i < n → drop n (set xs i v) ≡ drop n xs
  drop-set_before zero xs i v h = absurd (omega arith)
  drop-set_before (suc n) [] i v h = refl
  drop-set_before (suc n) (x ∷ xs) zero v h = refl
  drop-set_before (suc n) (x ∷ xs) (suc i) v h = drop-set_before n xs i v (omega arith)

  pub take-set_after :
      (n : ℕ) (xs : List A) (i : ℕ) (v : A) → n ≤ i → take n (set xs i v) ≡ take n xs
  take-set_after zero xs i v h = refl
  take-set_after (suc n) [] i v h = refl
  take-set_after (suc n) (x ∷ xs) zero v h = absurd (omega arith)
  take-set_after (suc n) (x ∷ xs) (suc i) v h = ap (◌∷◌ x) (take-set_after n xs i v (omega arith))

  pub drop-cons :
      (n : ℕ) (xs : List A) (v : A) → get_elem? xs n ≡ some v → drop n xs ≡ v ∷ drop (suc n) xs
  drop-cons n [] v h = cc
  drop-cons zero (x ∷ xs) v h = ground arith
  drop-cons (suc n) (x ∷ xs) v h = drop-cons n xs v h

  pub length-drop : (n : ℕ) (xs : List A) → length (drop n xs) ≡ length xs - n
  length-drop zero xs = omega arith
  length-drop (suc n) [] = omega arith
  length-drop (suc n) (x ∷ xs) = omega (arith, length-drop n xs)

  pub get_elem?-drop :
      (n : ℕ) (xs : List A) (i : ℕ) → get_elem? (drop n xs) i ≡ get_elem? xs (n + i)
  get_elem?-drop zero xs i = ap (get_elem? xs) (omega arith)
  get_elem?-drop (suc n) [] i = refl
  get_elem?-drop (suc n) (x ∷ xs) i =
      let e : suc (n + i) ≡ suc n + i = omega arith in
      get_elem?-drop n xs i ∙ ap (get_elem? (x ∷ xs)) e

  pub take_all : (n : ℕ) (xs : List A) → length xs ≤ n → take n xs ≡ xs
  take_all zero [] h = refl
  take_all zero (x ∷ xs) h = absurd (omega arith)
  take_all (suc n) [] h = refl
  take_all (suc n) (x ∷ xs) h = ap (◌∷◌ x) (take_all n xs (omega arith))

  pub take-append-drop : (n : ℕ) (xs : List A) → take n xs ++ drop n xs ≡ xs
  take-append-drop zero xs = refl
  take-append-drop (suc n) [] = refl
  take-append-drop (suc n) (x ∷ xs) = ap (◌∷◌ x) (take-append-drop n xs)

  pub take-snoc :
      (n : ℕ) (xs : List A) (v : A)
      → get_elem? xs n ≡ some v
      → take (suc n) xs ≡ take n xs ++ v ∷ []
  take-snoc n [] v h = cc
  take-snoc zero (x ∷ xs) v h = ground arith
  take-snoc (suc n) (x ∷ xs) v h = ap (◌∷◌ x) (take-snoc n xs v h)

  pub drop-set_self :
      (xs : List A) (i : ℕ) (v : A) → i < length xs → drop i (set xs i v) ≡ v ∷ drop (suc i) xs
  drop-set_self [] i v h = absurd (omega arith)
  drop-set_self (x ∷ xs) zero v h = refl
  drop-set_self (x ∷ xs) (suc i) v h = drop-set_self xs i v (omega arith)

  pub take-drop-set_after :
      (s n : ℕ) (xs : List A) (i : ℕ) (v : A)
      → s + n ≤ i
      → take n (drop s (set xs i v)) ≡ take n (drop s xs)
  take-drop-set_after zero n xs i v h = take-set_after n xs i v (omega arith)
  take-drop-set_after (suc s) n [] i v h = refl
  take-drop-set_after (suc s) n (x ∷ xs) zero v h = absurd (omega arith)
  take-drop-set_after (suc s) n (x ∷ xs) (suc i) v h = take-drop-set_after s n xs i v (omega arith)

  pub take-append_eq : (n : ℕ) (xs ys : List A) → length xs ≡ n → take n (xs ++ ys) ≡ xs
  take-append_eq zero [] ys h = refl
  take-append_eq zero (x ∷ xs) ys h = absurd (omega arith)
  take-append_eq (suc n) [] ys h = absurd (omega arith)
  take-append_eq (suc n) (x ∷ xs) ys h = ap (◌∷◌ x) (take-append_eq n xs ys (omega arith))

  pub take-take_le : (k n : ℕ) (xs : List A) → k ≤ n → take k (take n xs) ≡ take k xs
  take-take_le zero n xs h = refl
  take-take_le (suc k) zero xs h = absurd (omega arith)
  take-take_le (suc k) (suc n) [] h = refl
  take-take_le (suc k) (suc n) (x ∷ xs) h = ap (◌∷◌ x) (take-take_le k n xs (omega arith))

  pub drop-take : (k n : ℕ) (xs : List A) → drop k (take n xs) ≡ take (n - k) (drop k xs)
  drop-take zero n xs = ap (λ j. take j xs) (omega arith)
  drop-take (suc k) zero xs = let e : zero - suc k ≡ 0 = omega arith in rw e
  drop-take (suc k) (suc n) [] = take-nil (suc n - suc k)
    where
      take-nil : (j : ℕ) → [] ≡ take {A = A} j []
      take-nil zero = refl
      take-nil (suc j) = refl
  drop-take (suc k) (suc n) (x ∷ xs) = drop-take k n xs ∙ ap (λ j. take j (drop k xs)) (omega arith)
