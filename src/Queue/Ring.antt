-- ===== src/Queue/Ring.antt =====
-- Which list a ring of kern/lib/queue.c holds.
use native.Mathlib.Nat.{mod-eq_of_lt, mod-eq-sub-mod, mod-add-mod, mod-lt}
use mehrad.Base.{
  ℕ, suc, ◌+◌, ◌-◌, ◌%◌, ◌<◌, ◌≡◌, ◌≢◌, ap, ◌∙◌, sym, List, [], ◌∷◌, ◌++◌, some, arith, length,
  get_elem?, set, get_elem?-set_ne, dec_lt,
}
use mehrad.Queue.{Queue}

-- Fewer than `s` steps round a ring of `s` cells do not come back to the start.
pub round-ne : (s h k : ℕ) → h < s → 0 < k → k < s → (h + k) % s ≢ h
round-ne s h k hs pos ks = elim (dec_lt (h + k) s) [
  | yes p ↦ omega (arith, mod-eq_of_lt p)
  | no p ↦ omega (
    arith,
    mod-eq-sub-mod {n = h + k} {m = s} (omega arith),
    mod-eq_of_lt {n = h + k - s} {m = s} (omega arith),
  )
]

-- `s` steps do.
pub round-eq : (s h : ℕ) → h < s → (h + s) % s ≡ h
round-eq s h hs = grind arith

step-add : (s h k : ℕ) → ((h + 1) % s + k) % s ≡ (h + suc k) % s
step-add s h k = rw mod-add-mod (ap (λ (n : ℕ). n % s) (omega arith))

module _ {ℓ} {A : Type ℓ} where
  -- The cells from `r` on, going round at `s`, hold `xs`, and `w` is the cell after them.
  abbrev pub Run : List A → ℕ → ℕ → List A → ℕ → Type ℓ
  Run c s r [] w = (r ≡ w) × Unit {ℓ}
  Run c s r (x ∷ xs) w = (get_elem? c r ≡ some x) × Run c s ((r + 1) % s) xs w

  pub Run-end :
      (c : List A) (s r : ℕ) (xs : List A) (w : ℕ)
      → r < s
      → Run c s r xs w
      → w ≡ (r + length xs) % s
  Run-end c s r [] w h (e, u) =
      let z : r ≡ r + 0 = omega arith in sym e ∙ sym (mod-eq_of_lt h) ∙ ap (λ (n : ℕ). n % s) z
  Run-end c s r (x ∷ xs) w h (g, t) =
      Run-end c s ((r + 1) % s) xs w (mod-lt (r + 1) (omega arith)) t ∙ step-add s r (length xs)

  pub Run-snoc :
      (c : List A) (s r : ℕ) (xs : List A) (w : ℕ) (p : A)
      → Run c s r xs w
      → get_elem? c w ≡ some p
      → Run c s r (xs ++ p ∷ []) ((w + 1) % s)
  Run-snoc c s r [] w p (e, u) g = (ap (get_elem? c) e ∙ g, (ap (λ (n : ℕ). (n + 1) % s) e, tt))
  Run-snoc c s r (x ∷ xs) w p (h, t) g = (h, Run-snoc c s ((r + 1) % s) xs w p t g)

  -- A write to the cell after a run that leaves a cell free does not touch the run.
  pub Run-set :
      (c : List A) (s r : ℕ) (xs : List A) (w : ℕ) (p : A)
      → r < s
      → length xs < s
      → Run c s r xs w
      → Run (set c w p) s r xs w
  Run-set c s r [] w p h k t = t
  Run-set c s r (x ∷ xs) w p h k (g, t) =
      let e = Run-end c s r (x ∷ xs) w h (g, t) in
      let away : w ≢ r = λ q. round-ne s r (length (x ∷ xs)) h (omega arith) k (sym e ∙ q) in
      (
        get_elem?-set_ne c w r p away ∙ g,
        Run-set c s ((r + 1) % s) xs w p (mod-lt (r + 1) (omega arith)) (omega arith) t,
      )

  -- The queue is well formed and holds `xs`, oldest first.
  pub record Holds (q : Queue A) (xs : List A) : Type ℓ where
    pub nonempty : 0 < q.size
    pub sized : length q.cells ≡ q.size
    pub read_in : q.nextread < q.size
    pub write_in : q.nextwrite < q.size
    pub room : length xs < q.size
    pub run : Run q.cells q.size q.nextread xs q.nextwrite

  -- The next write would meet the read position exactly when one cell only is free.
  pub Holds-full :
      (q : Queue A) (xs : List A)
      → Holds q xs
      → length xs + 1 ≡ q.size
      → (q.nextwrite + 1) % q.size ≡ q.nextread
  Holds-full q xs h e =
      let w = Run-end q.cells q.size q.nextread xs q.nextwrite h.read_in h.run in
      let n = length xs in
      ap (λ (k : ℕ). (k + 1) % q.size) w
      ∙ mod-add-mod (q.nextread + n) q.size 1
      ∙ ap (λ (k : ℕ). k % q.size) (omega arith)
      ∙ round-eq q.size q.nextread h.read_in

  pub Holds-not_full :
      (q : Queue A) (xs : List A)
      → Holds q xs
      → length xs + 1 < q.size
      → (q.nextwrite + 1) % q.size ≢ q.nextread
  Holds-not_full q xs h lt e =
      let w = Run-end q.cells q.size q.nextread xs q.nextwrite h.read_in h.run in
      let n = length xs in
      let k : (q.nextwrite + 1) % q.size ≡ (q.nextread + (n + 1)) % q.size =
        ap (λ (k : ℕ). (k + 1) % q.size) w
        ∙ mod-add-mod (q.nextread + n) q.size 1
        ∙ ap (λ (k : ℕ). k % q.size) (omega arith) in
      round-ne q.size q.nextread (n + 1) h.read_in (omega arith) lt (sym k ∙ e)

  -- The positions coincide exactly when nothing is held.
  pub Holds-empty : (q : Queue A) → Holds q [] → q.nextwrite ≡ q.nextread
  Holds-empty q h = sym h.run.0

  pub Holds-cons : (q : Queue A) (x : A) (xs : List A) → Holds q (x ∷ xs) → q.nextwrite ≢ q.nextread
  Holds-cons q x xs h e =
      let w = Run-end q.cells q.size q.nextread (x ∷ xs) q.nextwrite h.read_in h.run in
      round-ne q.size q.nextread (length (x ∷ xs)) h.read_in (omega arith) h.room (sym w ∙ e)
