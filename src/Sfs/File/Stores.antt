-- ===== src/Sfs/File/Stores.antt =====
-- Bytes stored in memory, and the bytes of a block.
use mehrad.Base.{
  ℕ, zero, suc, ◌+◌, ◌*◌, ◌<◌, ◌≤◌, ◌≡◌, refl, ap, ◌∙◌, List, [], ◌∷◌, some, ret, arith, ◌⊎◌, inl,
  inr, length, get_elem?, set, replicate, length-set, get_elem?-set_self, get_elem?-set_ne, lt→ltb,
}
use mehrad.Memory.{store_bytes}
use mehrad.Sfs.Io.{block_bytes}

-- The bytes from `i` on are `bs`, and the others are as they were.
pub record HasStored (m m' : List ℕ) (i : ℕ) (bs : List ℕ) : Type 0 where
  pub sized : length m' ≡ length m
  pub inside : (k : ℕ) → k < length bs → get_elem? m' (i + k) ≡ get_elem? bs k
  pub outside : (j : ℕ) → (j < i) ⊎ (i + length bs ≤ j) → get_elem? m' j ≡ get_elem? m j

nothing-HasStored : (m : List ℕ) (i : ℕ) → HasStored m m i []
nothing-HasStored m i = record {
  sized = refl;
  inside = λ k h. absurd (omega arith);
  outside = λ j h. refl;
}

cons-HasStored :
    (m m' : List ℕ) (i b : ℕ) (bs : List ℕ)
    → i < length m
    → HasStored (set m i b) m' (i + 1) bs
    → HasStored m m' i (b ∷ bs)
cons-HasStored m m' i b bs l h = record {
  sized = h.sized ∙ length-set m i b;
  inside = λ k. inside k;
  outside = λ j o.
      h.outside j (elim o [ inl x ↦ inl (omega arith) | inr x ↦ inr (omega arith) ])
      ∙ get_elem?-set_ne m i j b
          (elim o [ inl x ↦ (λ e. omega arith) | inr x ↦ (λ e. omega arith) ]);
}
  where
    inside : (k : ℕ) → k < length (b ∷ bs) → get_elem? m' (i + k) ≡ get_elem? (b ∷ bs) k
    inside zero x =
        let e : i + 0 ≡ i = omega arith in
        ap (get_elem? m') e ∙ h.outside i (inl (omega arith)) ∙ get_elem?-set_self m i b l
    inside (suc k) x =
        let e : i + suc k ≡ i + 1 + k = omega arith in
        ap (get_elem? m') e ∙ h.inside k (omega arith)

pub store_bytes_lem :
    (m : List ℕ) (i : ℕ) (bs : List ℕ)
    → i + length bs ≤ length m
    → (m' : List ℕ) × (store_bytes m i bs ≡ ret m') × HasStored m m' i bs
unfolding store_bytes
store_bytes_lem m i [] h = (m, refl, nothing-HasStored m i)
store_bytes_lem m i (b ∷ bs) h =
    let (m', e, s) = store_bytes_lem (set m i b) (i + 1) bs (omega (arith, length-set m i b)) in
    (m', rw (lt→ltb i (length m) (omega arith)) e, cons-HasStored m m' i b bs (omega arith) s)

pub length-block_bytes : (ws : List ℕ) → length (block_bytes ws) ≡ 4 * length ws
unfolding block_bytes
length-block_bytes [] = omega arith
length-block_bytes (w ∷ ws) = omega (arith, length-block_bytes ws)

pub get_elem?-replicate : (n i x : ℕ) → i < n → get_elem? (replicate n x) i ≡ some x
get_elem?-replicate zero i x h = absurd (omega arith)
get_elem?-replicate (suc n) zero x h = refl
get_elem?-replicate (suc n) (suc i) x h = get_elem?-replicate n i x (omega arith)
