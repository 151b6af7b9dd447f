-- ===== src/Memory/Cells.antt =====
-- What a copy within memory does to each cell.
use mehrad.Base.{
  ℕ, suc, ◌+◌, ◌-◌, ◌<◌, ◌≤◌, ◌≡◌, ap, ◌∙◌, sym, List, [], ◌∷◌, ◌++◌, arith, ◌⊎◌, inl, inr, length,
  get_elem?, take, drop, length-append, length-take_le, length-drop, get_elem?-append_left,
  get_elem?-take, get_elem?-drop,
}
use mehrad.Memory.Copy.{moved}

get_elem?-append_right :
    (xs ys : List ℕ) (j : ℕ) → get_elem? (xs ++ ys) (length xs + j) ≡ get_elem? ys j
get_elem?-append_right [] ys j = ap (get_elem? ys) (omega arith)
get_elem?-append_right (x ∷ xs) ys j =
    let e : length (x ∷ xs) + j ≡ suc (length xs + j) = omega arith in
    rw e (get_elem?-append_right xs ys j)

-- The bytes from `d` on are those that stood from `s`, and the others are as they were.
pub record IsMoved (m m' : List ℕ) (d s n : ℕ) : Type 0 where
  pub sized : length m' ≡ length m
  pub below : (i : ℕ) → i < d → get_elem? m' i ≡ get_elem? m i
  pub inside : (i : ℕ) → i < n → get_elem? m' (d + i) ≡ get_elem? m (s + i)
  pub above : (i : ℕ) → get_elem? m' (d + n + i) ≡ get_elem? m (d + n + i)

pub moved-IsMoved :
    (m : List ℕ) (d s n : ℕ) → d + n ≤ length m → s + n ≤ length m → IsMoved m (moved m d s n) d s n
moved-IsMoved m d s n h k =
    let front : length (take d m) ≡ d = length-take_le d m (omega arith) in
    let rest : length (drop s m) ≡ length m - s = length-drop s m in
    let middle : length (take n (drop s m)) ≡ n = length-take_le n (drop s m) (omega arith) in
    let back : length (drop (d + n) m) ≡ length m - (d + n) = length-drop (d + n) m in
    let tail : List ℕ = take n (drop s m) ++ drop (d + n) m in
    record {
      sized =
          length-append (take d m) tail
          ∙ (let e = length-append (take n (drop s m)) (drop (d + n) m) in omega arith);
      below = λ i l. get_elem?-append_left (take d m) tail i (omega arith) ∙ get_elem?-take d m i l;
      inside = λ i l.
          ap (λ (j : ℕ). get_elem? (moved m d s n) (j + i)) (sym front)
          ∙ get_elem?-append_right (take d m) tail i
          ∙ get_elem?-append_left (take n (drop s m)) (drop (d + n) m) i (omega arith)
          ∙ get_elem?-take n (drop s m) i l
          ∙ get_elem?-drop s m i;
      above = λ i.
          (let e : d + n + i ≡ length (take d m) + (length (take n (drop s m)) + i) = omega arith in
            ap (get_elem? (moved m d s n)) e)
          ∙ get_elem?-append_right (take d m) tail (length (take n (drop s m)) + i)
          ∙ get_elem?-append_right (take n (drop s m)) (drop (d + n) m) i
          ∙ get_elem?-drop (d + n) m i;
    }

pub at_place : (m : List ℕ) (i j : ℕ) → i ≡ j → get_elem? m i ≡ get_elem? m j
at_place m i j e = ap (get_elem? m) e

-- A move into the cells from `d` on keeps the others.
pub IsMoved-others :
    {m m' : List ℕ} {d s n : ℕ}
    → IsMoved m m' d s n
    → (i : ℕ) → (i < d) ⊎ (d + n ≤ i)
    → get_elem? m' i ≡ get_elem? m i
IsMoved-others {m} {m'} {d} {s} {n} h i (inl l) = h.below i l
IsMoved-others {m} {m'} {d} {s} {n} h i (inr g) =
    at_place m' i (d + n + (i - (d + n))) (omega arith)
    ∙ h.above (i - (d + n))
    ∙ at_place m (d + n + (i - (d + n))) i (omega arith)
