-- ===== src/Hashtable/Probe.antt =====
-- The probing of kern/lib/hashtable.c: the slot that a new entry takes.
use mehrad.Base.{
  ℕ, zero, suc, ◌+◌, ◌%◌, ◌^◌, ◌<◌, ◌≤◌, ◌≡◌, refl, ap, Bool, true, false, List, some, ret, arith,
  ◌⊎◌, inl, inr, Bool-cases, length, get_elem?, get_elem?-of_lt, dec_le, subst,
}
use mehrad.Hashtable.{Slot, Hashtable, is_free, find_slot, word}

-- A table has its size, which is a positive int.
pub record IsTable (ht : Hashtable) : Type 0 where
  pub sized : length ht.table ≡ ht.size
  pub positive : 0 < ht.size
  pub int : ht.size < 2 ^ 31

-- The slot at the offset is free or not.
abbrev pub FreeAt : List Slot → ℕ → Bool → Type 0
FreeAt table i b = (s : Slot) × (get_elem? table i ≡ some s) × (is_free s ≡ b)

-- `offset` is the first, from `start` on, at which the slot is free.
pub record FirstFree (table : List Slot) (size index start offset : ℕ) : Type 0 where
  pub from : start ≤ offset
  pub free : FreeAt table ((index + offset) % size) true
  pub before : (o : ℕ) → start ≤ o → o < offset → FreeAt table ((index + o) % size) false

pub no_wrap : (a size : ℕ) → a < 2 ^ 32 → a % word % size ≡ a % size
no_wrap a size h = ap (λ x. x % size) (omega arith)

pub find_slot_lem :
    (table : List Slot) (size index n start : ℕ)
    → length table ≡ size
    → index < size
    → size < 2 ^ 31
    → start + n ≡ size
    → ((offset : ℕ) × (find_slot table size index n start ≡ ret offset)
        × (offset < size)
        × FirstFree table size index start offset)
      ⊎ ((find_slot table size index n start ≡ ret size)
          × ((o : ℕ) → start ≤ o → o < size → FreeAt table ((index + o) % size) false))
unfolding find_slot
find_slot_lem table size index zero start l i b e =
    let (s, q) = get_elem?-of_lt table ((index + start) % word % size) (omega arith) in
    inr (rw q (ap ret (omega arith)), λ o from to. absurd (omega arith))
find_slot_lem table size index (suc n) start l i b e =
    let w = no_wrap (index + start) size (omega arith) in
    let (s, q) = get_elem?-of_lt table ((index + start) % size) (omega arith) in
    elim (Bool-cases (is_free s)) [
      | inl y ↦ inl (
        start,
        rw w (rw q (rw y refl)),
        omega arith,
        record { from = omega arith; free = (s, q, y); before = λ o from to. absurd (omega arith) },
      )
      | inr z ↦ elim (find_slot_lem table size index n (start + 1) l i b (omega arith)) [
        | inl (offset, r, lt, f) ↦ inl (
          offset,
          rw w (rw q (rw z r)),
          lt,
          record {
            from = omega (arith, f.from);
            free = f.free;
            before = λ o from to. elim (dec_le (start + 1) o) [
              | yes le ↦ f.before o le to
              | no ne ↦
                  let p : start ≡ o = omega arith in
                  subst (λ x. FreeAt table ((index + x) % size) false) p (s, q, z)
            ];
          },
        )
        | inr (r, all) ↦ inr (
          rw w (rw q (rw z r)),
          λ o from to. elim (dec_le (start + 1) o) [
            | yes le ↦ all o le to
            | no ne ↦
                let p : start ≡ o = omega arith in
                subst (λ x. FreeAt table ((index + x) % size) false) p (s, q, z)
          ],
        )
      ]
    ]
