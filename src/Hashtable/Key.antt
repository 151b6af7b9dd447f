-- ===== src/Hashtable/Key.antt =====
-- The search by key of kern/lib/hashtable.c: it compares along `(index + offset) % size` and then
-- reads at `index + offset`.
use mehrad.Base.{
  ℕ, zero, suc, ◌+◌, ◌%◌, ◌^◌, ◌<◌, ◌≤◌, ◌≡◌, refl, Bool, true, false, ◌||◌, List, none, Outcome,
  ret, panic, ltb, ◌==◌, arith, ◌⊎◌, inl, inr, Bool-cases, get_elem?-ge,
}
use mehrad.Hashtable.{
  Hashtable, word, hashfunction, slot_at_int, int_remainder, stops_at, find_key, is_null, locate,
  ht_delete_element_by_key, ht_retrieve_element_by_key,
}
use mehrad.Hashtable.Probe.{IsTable}

outcome-cases {ℓ} : {A : Type ℓ} (r : Outcome A) → ((a : A) × (r ≡ ret a)) ⊎ (r ≡ panic)
outcome-cases (ret a) = inl (a, refl)
outcome-cases panic = inr refl

-- The search ends at an offset that was to come, or in a panic.
find_key-cases :
    (value : ℕ → ℕ) (ht : Hashtable) (key : List ℕ) (index n offset : ℕ)
    → ((o : ℕ) × (find_key value ht key index n offset ≡ ret o) × (o ≤ offset + n))
      ⊎ (find_key value ht key index n offset ≡ panic)
unfolding find_key
find_key-cases value ht key index zero offset =
    elim (outcome-cases (slot_at_int ht.table (int_remainder ((index + offset) % word) ht.size))) [
      | inr p ↦ inr (rw p refl)
      | inl (s, e) ↦ elim (outcome-cases (stops_at value ht key s)) [
        | inr p ↦ inr (rw e (rw p refl))
        | inl (stop, f) ↦ inl (offset, rw e (rw f refl), omega arith)
      ]
    ]
find_key-cases value ht key index (suc n) offset =
    elim (outcome-cases (slot_at_int ht.table (int_remainder ((index + offset) % word) ht.size))) [
      | inr p ↦ inr (rw p refl)
      | inl (s, e) ↦ elim (outcome-cases (stops_at value ht key s)) [
        | inr p ↦ inr (rw e (rw p refl))
        | inl (true, f) ↦ inl (offset, rw e (rw f refl), omega arith)
        | inl (false, f) ↦ elim (find_key-cases value ht key index n (offset + 1)) [
          | inr p ↦ inr (rw e (rw f p))
          | inl (o, q, b) ↦ inl (o, rw e (rw f q), omega arith)
        ]
      ]
    ]

out_of_table : (ht : Hashtable) (x : ℕ) → IsTable ht → ht.size ≤ x → slot_at_int ht.table x ≡ panic
out_of_table ht x v h = elim (Bool-cases (ltb x (2 ^ 31))) [
  | inl y ↦ rw y (rw (get_elem?-ge ht.table x (omega (arith, v.sized))) refl)
  | inr n ↦ rw n refl
]

locate-cases :
    (promoted value : ℕ → ℕ) (ht : Hashtable) (key : List ℕ) (h : ℕ)
    → IsTable ht
    → hashfunction promoted key ≡ ret h
    → ht.size ≤ h
    → h + ht.size < 2 ^ 32
    → (locate promoted value ht key ≡ ret none) ⊎ (locate promoted value ht key ≡ panic)
unfolding locate
locate-cases promoted value ht key h v e le lt =
    let p = v.positive in
    let positive : ltb 0 ht.size ≡ true = ground arith in
    elim (find_key-cases value ht key h ht.size 0) [
      | inr p ↦ inr (rw e (rw positive (rw p refl)))
      | inl (o, q, b) ↦
          let w : (h + o) % word ≡ h + o = omega arith in
          elim (outcome-cases (slot_at_int ht.table (int_remainder ((h + o) % word) ht.size))) [
            | inr p ↦ inr (rw e (rw positive (rw q (rw p refl))))
            | inl (s, r) ↦ elim (Bool-cases (o == ht.size || is_null s)) [
              | inl y ↦ inl (rw e (rw positive (rw q (rw r (rw y refl)))))
              | inr n ↦
                  let out : slot_at_int ht.table ((h + o) % word) ≡ panic =
                    out_of_table ht ((h + o) % word) v (omega arith) in
                  inr (rw e (rw positive (rw q (rw r (rw n (rw out refl))))))
            ]
          ]
    ]

-- If the hash of the key is not below the size of the table, and the two together stay below 2^32:
-- whatever the table holds, no search by key finds an entry. ht_retrieve_element_by_key returns NULL
-- or panics, and ht_delete_element_by_key returns -1 and changes nothing or panics; which of the two
-- it is, is the same for both. A panic stands for a read outside the table, or for strcmp at a key
-- that is NULL or has no end.
pub by_key_lem :
    (promoted value : ℕ → ℕ) (dummy_entry : ℕ) (ht : Hashtable) (key : List ℕ) (destroy : Bool)
    (h : ℕ)
    → IsTable ht
    → hashfunction promoted key ≡ ret h
    → ht.size ≤ h
    → h + ht.size < 2 ^ 32
    → ((ht_retrieve_element_by_key promoted value dummy_entry ht key ≡ ret none)
        × (ht_delete_element_by_key promoted value ht key destroy ≡ ret (false, none, ht)))
      ⊎ ((ht_retrieve_element_by_key promoted value dummy_entry ht key ≡ panic)
          × (ht_delete_element_by_key promoted value ht key destroy ≡ panic))
unfolding ht_retrieve_element_by_key ht_delete_element_by_key
by_key_lem promoted value dummy_entry ht key destroy h v e le lt =
    elim (locate-cases promoted value ht key h v e le lt) [
      | inl n ↦ inl (rw n refl, rw n refl)
      | inr p ↦ inr (rw p refl, rw p refl)
    ]
