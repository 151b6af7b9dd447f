-- ===== src/Hashtable/Tests.antt =====
-- The theorems about kern/lib/hashtable.c at concrete inputs.
use mehrad.Base.{
  ℕ, ◌+◌, ◌%◌, ◌<◌, ◌≡◌, refl, true, false, List, [], ◌∷◌, none, some, ret, panic, arith, ◌⊎◌,
}
use mehrad.Base.Int.{pos}
use mehrad.Text.Strings.{IsText, terminated}
use mehrad.Hashtable.{
  empty, deleted, taken, Hashtable, hashfunction, hash_from, ht_add_element,
  ht_delete_element_by_index, ht_delete_element_by_key, ht_retrieve_element_by_index,
  ht_retrieve_element_by_key,
}
use mehrad.Hashtable.Probe.{IsTable, FreeAt, FirstFree}
use mehrad.Hashtable.Add.{added, ht_add_element_lem}
use mehrad.Hashtable.Index.{KeepsOthers, Deleted, ht_retrieve-add, ht_delete_element_by_index_lem}
use mehrad.Hashtable.Key.{by_key_lem}

abbrev cat : List ℕ
cat = b'c' ∷ b'a' ∷ b't' ∷ []

cat-IsText : IsText cat
cat-IsText = omega arith

-- Slot 1 is taken, slot 2 was.
abbrev processes : Hashtable
processes = record {
  size = 3;
  name = b'p' ∷ 0 ∷ [];
  table = empty ∷ taken (some (b'a' ∷ 0 ∷ [])) 700 ∷ deleted ∷ [];
  deleted_key = b'?' ∷ 0 ∷ [];
}

processes-IsTable : IsTable processes
processes-IsTable = record { sized = refl; positive = omega arith; int = omega arith }

abbrev plain : ℕ → ℕ
plain c = c

abbrev junk : ℕ → ℕ
junk i = 170

abbrev cat_hash : ℕ
cat_hash = 105080213

cat-hashfunction : hashfunction plain (terminated cat []) ≡ ret cat_hash
unfolding hashfunction hash_from
cat-hashfunction = refl

ht_add_element_lem_example :
    (h : ℕ) × (hashfunction plain (terminated cat []) ≡ ret h)
    × (((ht_add_element plain (some 0) (some junk) processes (terminated cat []) 900
            ≡ ret (none, processes))
          × ((o : ℕ) → o < 3 → FreeAt processes.table ((h % 3 + o) % 3) false))
        ⊎ ((o : ℕ) × FirstFree processes.table 3 (h % 3) 0 o
            × (ht_add_element plain (some 0) (some junk) processes (terminated cat []) 900
                ≡ ret (added (some 0) (some junk) processes cat 900 ((h % 3 + o) % 3)))))
ht_add_element_lem_example =
    ht_add_element_lem plain (some 0) (some junk) processes cat [] 900 processes-IsTable cat-IsText
      (λ e. omega arith)

ht_retrieve-add_example :
    (i : ℕ) × (ht' : Hashtable) × (ht_add_element plain
        (some 0)
        (some junk)
        processes
        (terminated cat [])
        900
      ≡ ret (some i, ht'))
    × (i < 3)
    × FreeAt processes.table i true
    × IsTable ht'
    × (ht_retrieve_element_by_index ht' (pos i) ≡ ret (some 900))
    × KeepsOthers processes i ht'
ht_retrieve-add_example =
    ht_retrieve-add plain 0 junk processes cat [] 900 processes-IsTable cat-IsText
      (λ e. omega arith) 2 (omega arith) (deleted, refl, refl)

ht_delete_element_by_index_lem_example :
    ((◌≡◌ {A = ℕ} 1 0) × (ht_delete_element_by_index processes (pos 1) true ≡ panic))
    ⊎ Deleted processes 1 true
ht_delete_element_by_index_lem_example =
    ht_delete_element_by_index_lem processes 1 true processes-IsTable (omega arith)

by_key_lem_example :
    ((ht_retrieve_element_by_key plain plain 5 processes (terminated cat []) ≡ ret none)
      × (ht_delete_element_by_key plain plain processes (terminated cat []) true
          ≡ ret (false, none, processes)))
    ⊎ ((ht_retrieve_element_by_key plain plain 5 processes (terminated cat []) ≡ panic)
        × (ht_delete_element_by_key plain plain processes (terminated cat []) true ≡ panic))
by_key_lem_example =
    by_key_lem plain plain 5 processes (terminated cat []) true cat_hash processes-IsTable
      cat-hashfunction (omega arith) (omega arith)
