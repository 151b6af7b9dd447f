-- ===== src/Hashtable/Add.antt =====
-- ht_add_element of kern/lib/hashtable.c: the first free slot from the key's hash on takes the entry.
use mehrad.Base.{
  ℕ, ◌+◌, ◌*◌, ◌%◌, ◌<◌, ◌≡◌, ◌≢◌, refl, ap, ◌∙◌, true, false, List, [], ◌∷◌, ◌++◌, Option, none,
  some, ret, Block, ==_ne, ==_refl, ltb, arith, ◌⊎◌, inl, inr, length, drop, set, tabulate,
  length-drop, length-tabulate,
}
use mehrad.Text.Strings.{IsText, terminated, strlen_lem, strcpy_lem}
use mehrad.Hashtable.{
  empty, taken, Hashtable, word, copy_text, hash_from, hashfunction, fill_slot, ht_add_element,
}
use mehrad.Hashtable.Probe.{IsTable, FreeAt, FirstFree, no_wrap, find_slot_lem}

hash_from_lem :
    (promoted : ℕ → ℕ) (t rest : List ℕ) (h : ℕ)
    → IsText t
    → (k : ℕ) × (hash_from promoted (terminated t rest) h ≡ ret k)
unfolding hash_from
hash_from_lem promoted [] rest h u = (h, refl)
hash_from_lem promoted (c ∷ t) rest h (nz, u) =
    let (k, e) = hash_from_lem promoted t rest ((h * 101 + promoted c) % word) u in
    (k, rw (==_ne c 0 nz) e)

pub hashfunction_lem :
    (promoted : ℕ → ℕ) (t rest : List ℕ)
    → IsText t
    → (h : ℕ) × (hashfunction promoted (terminated t rest) ≡ ret h)
unfolding hashfunction
hashfunction_lem promoted t rest u = hash_from_lem promoted t rest 101 u

nothing_left : (xs : List ℕ) → length xs ≡ 0 → xs ≡ []
nothing_left [] e = refl
nothing_left (x ∷ xs) e = absurd (omega arith)

copy_text-some :
    (junk : ℕ → ℕ) (t rest : List ℕ)
    → IsText t
    → copy_text (some junk) (terminated t rest) ≡ ret (some (t ++ 0 ∷ []))
unfolding copy_text
copy_text-some junk t rest u =
    let room : List ℕ = tabulate 0 (length t + 1) junk in
    let l : length room ≡ length t + 1 = length-tabulate 0 (length t + 1) junk in
    elim (strcpy_lem t rest room u) [
      | inr (over, e) ↦ absurd (omega arith)
      | inl (fits, e) ↦
          let d =
            nothing_left (drop (length t + 1) room)
              (length-drop (length t + 1) room ∙ omega arith) in
          rw (strlen_lem t rest u) (rw e (ap (λ (r : List ℕ). ret (some (t ++ 0 ∷ r))) d))
    ]

copy_text-none : (t rest : List ℕ) → IsText t → copy_text none (terminated t rest) ≡ ret none
unfolding copy_text
copy_text-none t rest u = rw (strlen_lem t rest u) refl

-- What is left of an attempt to put an entry in slot `i`, as each kmalloc succeeds or fails.
abbrev pub added : Option ℕ → Block ℕ → Hashtable → List ℕ → ℕ → ℕ → Option ℕ × Hashtable
added none key_mem ht t ptr i = (none, record ht { table = set ht.table i empty })
added (some junk) none ht t ptr i = (none, record ht { table = set ht.table i (taken none junk) })
added (some junk) (some junk_key) ht t ptr i =
    (some i, record ht { table = set ht.table i (taken (some (t ++ 0 ∷ [])) ptr) })

fill_slot_lem :
    (mem : Option ℕ) (key_mem : Block ℕ) (ht : Hashtable) (t rest : List ℕ) (ptr i : ℕ)
    → IsText t
    → fill_slot mem key_mem ht (terminated t rest) ptr i ≡ ret (added mem key_mem ht t ptr i)
unfolding fill_slot
fill_slot_lem none key_mem ht t rest ptr i u = refl
fill_slot_lem (some junk) none ht t rest ptr i u = rw (copy_text-none t rest u) refl
fill_slot_lem (some junk) (some junk_key) ht t rest ptr i u =
    rw (copy_text-some junk_key t rest u) refl

-- For a table, a key and a pointer that is not NULL: if no slot is free, ht_add_element returns -1
-- and changes nothing; else the first free slot from the hash of the key on, round the end, takes the
-- entry, with a copy of the key, and its index is returned. Without memory for the entry it returns
-- -1 and empties the slot; without memory for the key, -1 and it leaves an entry with a NULL key.
pub ht_add_element_lem :
    (promoted : ℕ → ℕ) (mem : Option ℕ) (key_mem : Block ℕ) (ht : Hashtable) (t rest : List ℕ)
    (ptr : ℕ)
    → IsTable ht
    → IsText t
    → ptr ≢ 0
    → (h : ℕ) × (hashfunction promoted (terminated t rest) ≡ ret h)
      × (((ht_add_element promoted mem key_mem ht (terminated t rest) ptr ≡ ret (none, ht))
            × ((o : ℕ) → o < ht.size → FreeAt ht.table ((h % ht.size + o) % ht.size) false))
          ⊎ ((o : ℕ) × FirstFree ht.table ht.size (h % ht.size) 0 o
              × (ht_add_element promoted mem key_mem ht (terminated t rest) ptr
                  ≡ ret (added mem key_mem ht t ptr ((h % ht.size + o) % ht.size)))))
unfolding ht_add_element
ht_add_element_lem promoted mem key_mem ht t rest ptr v u nz =
    let (h, e) = hashfunction_lem promoted t rest u in
    let positive : ltb 0 ht.size ≡ true = let p = v.positive in ground arith in
    let int = v.int in
    let p = v.positive in
    let below : h % ht.size < ht.size = omega arith in
    (
      h,
      e,
      elim (find_slot_lem ht.table ht.size (h % ht.size) ht.size 0 v.sized below int
          (omega arith)) [
            | inr (r, all) ↦ inl (
              rw (==_ne ptr 0 nz) (rw e (rw positive (rw r (rw (==_refl ht.size) refl)))),
              λ o to. all o (omega arith) to,
            )
            | inl (o, r, lt, f) ↦
                let ne : o ≢ ht.size = omega arith in
                let w = no_wrap (h % ht.size + o) ht.size (omega arith) in
                inr (
                  o,
                  f,
                  rw (==_ne ptr 0 nz) (
                      rw e (
                        rw positive (
                          rw r (
                            rw (==_ne o ht.size ne) (
                              rw w (
                                fill_slot_lem mem key_mem ht t rest ptr
                                  ((h % ht.size + o) % ht.size) u)))))),
                )
          ],
    )
