-- ===== src/Hashtable.antt =====
-- kern/lib/hashtable.c: a table of entries with linear probing. A string is the memory from its start
-- on, a pointer to an entry is a number, 0 for NULL. `promoted` is the 32-bit word that a char counts
-- for in arithmetic, which C leaves to the compiler, and `value` orders the chars.
pub mod Probe
pub mod Add
pub mod Index
pub mod Key
mod Tests
use mehrad.Base.{
  ℕ, zero, suc, ◌+◌, ◌-◌, ◌*◌, ◌%◌, ◌^◌, Bool, true, false, not, ◌&&◌, ◌||◌, List, [], ◌∷◌, Option,
  none, some, Outcome, ret, panic, ◌>>=◌, ◌>>◌, assert, fetch, Block, ltb, ◌==◌, if◌then◌else◌,
  get_elem?, set, replicate, tabulate,
}
use mehrad.Base.Int.{ℤ, pos, negsuc}
use mehrad.Text.{strlen, strcmp, strcpy}

-- What a cell of the table points to: NULL, the dummy `ht->deleted`, or a `struct hashentry` with its
-- key, which may be NULL, and its pointer.
pub data Slot : Type 0 where
  empty deleted : Slot
  taken : Option (List ℕ) → ℕ → Slot

-- `struct hashtable`, and what its dummy entry happens to hold.
pub record Hashtable : Type 0 where
  pub size : ℕ
  pub name : List ℕ
  pub table : List Slot
  pub deleted_key : List ℕ

abbrev pub word : ℕ
word = 2 ^ 32

-- `p = kmalloc(strlen(s)+1); if (p != NULL) strcpy(p, s);`
unfoldable pub copy_text : Block ℕ → List ℕ → Outcome (Option (List ℕ))
copy_text mem s = do
  n ← strlen s
  elim mem [
    | none ↦ ret none
    | some junk ↦ strcpy (tabulate 0 (n + 1) junk) s >>= λ copy. ret (some copy)
  ]

-- `mem` and `granted_table`: the second and the third kmalloc. The dummy is what the first one held.
unfoldable pub ht_create :
    Option (List ℕ) → Block ℕ → Bool → ℕ → List ℕ → Outcome (Option Hashtable)
ht_create none mem granted_table size name = ret none
ht_create (some deleted_key) mem granted_table size name = do
  copied ← copy_text mem name
  elim copied [
    | none ↦ ret none
    | some copy ↦ ret (
        if granted_table
        then some (record {
          size = size;
          name = copy;
          table = replicate size empty;
          deleted_key = deleted_key;
        })
        else none)
  ]

-- The loop of hashfunction.
unfoldable pub hash_from : (ℕ → ℕ) → List ℕ → ℕ → Outcome ℕ
hash_from promoted [] hash = panic
hash_from promoted (c ∷ key) hash =
    let rest = hash_from promoted key ((hash * 101 + promoted c) % word) in
    if c == 0 then ret hash else rest

unfoldable pub hashfunction : (ℕ → ℕ) → List ℕ → Outcome ℕ
hashfunction promoted key = hash_from promoted key 101

abbrev pub is_free : Slot → Bool
is_free empty = true
is_free deleted = true
is_free (taken k p) = false

abbrev pub is_null : Slot → Bool
is_null empty = true
is_null deleted = false
is_null (taken k p) = false

-- The loop of ht_add_element, with `n` offsets to go before `size`.
unfoldable pub find_slot : List Slot → ℕ → ℕ → ℕ → ℕ → Outcome ℕ
find_slot table size index zero offset = do
  s ← fetch (get_elem? table ((index + offset) % word % size))
  ret offset
find_slot table size index (suc n) offset = do
  let next = find_slot table size index n (offset + 1)
  s ← fetch (get_elem? table ((index + offset) % word % size))
  (if is_free s then ret offset else next)

-- ht_add_element from the first kmalloc on; `mem` is what its `entry` field holds at first.
unfoldable pub fill_slot :
    Option ℕ → Block ℕ → Hashtable → List ℕ → ℕ → ℕ → Outcome (Option ℕ × Hashtable)
fill_slot none key_mem ht key ptr index = ret (none, record ht { table = set ht.table index empty })
fill_slot (some junk) key_mem ht key ptr index = do
  copied ← copy_text key_mem key
  elim copied [
    | none ↦ ret (none, record ht { table = set ht.table index (taken none junk) })
    | some copy ↦ ret (some index, record ht { table = set ht.table index (taken (some copy) ptr) })
  ]

-- `none`: -1. A remainder by 0 is a trap.
unfoldable pub ht_add_element :
    (ℕ → ℕ) → Option ℕ → Block ℕ → Hashtable → List ℕ → ℕ → Outcome (Option ℕ × Hashtable)
ht_add_element promoted mem key_mem ht key ptr = do
  assert (not (ptr == 0))
  hash ← hashfunction promoted key
  assert (ltb 0 ht.size)
  let index = hash % ht.size
  offset ← find_slot ht.table ht.size index ht.size 0
  (if offset == ht.size
      then ret (none, ht)
      else fill_slot mem key_mem ht key ptr ((index + offset) % word % ht.size))

-- An access to the table at an int, written as its 32-bit pattern.
abbrev pub slot_at_int : List Slot → ℕ → Outcome Slot
slot_at_int table x = if ltb x (2 ^ 31) then fetch (get_elem? table x) else panic

-- The pattern of the C remainder of an int by `size`.
abbrev pub int_remainder : ℕ → ℕ → ℕ
int_remainder x size = if ltb x (2 ^ 31) then x % size else (word - (word - x) % size) % word

-- What the deletions do to the entry at an index of the table, and which pointer they free. To free
-- the dummy, which kmalloc did not hand out, is a panic.
unfoldable pub drop_slot : Hashtable → ℕ → Bool → Slot → Outcome (Bool × Option ℕ × Hashtable)
drop_slot ht index destroy empty = panic
drop_slot ht index destroy deleted = panic
drop_slot ht index destroy (taken key ptr) =
    ret (true, if destroy then some ptr else none, record ht { table = set ht.table index deleted })

-- `false`: -1.
unfoldable pub ht_delete_element_by_index :
    Hashtable → ℤ → Bool → Outcome (Bool × Option ℕ × Hashtable)
ht_delete_element_by_index ht (negsuc i) destroy = panic
ht_delete_element_by_index ht (pos i) destroy = do
  assert (ltb i ht.size && ltb 0 i)
  s ← fetch (get_elem? ht.table i)
  (if is_free s then ret (false, none, ht) else drop_slot ht i destroy s)

unfoldable pub ht_retrieve_element_by_index : Hashtable → ℤ → Outcome (Option ℕ)
ht_retrieve_element_by_index ht (negsuc i) = panic
ht_retrieve_element_by_index ht (pos i) = do
  s ← fetch (get_elem? ht.table i)
  elim s [ empty ↦ ret none | deleted ↦ ret none | taken key ptr ↦ ret (some ptr) ]

-- Whether the search by key stops at a slot: `table[i] == NULL || strcmp(table[i]->key, key) == 0`.
unfoldable pub stops_at : (ℕ → ℕ) → Hashtable → List ℕ → Slot → Outcome Bool
stops_at value ht key empty = ret true
stops_at value ht key deleted = do
  c ← strcmp value ht.deleted_key key
  elim c [ pos n ↦ ret (n == 0) | negsuc n ↦ ret false ]
stops_at value ht key (taken none ptr) = panic
stops_at value ht key (taken (some k) ptr) = do
  c ← strcmp value k key
  elim c [ pos n ↦ ret (n == 0) | negsuc n ↦ ret false ]

-- The loop of the search by key, with `n` offsets to go before `size`.
unfoldable pub find_key : (ℕ → ℕ) → Hashtable → List ℕ → ℕ → ℕ → ℕ → Outcome ℕ
find_key value ht key index zero offset = do
  s ← slot_at_int ht.table (int_remainder ((index + offset) % word) ht.size)
  stop ← stops_at value ht key s
  ret offset
find_key value ht key index (suc n) offset = do
  let next = find_key value ht key index n (offset + 1)
  s ← slot_at_int ht.table (int_remainder ((index + offset) % word) ht.size)
  stop ← stops_at value ht key s
  (if stop then ret offset else next)

-- The search, up to the access at `index + offset`: the place and what stands there; `none` if the
-- key is not in the table. A panic stands for an access outside the table, and for strcmp at a NULL key
-- or one without an end, which C leaves undefined alike.
unfoldable pub locate : (ℕ → ℕ) → (ℕ → ℕ) → Hashtable → List ℕ → Outcome (Option (ℕ × Slot))
locate promoted value ht key = do
  index ← hashfunction promoted key
  assert (ltb 0 ht.size)
  offset ← find_key value ht key index ht.size 0
  s ← slot_at_int ht.table (int_remainder ((index + offset) % word) ht.size)
  let access : Outcome (Option (ℕ × Slot)) = slot_at_int ht.table ((index + offset) % word) >>= λ t.
      ret (some ((index + offset) % word, t))
  let absent = offset == ht.size || is_null s
  (if absent then ret none else access)

unfoldable pub ht_delete_element_by_key :
    (ℕ → ℕ) → (ℕ → ℕ) → Hashtable → List ℕ → Bool → Outcome (Bool × Option ℕ × Hashtable)
ht_delete_element_by_key promoted value ht key destroy = do
  found ← locate promoted value ht key
  elim found [ none ↦ ret (false, none, ht) | some (index, s) ↦ drop_slot ht index destroy s ]

-- `dummy_entry`: the pointer of the dummy entry.
unfoldable pub ht_retrieve_element_by_key :
    (ℕ → ℕ) → (ℕ → ℕ) → ℕ → Hashtable → List ℕ → Outcome (Option ℕ)
ht_retrieve_element_by_key promoted value dummy_entry ht key = do
  found ← locate promoted value ht key
  elim found [
    | none ↦ ret none
    | some (index, empty) ↦ panic
    | some (index, deleted) ↦ ret (some dummy_entry)
    | some (index, taken k ptr) ↦ ret (some ptr)
  ]
