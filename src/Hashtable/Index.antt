-- ===== src/Hashtable/Index.antt =====
-- The entries of kern/lib/hashtable.c by index, as the process table uses them.
use mehrad.Base.{
  ℕ, ◌+◌, ◌%◌, ◌<◌, ◌≡◌, ◌≢◌, refl, ap, ◌∙◌, sym, Bool, true, false, if◌then◌else◌, dec_le, ◌&&◌,
  subst, List, [], ◌∷◌, ◌++◌, Option, none, some, ret, panic, ltb, arith, ◌⊎◌, inl, inr, length,
  get_elem?, get_elem?-of_lt, ℕ_discrete, ◌-◌, set, get_elem?-set_self, get_elem?-set_ne,
  length-set,
}
use native.Mathlib.Nat.{mod-eq_of_lt}
use mehrad.Queue.Ring.{round-eq}
use mehrad.Base.Int.{pos}
use mehrad.Text.Strings.{IsText, terminated}
use mehrad.Hashtable.{
  Slot, empty, deleted, taken, Hashtable, drop_slot, ht_add_element, ht_delete_element_by_index,
  ht_retrieve_element_by_index,
}
use mehrad.Hashtable.Probe.{IsTable, FreeAt}
use mehrad.Hashtable.Add.{ht_add_element_lem}

-- Every index but `i` holds what it held.
abbrev pub KeepsOthers : Hashtable → ℕ → Hashtable → Type 0
KeepsOthers ht i ht' =
    (j : ℕ)
    → j ≢ i
    → ht_retrieve_element_by_index ht' (pos j) ≡ ht_retrieve_element_by_index ht (pos j)

abbrev with_slot : Hashtable → ℕ → Slot → Hashtable
with_slot ht i s = record ht { table = set ht.table i s }

others_kept : (ht : Hashtable) (i : ℕ) (s : Slot) → KeepsOthers ht i (with_slot ht i s)
unfolding ht_retrieve_element_by_index
others_kept ht i s j ne = rw (get_elem?-set_ne ht.table i j s (λ e. ne (sym e))) refl

retrieve-taken :
    (ht : Hashtable) (i ptr : ℕ) (k : Option (List ℕ))
    → i < length ht.table
    → ht_retrieve_element_by_index (with_slot ht i (taken k ptr)) (pos i) ≡ ret (some ptr)
unfolding ht_retrieve_element_by_index
retrieve-taken ht i ptr k h = rw (get_elem?-set_self ht.table i (taken k ptr) h) refl

retrieve-deleted :
    (ht : Hashtable) (i : ℕ)
    → i < length ht.table
    → ht_retrieve_element_by_index (with_slot ht i deleted) (pos i) ≡ ret none
unfolding ht_retrieve_element_by_index
retrieve-deleted ht i h = rw (get_elem?-set_self ht.table i deleted h) refl

-- Probing from `i` on comes to every slot.
offset_of :
    (size i free : ℕ) → i < size → free < size → (o : ℕ) × (o < size) × ((i + o) % size ≡ free)
offset_of size i free a b = elim (dec_le i free) [
  | yes le ↦
      let e : i + (free - i) ≡ free = omega arith in
      (free - i, omega arith, ap (λ (x : ℕ). x % size) e ∙ mod-eq_of_lt b)
  | no gt ↦
      let e : i + (free + size - i) ≡ free + size = omega arith in
      (free + size - i, omega arith, ap (λ (x : ℕ). x % size) e ∙ round-eq size free b)
]

not_both : (table : List Slot) (i : ℕ) → FreeAt table i true → FreeAt table i false → ⊥
not_both table i (s, e, y) (s', e', n) = cc

with_slot-IsTable : (ht : Hashtable) (i : ℕ) (s : Slot) → IsTable ht → IsTable (with_slot ht i s)
with_slot-IsTable ht i s v = record {
  sized = length-set ht.table i s ∙ v.sized;
  positive = v.positive;
  int = v.int;
}

-- In a table with a free slot, and with memory, ht_add_element returns an index that was free and at
-- which its pointer is found again, and all other indices hold what they held.
pub ht_retrieve-add :
    (promoted : ℕ → ℕ) (junk : ℕ) (junk_key : ℕ → ℕ) (ht : Hashtable) (t rest : List ℕ) (ptr : ℕ)
    → IsTable ht
    → IsText t
    → ptr ≢ 0
    → (free : ℕ) → free < ht.size
    → FreeAt ht.table free true
    → (i : ℕ) × (ht' : Hashtable) × (ht_add_element promoted
          (some junk)
          (some junk_key)
          ht
          (terminated t rest)
          ptr
        ≡ ret (some i, ht'))
      × (i < ht.size)
      × FreeAt ht.table i true
      × IsTable ht'
      × (ht_retrieve_element_by_index ht' (pos i) ≡ ret (some ptr))
      × KeepsOthers ht i ht'
ht_retrieve-add promoted junk junk_key ht t rest ptr v u nz free lt f =
    let (h, e, cases) =
      ht_add_element_lem promoted (some junk) (some junk_key) ht t rest ptr v u nz in
    let p = v.positive in
    let start : h % ht.size < ht.size = omega arith in
    elim cases [
      | inl (r, all) ↦
          let (o, b, q) = offset_of ht.size (h % ht.size) free start lt in
          absurd (not_both ht.table free f (subst (λ (x : ℕ). FreeAt ht.table x false) q (all o b)))
      | inr (o, first, r) ↦
          let i : ℕ = (h % ht.size + o) % ht.size in
          let s : Slot = taken (some (t ++ 0 ∷ [])) ptr in
          let b : i < ht.size = omega arith in
          let l = v.sized in
          (
            i,
            with_slot ht i s,
            r,
            b,
            first.free,
            with_slot-IsTable ht i s v,
            retrieve-taken ht i ptr (some (t ++ 0 ∷ [])) (omega arith),
            others_kept ht i s,
          )
    ]

delete_zero :
    (ht : Hashtable) (i : ℕ) (destroy : Bool)
    → i ≡ 0
    → ht_delete_element_by_index ht (pos i) destroy ≡ panic
unfolding ht_delete_element_by_index
delete_zero ht i destroy z = let n : (ltb i ht.size && ltb 0 i) ≡ false = ground arith in rw n refl

-- What ht_delete_element_by_index does where a slot is free, and where it is taken.
abbrev pub Deleted : Hashtable → ℕ → Bool → Type 0
Deleted ht i destroy =
    ((i ≢ 0)
      × FreeAt ht.table i true
      × (ht_delete_element_by_index ht (pos i) destroy ≡ ret (false, none, ht)))
    ⊎ ((i ≢ 0)
        × (k : Option (List ℕ)) × (ptr : ℕ) × (ht' : Hashtable) × (get_elem? ht.table i
            ≡ some (taken k ptr))
        × (ht_delete_element_by_index ht (pos i) destroy
            ≡ ret (true, (if destroy then some ptr else none), ht'))
        × IsTable ht'
        × (ht_retrieve_element_by_index ht' (pos i) ≡ ret none)
        × KeepsOthers ht i ht')

delete_slot :
    (ht : Hashtable) (i : ℕ) (destroy : Bool)
    → IsTable ht
    → i < ht.size
    → i ≢ 0
    → (s : Slot) → get_elem? ht.table i ≡ some s
    → Deleted ht i destroy
unfolding ht_delete_element_by_index drop_slot
delete_slot ht i destroy v h nz empty e =
    let t : (ltb i ht.size && ltb 0 i) ≡ true = ground arith in
    inl (nz, (empty, e, refl), rw t (rw e refl))
delete_slot ht i destroy v h nz deleted e =
    let t : (ltb i ht.size && ltb 0 i) ≡ true = ground arith in
    inl (nz, (deleted, e, refl), rw t (rw e refl))
delete_slot ht i destroy v h nz (taken k ptr) e =
    let t : (ltb i ht.size && ltb 0 i) ≡ true = ground arith in
    let l = v.sized in
    inr (
      nz,
      k,
      ptr,
      with_slot ht i deleted,
      e,
      rw t (rw e refl),
      with_slot-IsTable ht i deleted v,
      retrieve-deleted ht i (omega arith),
      others_kept ht i deleted,
    )

-- Deleting by an index that is in use and is not 0 frees the pointer if told to, leaves nothing to be
-- found there, and keeps the others; index 0 is a panic, and at a free slot nothing happens.
pub ht_delete_element_by_index_lem :
    (ht : Hashtable) (i : ℕ) (destroy : Bool)
    → IsTable ht
    → i < ht.size
    → ((i ≡ 0) × (ht_delete_element_by_index ht (pos i) destroy ≡ panic)) ⊎ Deleted ht i destroy
ht_delete_element_by_index_lem ht i destroy v h =
    let l = v.sized in
    let (s, e) = get_elem?-of_lt ht.table i (omega arith) in
    elim (ℕ_discrete i 0) [
      | yes z ↦ inl (z, delete_zero ht i destroy z)
      | no nz ↦ inr (delete_slot ht i destroy v h nz s e)
    ]
