-- ===== src/Array.antt =====
-- kern/lib/array.c: growable arrays of pointers. A pointer is any value; `v` is NULL or the block
-- that kmalloc returned. The outcome of a kmalloc is the argument `mem`. Sizes are not negative; the
-- index of getguy, setguy and remove is a C int, which the asserts check.
pub mod Invariant
pub mod Contents
mod Tests
use mehrad.Base.{
  ℕ, zero, suc, ◌+◌, ◌-◌, ◌*◌, ◌%◌, ◌/◌, ◌^◌, Bool, true, false, ◌&&◌, List, [], ◌∷◌, ◌++◌, Option,
  none, some, Outcome, ret, panic, ◌>>=◌, ◌>>◌, assert, fetch, Code, success, enomem, Block, ltb,
  leb, ◌==◌, if◌then◌else◌, get_elem?, set, take, drop, length, tabulate,
}
use mehrad.Base.Int.{ℤ, pos, negsuc}
use mehrad.Memory.{store, copy_forward, memmove}

-- `struct array`
pub record Array {ℓ} (A : Type ℓ) : Type ℓ where
  pub num : ℕ
  pub max : ℕ
  pub v : Option (List A)

-- `while (nguys > newmax) newmax = (newmax+1)*2;`. The first argument bounds the rounds. An int that
-- overflows is undefined in C, and a panic here, as running out of rounds is.
unfoldable pub grow_max : ℕ → ℕ → ℕ → Outcome ℕ
grow_max zero nguys newmax = if ltb newmax nguys then panic else ret newmax
grow_max (suc rounds) nguys newmax =
    let more =
      assert (ltb ((newmax + 1) * 2) (2 ^ 31)) >> grow_max rounds nguys ((newmax + 1) * 2) in
    if ltb newmax nguys then more else ret newmax

-- The cells of what `kmalloc(newmax * sizeof(void *))` asks for: the product is a word of 32 bits.
abbrev pub block_cells : ℕ → ℕ
block_cells n = (n * 4) % 2 ^ 32 / 4

-- `index >= 0 && index < a->num`
abbrev pub in_range : ℤ → ℕ → Bool
in_range (pos i) n = ltb i n
in_range (negsuc i) n = false

abbrev pub to_index : ℤ → ℕ
to_index (pos i) = i
to_index (negsuc i) = 0

module _ {ℓ} {A : Type ℓ} where
  unfoldable pub array_create : Bool → Option (Array A)
  array_create granted = if granted then some (record { num = 0; max = 0; v = none }) else none

  unfoldable pub array_getnum : Array A → ℕ
  array_getnum a = a.num

  -- A cell of a block, a panic if there is no block or no such cell.
  abbrev pub cell : Option (List A) → ℕ → Outcome A
  cell none i = panic
  cell (some b) i = fetch (get_elem? b i)

  abbrev pub write_cell : Option (List A) → ℕ → A → Outcome (Option (List A))
  write_cell none i p = panic
  write_cell (some b) i p = do b' ← store b i p; ret (some b')

  unfoldable pub array_getguy : Array A → ℤ → Outcome A
  array_getguy a index = do
    assert (leb a.num a.max)
    assert (in_range index a.num)
    cell a.v (to_index index)

  -- `for (i=0; i<a->num; i++) newv[i] = a->v[i];`, with `n` rounds left at index `i`.
  unfoldable pub copy_guys : Option (List A) → List A → ℕ → ℕ → Outcome (List A)
  copy_guys old new i zero = ret new
  copy_guys old new i (suc n) = do
    p ← cell old i
    new' ← store new i p
    copy_guys old new' (suc i) n

  unfoldable pub array_preallocate : Block A → Array A → ℕ → Outcome (Code × Array A)
  array_preallocate mem a nguys = do
    assert (leb a.num a.max)
    newmax ← grow_max nguys nguys a.max
    elim mem [
      | none ↦ ret (enomem, a)
      | some junk ↦ copy_guys a.v (tabulate 0 (block_cells newmax) junk) 0 a.num >>= λ newv.
          ret (success, record a { max = newmax; v = some newv })
    ]

  -- `assert(a->v!=NULL); kfree(a->v); a->v = NULL; a->max = 0;`
  abbrev pub release : Array A → Outcome (Array A)
  release a = elim a.v [ none ↦ panic | some b ↦ ret (record a { max = 0; v = none }) ]

  abbrev pub resized : ℕ → Code × Array A → Code × Array A
  resized nguys (success, a) = (success, record a { num = nguys })
  resized nguys (c, a) = (c, a)

  unfoldable pub array_setsize : Block A → Array A → ℕ → Outcome (Code × Array A)
  array_setsize mem a nguys = do
    assert (leb a.num a.max)
    (if ltb a.max nguys
        then array_preallocate mem a nguys >>= (λ r. ret (resized nguys r))
        else if nguys == 0 && ltb 16 a.max
        then release a >>= (λ a'. ret (success, record a' { num = nguys }))
        else ret (success, record a { num = nguys }))

  unfoldable pub array_setguy : Array A → ℤ → A → Outcome (Array A)
  array_setguy a index p = do
    assert (leb a.num a.max)
    assert (in_range index a.num)
    v' ← write_cell a.v (to_index index) p
    ret (record a { v = v' })

  abbrev pub add_at : ℕ → A → Code × Array A → Outcome (Code × Array A)
  add_at ix p (success, a) = do v' ← write_cell a.v ix p; ret (success, record a { v = v' })
  add_at ix p (c, a) = ret (c, a)

  unfoldable pub array_add : Block A → Array A → A → Outcome (Code × Array A)
  array_add mem a p = do let ix = a.num; r ← array_setsize mem a (ix + 1); add_at ix p r

  -- `memmove(a->v+index, a->v+index+1, nmove*sizeof(void *))` on the block of pointers.
  abbrev pub close_gap : Option (List A) → ℕ → ℕ → Outcome (Option (List A))
  close_gap none i nmove = panic
  close_gap (some b) i nmove = do b' ← memmove b i (i + 1) nmove; ret (some b')

  unfoldable pub array_remove : Array A → ℤ → Outcome (Array A)
  array_remove a index = do
    assert (leb a.num a.max)
    assert (in_range index a.num)
    let i = to_index index
    let nmove = a.num - (i + 1)
    v' ← close_gap a.v i nmove
    ret (record a { num = a.num - 1; v = v' })
