-- ===== src/Bitmap.antt =====
-- kern/lib/bitmap.c: bitmaps in bytes. Numbers are u_int32_t; `granted` says which kmallocs succeed.
pub mod Bits
pub mod Usage
pub mod Alloc
pub mod Create
mod Tests
use Prim.Native.Nat.{bit_and, bit_or}
use mehrad.Base.{
  ℕ, zero, suc, ◌+◌, ◌-◌, ◌*◌, ◌/◌, ◌%◌, ◌^◌, Bool, true, false, not, ◌&&◌, List, Option, none,
  some, Outcome, ret, panic, ◌>>=◌, ◌>>◌, assert, fetch, ltb, ◌==◌, if◌then◌else◌, get_elem?, set,
  length, replicate,
}

abbrev pub bits_per_word : ℕ
bits_per_word = 8

abbrev pub word_allbits : ℕ
word_allbits = 0xff

-- `struct bitmap`
pub record Bitmap : Type 0 where
  pub nbits : ℕ
  pub v : List ℕ

-- DIVROUNDUP(a, BITS_PER_WORD), in 32 bits.
abbrev pub div_round_up : ℕ → ℕ
div_round_up a = (a + bits_per_word - 1) % 2 ^ 32 / bits_per_word

-- `word & mask`, as a test, `word | mask` and `word & ~mask`, for `mask = (WORD_TYPE)1 << offset`.
abbrev pub mask : ℕ → ℕ
mask offset = 2 ^ offset

unfoldable pub test_bit : ℕ → ℕ → Bool
test_bit word offset = not (bit_and word (mask offset) == 0)

unfoldable pub set_bit : ℕ → ℕ → ℕ
set_bit word offset = bit_or word (mask offset)

unfoldable pub clear_bit : ℕ → ℕ → ℕ
clear_bit word offset = bit_and word (word_allbits - mask offset)

-- `for (j=overbits; j<BITS_PER_WORD; j++) b->v[ix] |= ((WORD_TYPE)1 << j);`
unfoldable pub mark_rest : List ℕ → ℕ → ℕ → ℕ → Outcome (List ℕ)
mark_rest v ix j zero = ret v
mark_rest v ix j (suc n) = do
  w ← fetch (get_elem? v ix)
  mark_rest (set v ix (set_bit w j)) ix (suc j) n

unfoldable pub bitmap_create : Bool → Bool → ℕ → Outcome (Option Bitmap)
bitmap_create false granted_v nbits = ret none
bitmap_create true false nbits = ret none
bitmap_create true true nbits = do
  let words = div_round_up nbits
  let v = replicate words 0
  let ix = words - 1
  let overbits = nbits - ix * bits_per_word
  (if ltb (nbits / bits_per_word) words
      then (do
        assert (nbits / bits_per_word == words - 1)
        assert (ltb 0 overbits && ltb overbits bits_per_word)
        v' ← mark_rest v ix overbits (bits_per_word - overbits)
        ret (some (record { nbits = nbits; v = v' })))
      else ret (some (record { nbits = nbits; v = v })))

unfoldable pub bitmap_getdata : Bitmap → List ℕ
bitmap_getdata b = b.v

-- The inner loop of bitmap_alloc: the first clear offset, with `n` offsets left to look at.
unfoldable pub find_bit : ℕ → ℕ → ℕ → Option ℕ
find_bit word offset zero = none
find_bit word offset (suc n) =
    if test_bit word offset then find_bit word (suc offset) n else some offset

-- The outer loop, with `n` words left. `none`: ENOSPC.
unfoldable pub alloc_from : Bitmap → ℕ → ℕ → Outcome (Option ℕ × Bitmap)
alloc_from b ix zero = ret (none, b)
alloc_from b ix (suc n) = do
  w ← fetch (get_elem? b.v ix)
  let next = alloc_from b (suc ix) n
  let take_bit : Outcome (Option ℕ × Bitmap) = elim (find_bit w 0 bits_per_word) [
    | none ↦ panic
    | some offset ↦
        let index = ix * bits_per_word + offset in
        assert (ltb index b.nbits)
        >> ret (some index, record b { v = set b.v ix (set_bit w offset) })
  ]
  (if w == word_allbits then next else take_bit)

unfoldable pub bitmap_alloc : Bitmap → Outcome (Option ℕ × Bitmap)
bitmap_alloc b = alloc_from b 0 (div_round_up b.nbits)

-- bitmap_translate: the word and the offset of a bit.
abbrev pub bitmap_translate : ℕ → ℕ × ℕ
bitmap_translate bitno = (bitno / bits_per_word, bitno % bits_per_word)

unfoldable pub bitmap_mark : Bitmap → ℕ → Outcome Bitmap
bitmap_mark b index = do
  assert (ltb index b.nbits)
  let at = bitmap_translate index
  w ← fetch (get_elem? b.v at.0)
  assert (not (test_bit w at.1))
  ret (record b { v = set b.v at.0 (set_bit w at.1) })

unfoldable pub bitmap_unmark : Bitmap → ℕ → Outcome Bitmap
bitmap_unmark b index = do
  assert (ltb index b.nbits)
  let at = bitmap_translate index
  w ← fetch (get_elem? b.v at.0)
  assert (test_bit w at.1)
  ret (record b { v = set b.v at.0 (clear_bit w at.1) })

unfoldable pub bitmap_isset : Bitmap → ℕ → Outcome Bool
bitmap_isset b index = do
  let at = bitmap_translate index
  w ← fetch (get_elem? b.v at.0)
  ret (test_bit w at.1)
