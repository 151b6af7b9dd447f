-- ===== src/Bitmap/Bits.antt =====
-- The bit operations of kern/lib/bitmap.c on one byte, by checking every byte.
use mehrad.Base.{
  ℕ, zero, suc, ◌<◌, ◌≡◌, refl, Bool, true, false, ◌&&◌, ◌==◌, if◌then◌else◌, arith, ltb, Option,
  none, some, ◌≢◌, not, ◌||◌,
}
use mehrad.Bitmap.{test_bit, set_bit, clear_bit, find_bit}

all_below : ℕ → (ℕ → Bool) → Bool
all_below zero p = true
all_below (suc n) p = p n && all_below n p

all_below_lem : (n : ℕ) (p : ℕ → Bool) (x : ℕ) → all_below n p ≡ true → x < n → p x ≡ true
unfolding all_below
all_below_lem zero p x h lt = absurd (omega arith)
all_below_lem (suc n) p x h lt = ground (arith, all_below_lem n p x)

same : Bool → Bool → Bool
same true b = b
same false b = not b

same→eq : (a b : Bool) → same a b ≡ true → a ≡ b
unfolding same
same→eq true b h = ground arith
same→eq false b h = ground arith

-- A statement about every byte and two offsets in it, checked by evaluation.
over_bytes : (ℕ → ℕ → ℕ → Bool) → Bool
over_bytes p = all_below 256 (λ w. all_below 8 (λ o. all_below 8 (λ o'. p w o o')))

over_bytes_lem :
    (p : ℕ → ℕ → ℕ → Bool) (w o o' : ℕ)
    → over_bytes p ≡ true
    → w < 256
    → o < 8
    → o' < 8
    → p w o o' ≡ true
unfolding over_bytes
over_bytes_lem p w o o' h hw ho ho' =
    all_below_lem 8 _ o' (all_below_lem 8 _ o (all_below_lem 256 _ w h hw) ho) ho'

set_table :
    over_bytes (λ w o o'. same (test_bit (set_bit w o) o') (o == o' || test_bit w o')) ≡ true
unfolding over_bytes all_below same test_bit set_bit
set_table = refl

clear_table :
    over_bytes (λ w o o'. same (test_bit (clear_bit w o) o') (not (o == o') && test_bit w o'))
    ≡ true
unfolding over_bytes all_below same test_bit clear_bit
clear_table = refl

range_table : over_bytes (λ w o o'. ltb (set_bit w o) 256 && ltb (clear_bit w o) 256) ≡ true
unfolding over_bytes all_below set_bit clear_bit
range_table = refl

pub test_bit-set_bit :
    (w o o' : ℕ) → w < 256 → o < 8 → o' < 8 → test_bit (set_bit w o) o' ≡ (o == o' || test_bit w o')
test_bit-set_bit w o o' hw ho ho' = same→eq _ _ (over_bytes_lem _ w o o' set_table hw ho ho')

pub test_bit-clear_bit :
    (w o o' : ℕ)
    → w < 256
    → o < 8
    → o' < 8
    → test_bit (clear_bit w o) o' ≡ (not (o == o') && test_bit w o')
test_bit-clear_bit w o o' hw ho ho' = same→eq _ _ (over_bytes_lem _ w o o' clear_table hw ho ho')

pub byte_range : (w o : ℕ) → w < 256 → o < 8 → (set_bit w o < 256) × (clear_bit w o < 256)
byte_range w o hw ho =
    let h = over_bytes_lem _ w o 0 range_table hw ho (omega arith) in ground (arith, h)

-- A byte with all bits set is 0xff; every other has a clear bit.
is_some : Option ℕ → Bool
is_some none = false
is_some (some x) = true

full_table :
    all_below 256
      (λ w. if w == 255 then all_below 8 (λ o. test_bit w o) else is_some (find_bit w 0 8))
    ≡ true
unfolding all_below test_bit find_bit is_some
full_table = refl

pub test_bit-full : (o : ℕ) → o < 8 → test_bit 255 o ≡ true
test_bit-full o h =
    all_below_lem 8 (λ o. test_bit 255 o) o (all_below_lem 256 _ 255 full_table (omega arith)) h

pub find_bit-ne-none : (w : ℕ) → w < 256 → (w == 255) ≡ false → find_bit w 0 8 ≢ none
unfolding is_some
find_bit-ne-none w h ne e = ground (arith, all_below_lem 256 _ w full_table h)

zero_table : all_below 8 (λ o. not (test_bit 0 o)) ≡ true
unfolding all_below test_bit
zero_table = refl

pub test_bit-zero : (o : ℕ) → o < 8 → test_bit 0 o ≡ false
test_bit-zero o h = ground (arith, all_below_lem 8 _ o zero_table h)
