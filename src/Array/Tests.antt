-- ===== src/Array/Tests.antt =====
-- Runs of kern/lib/array.c, and the theorems at concrete inputs.
use mehrad.Base.{
  ℕ, ◌≤◌, ◌*◌, ◌≡◌, refl, [], ◌∷◌, some, none, arith, ret, panic, ◌⊎◌, get_elem?, Block, success,
  enomem,
}
use mehrad.Base.Int.{pos, negsuc}
use mehrad.Array.{
  Array, grow_max, array_add, array_getguy, array_setguy, array_remove, copy_guys,
  array_preallocate, array_setsize,
}
use mehrad.Array.Invariant.{IsValid, contents, grow_max_lem, array_preallocate_lem}
use mehrad.Array.Contents.{
  array_add_lem, array_getguy_lem, array_setguy_lem, array_remove_lem, array_out_of_range,
}

-- Three pointers in a block of three.
abbrev full : Array ℕ
full = record { num = 3; max = 3; v = some (10 ∷ 20 ∷ 30 ∷ []) }

full-IsValid : IsValid full
full-IsValid = omega arith

abbrev junk : ℕ → ℕ
junk i = 7

abbrev no_memory : Block ℕ
no_memory = none

add_grows :
    array_add (some junk) full 40
    ≡ ret (success, record { num = 4; max = 8; v = some (10 ∷ 20 ∷ 30 ∷ 40 ∷ 7 ∷ 7 ∷ 7 ∷ 7 ∷ []) })
unfolding array_add array_setsize array_preallocate grow_max copy_guys
add_grows = refl

grow_max_lem_example :
    (n : ℕ) × (grow_max 4 4 3 ≡ ret n) × (4 ≤ n) × (3 ≤ n) × ((n ≡ 3) ⊎ (n ≤ 2 * 4))
grow_max_lem_example = grow_max_lem 4 4 3 (omega arith) (omega arith)

array_preallocate_lem_example :
    (a' : Array ℕ) × (array_preallocate (some junk) full 9 ≡ ret (success, a'))
    × IsValid a'
    × (contents a' ≡ contents full)
    × (a'.num ≡ 3)
    × (9 ≤ a'.max)
array_preallocate_lem_example =
    array_preallocate_lem full full-IsValid junk 9 (omega arith) (omega arith)

array_add_lem_example :
    ((a' : Array ℕ) × (array_add no_memory full 40 ≡ ret (success, a'))
      × IsValid a'
      × (contents a' ≡ 10 ∷ 20 ∷ 30 ∷ 40 ∷ []))
    ⊎ ((array_add no_memory full 40 ≡ ret (enomem, full)) × (no_memory ≡ none) × (◌≡◌ {A = ℕ} 3 3))
array_add_lem_example = array_add_lem no_memory full 40 full-IsValid (omega arith)

array_getguy_lem_example :
    (x : ℕ) × (array_getguy full (pos 1) ≡ ret x) × (get_elem? (10 ∷ 20 ∷ 30 ∷ []) 1 ≡ some x)
array_getguy_lem_example = array_getguy_lem full 1 full-IsValid (omega arith)

array_setguy_lem_example :
    (a' : Array ℕ) × (array_setguy full (pos 1) 99 ≡ ret a')
    × IsValid a'
    × (contents a' ≡ 10 ∷ 99 ∷ 30 ∷ [])
array_setguy_lem_example = array_setguy_lem full 1 99 full-IsValid (omega arith)

array_remove_lem_example :
    (a' : Array ℕ) × (array_remove full (pos 0) ≡ ret a')
    × IsValid a'
    × (contents a' ≡ 20 ∷ 30 ∷ [])
array_remove_lem_example = array_remove_lem full 0 full-IsValid (omega arith)

array_out_of_range_example :
    (array_getguy full (negsuc 0) ≡ panic)
    × (array_setguy full (negsuc 0) 5 ≡ panic)
    × (array_remove full (negsuc 0) ≡ panic)
array_out_of_range_example = array_out_of_range full (negsuc 0) 5 (λ i e. cc)
