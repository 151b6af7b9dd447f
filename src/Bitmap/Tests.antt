-- ===== src/Bitmap/Tests.antt =====
-- Runs of kern/lib/bitmap.c, and the theorems at concrete inputs.
use mehrad.Base.{
  ℕ, ◌<◌, ◌≡◌, ap, sym, ◌∙◌, subst, Outcome, refl, true, false, [], ◌∷◌, Option, some, none, arith,
  ret, panic,
}
use mehrad.Bitmap.{
  Bitmap, bitmap_create, bitmap_alloc, bitmap_isset, alloc_from, find_bit, test_bit, set_bit,
  mark_rest,
}
use mehrad.Bitmap.Usage.{used, IsValid, bitmap_isset_lem}
use mehrad.Bitmap.Alloc.{Allocates, bitmap_alloc_lem}
use mehrad.Bitmap.Create.{bitmap_create_lem}

-- Ten bits: two bytes, the second with its upper six marked.
abbrev ten : Bitmap
ten = record { nbits = 10; v = 0 ∷ 0xfc ∷ [] }

create_ten : bitmap_create true true 10 ≡ ret (some ten)
unfolding bitmap_create mark_rest set_bit
create_ten = refl

alloc_ninth :
    bitmap_alloc (record { nbits = 10; v = 0xff ∷ 0xfc ∷ [] })
    ≡ ret (some 8, record { nbits = 10; v = 0xff ∷ 0xfd ∷ [] })
unfolding bitmap_alloc alloc_from find_bit test_bit set_bit
alloc_ninth = refl

bitmap_create_lem_example :
    (b : Bitmap) × (bitmap_create true true 10 ≡ ret (some b))
    × IsValid b
    × (b.nbits ≡ 10)
    × ((i : ℕ) → i < 10 → used b.v i ≡ false)
bitmap_create_lem_example = bitmap_create_lem 10 (omega arith)

created : Outcome (Option Bitmap) → Bitmap → Bitmap
created (ret (some b)) d = b
created (ret none) d = d
created panic d = d

ten-IsValid : IsValid ten
unfolding created
ten-IsValid =
    let (b, e, ok, n, c) = bitmap_create_lem 10 (omega arith) in
    let q : b ≡ ten = ap (λ o. created o ten) (sym e ∙ create_ten) in subst IsValid q ok

bitmap_alloc_lem_example : (r : Option ℕ × Bitmap) × (bitmap_alloc ten ≡ ret r) × Allocates ten r
bitmap_alloc_lem_example = bitmap_alloc_lem ten ten-IsValid

bitmap_isset_lem_example : bitmap_isset ten 9 ≡ ret (used ten.v 9)
bitmap_isset_lem_example = bitmap_isset_lem ten 9 ten-IsValid (omega arith)
