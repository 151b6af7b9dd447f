-- ===== src/Memory/Tests.antt =====
-- Runs of memmove, and its theorem at a concrete input.
use mehrad.Base.{ℕ, ◌≡◌, refl, List, [], ◌∷◌, ret, arith}
use mehrad.Memory.{memmove, copy_backward}
use mehrad.Memory.Copy.{memmove_lem}

abbrev five : List ℕ
five = 1 ∷ 2 ∷ 3 ∷ 4 ∷ 5 ∷ []

move_up : memmove five 1 0 4 ≡ ret (1 ∷ 1 ∷ 2 ∷ 3 ∷ 4 ∷ [])
unfolding memmove copy_backward
move_up = refl

memmove_lem_example : memmove five 0 1 4 ≡ ret (2 ∷ 3 ∷ 4 ∷ 5 ∷ 5 ∷ [])
memmove_lem_example = memmove_lem five 0 1 4 (omega arith) (omega arith)
