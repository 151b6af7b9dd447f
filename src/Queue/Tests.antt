-- ===== src/Queue/Tests.antt =====
-- Runs of kern/lib/queue.c, and the theorems at concrete inputs.
use mehrad.Base.{
  ℕ, ◌+◌, ◌≤◌, ◌<◌, ◌*◌, ◌≡◌, ◌↔◌, refl, List, [], ◌∷◌, some, none, arith, ret, ◌⊎◌, length, Block,
  success, enomem, true,
}
use mehrad.Queue.{
  Queue, double_size, q_create, q_empty, copy_ring, q_grow, q_addtail, q_remhead, get_head,
}
use mehrad.Queue.Ring.{Holds}
use mehrad.Queue.Fifo.{double_size_lem, q_addtail_lem, q_remhead-cons, q_empty_lem, q_create-Holds}

-- 8, then 9, round the end of a ring of three, which is full with them.
abbrev wrapped : Queue ℕ
wrapped = record { size = 3; nextwrite = 1; nextread = 2; cells = 9 ∷ 7 ∷ 8 ∷ [] }

wrapped-Holds : Holds wrapped (8 ∷ 9 ∷ [])
wrapped-Holds = record {
  nonempty = omega arith;
  sized = refl;
  read_in = omega arith;
  write_in = omega arith;
  room = omega arith;
  run = (refl, (refl, (refl, tt)));
}

abbrev held : List ℕ
held = 8 ∷ 9 ∷ []

abbrev junk : ℕ → ℕ
junk i = 0

abbrev no_memory : Block ℕ
no_memory = none

abbrev memory : Block ℕ
memory = some junk

addtail_grows :
    q_addtail 2 memory wrapped 4
    ≡ ret (
      success,
      record { size = 6; nextwrite = 3; nextread = 0; cells = 8 ∷ 9 ∷ 4 ∷ 0 ∷ 0 ∷ 0 ∷ [] },
    )
unfolding q_addtail q_grow copy_ring double_size
addtail_grows = refl

double_size_lem_example :
    (m : ℕ) × (double_size 4 3 4 ≡ ret m) × (4 ≤ m) × (3 ≤ m) × ((m ≡ 3) ⊎ (m < 2 * 4))
double_size_lem_example = double_size_lem 4 3 4 (omega arith) (omega arith) (omega arith)

q_addtail_lem_example :
    ((q' : Queue ℕ) × (q_addtail 2 memory wrapped 4 ≡ ret (success, q'))
      × Holds q' (8 ∷ 9 ∷ 4 ∷ []))
    ⊎ ((q_addtail 2 memory wrapped 4 ≡ ret (enomem, wrapped))
        × (memory ≡ none)
        × (length held + 1 ≡ 3))
q_addtail_lem_example = q_addtail_lem memory wrapped (8 ∷ 9 ∷ []) 4 wrapped-Holds (omega arith)

q_remhead-cons_example :
    (get_head wrapped ≡ ret 8)
    × ((q' : Queue ℕ) × (q_remhead wrapped ≡ ret (8, q')) × Holds q' (9 ∷ []) × (q'.size ≡ 3))
q_remhead-cons_example = q_remhead-cons wrapped 8 (9 ∷ []) wrapped-Holds

q_empty_lem_example : (q_empty wrapped ≡ true) ↔ (held ≡ [])
q_empty_lem_example = q_empty_lem wrapped (8 ∷ 9 ∷ []) wrapped-Holds

abbrev fresh : Queue ℕ
fresh = record { size = 2; nextwrite = 0; nextread = 0; cells = 0 ∷ 0 ∷ [] }

q_create-Holds_example : Holds fresh [] × (fresh.size ≡ 2)
unfolding q_create
q_create-Holds_example = q_create-Holds true memory 2 fresh (omega arith) (omega arith) refl
