-- ===== src/Scheduler/Tests.antt =====
-- Runs of kern/thread/scheduler.c, and the theorems at concrete inputs.
use mehrad.Base.{ℕ, ◌≡◌, refl, [], ◌∷◌, some, none, arith, ret, Block}
use mehrad.Queue.{Queue}
use mehrad.Queue.Ring.{Holds}
use mehrad.Scheduler.{scheduler}
use mehrad.Scheduler.Rounds.{dispatch, scheduler-cons, dispatch_in_order, scheduler_idle, silent}

-- Threads 5, 6 and 7 wait in a ring of four.
abbrev waiting : Queue ℕ
waiting = record { size = 4; nextwrite = 1; nextread = 2; cells = 7 ∷ 0 ∷ 5 ∷ 6 ∷ [] }

waiting-Holds : Holds waiting (5 ∷ 6 ∷ 7 ∷ [])
waiting-Holds = record {
  nonempty = omega arith;
  sized = refl;
  read_in = omega arith;
  write_in = omega arith;
  room = omega arith;
  run = (refl, (refl, (refl, (refl, tt))));
}

abbrev idle : Queue ℕ
idle = record { size = 2; nextwrite = 0; nextread = 0; cells = 0 ∷ 0 ∷ [] }

idle-Holds : Holds idle []
idle-Holds = record {
  nonempty = omega arith;
  sized = refl;
  read_in = omega arith;
  write_in = omega arith;
  room = omega arith;
  run = (refl, tt);
}

abbrev junk : ℕ → ℕ
junk i = 0

abbrev memory : Block ℕ
memory = some junk

scheduler-cons_example :
    (q' : Queue ℕ) × (scheduler 15 memory [] waiting ≡ ret (some (5, q')))
    × Holds q' (6 ∷ 7 ∷ [])
    × (q'.size ≡ 4)
scheduler-cons_example =
    scheduler-cons 15 memory [] waiting 5 (6 ∷ 7 ∷ []) (omega arith) waiting-Holds

dispatch_in_order_example :
    (q' : Queue ℕ) × (dispatch 2 15 memory waiting ≡ ret (5 ∷ 6 ∷ [], q')) × Holds q' (7 ∷ [])
dispatch_in_order_example =
    dispatch_in_order 15 memory (5 ∷ 6 ∷ []) (7 ∷ []) waiting (omega arith) waiting-Holds

-- Two rounds without a thread, and then thread 9.
scheduler_idle_example :
    (scheduler 15 memory (silent 2 []) idle ≡ ret none)
    × ((q' : Queue ℕ) × (scheduler 15 memory (silent 2 ((9 ∷ []) ∷ [])) idle ≡ ret (some (9, q')))
        × Holds q' [])
scheduler_idle_example =
    scheduler_idle 15 memory idle 2 9 [] [] (omega arith) idle-Holds (omega arith)
