-- ===== src/Synch/Tests.antt =====
-- The theorems about kern/thread/synch.c at concrete inputs.
use mehrad.Base.{
  ℕ, ◌+◌, ◌^◌, ◌≡◌, ◌≢◌, ◌↔◌, refl, Bool, true, false, Option, none, some, List, [], ◌∷◌, ret,
  panic, Block, ◌==◌, if◌then◌else◌, arith, ◌⊎◌, length,
}
use mehrad.Queue.{Queue}
use mehrad.Queue.Ring.{Holds}
use mehrad.Threads.{Threads, is_on}
use mehrad.Synch.{
  SemState, LockState, p_pass, p_enter, v, acquire_pass, cv_wait, cv_signal, cv_broadcast,
}
use mehrad.Synch.Lock as LockSteps
use mehrad.Synch.Lock.{Place, outside, holding, mutual_exclusion}
use mehrad.Synch.Semaphore as SemSteps
use mehrad.Synch.Semaphore.{semaphore_counts}
use mehrad.Synch.Cv.{Woken, cv_wait_lem, cv_signal_lem, cv_broadcast_lem}

-- Threads by what each sleeps on.
abbrev table : Threads
table = record {
  S = ℕ → Option ℕ;
  asleep_on = λ s t. s t;
  thread_sleep = λ s t a u. if u == t then some a else s u;
  thread_wakeup = λ s a u. if is_on (s u) a then none else s u;
  sleeps = λ s t a u. refl;
  wakes = λ s a u. refl;
}

abbrev all_awake : ℕ → Option ℕ
all_awake t = none

-- Thread 1 takes the lock at address 100.
abbrev at_start : LockSteps.World table 100
at_start = record { state = record { busy = 0; threads = all_awake }; place = λ t. outside }

at_start-IsStart : LockSteps.IsStart table 100 at_start
at_start-IsStart = record { free = refl; away = λ t. refl; awake = λ t e. cc }

-- A thread does a pass of lock_acquire.
abbrev passed : ℕ → LockSteps.World table 100 → LockSteps.World table 100
passed t w = LockSteps.after_pass table 100 t w.place (acquire_pass table 100 t w.state)

-- Thread 1 gets it, and thread 2 goes to sleep.
abbrev two_tries : LockSteps.World table 100
two_tries = passed 2 (passed 1 at_start)

two_awake : LockSteps.asleep table 100 (passed 1 at_start) 2 ≡ none
unfolding acquire_pass
two_awake = refl

two_away : (passed 1 at_start).place 2 ≢ holding
unfolding acquire_pass
two_away = λ e. cc

two_steps : LockSteps.Reach table 100 at_start two_tries
two_steps =
    LockSteps.Reach.next
      (LockSteps.Reach.next LockSteps.Reach.here
        (LockSteps.Step.acquire at_start 1 (omega arith) refl))
      (LockSteps.Step.acquire (passed 1 at_start) 2 (omega arith) two_awake)

two-IsDisciplined : LockSteps.IsDisciplined table 100 two_steps
unfolding LockSteps.IsDisciplined two_steps
two-IsDisciplined = ((tt, λ e. cc), two_away)

mutual_exclusion_example :
    ((t u : ℕ) → two_tries.place t ≡ holding → two_tries.place u ≡ holding → t ≡ u)
    × ((t : ℕ)
        → LockSteps.asleep table 100 two_tries t ≡ some 100
        → (u : ℕ) × (two_tries.place u ≡ holding) × (u ≢ t))
mutual_exclusion_example = mutual_exclusion table 100 at_start-IsStart two_steps two-IsDisciplined

-- A semaphore at address 200 with a count of one, after a P and a V.
abbrev new_sem : SemSteps.World table 200
new_sem = record { state = record { count = 1; threads = all_awake }; downs = 0; ups = 0 }

abbrev down_up : SemSteps.World table 200
down_up = record {
  state = record { count = 1; threads = (table).thread_wakeup all_awake 200 };
  downs = 1;
  ups = 1;
}

new_sem-IsNew : SemSteps.IsNew table 200 1 new_sem
new_sem-IsNew = record {
  counted = refl;
  int = omega arith;
  none_down = refl;
  none_up = refl;
  awake = λ t e. cc;
}

goes_through :
    p_pass table 200 1 new_sem.state ≡ ret (true, record { count = 0; threads = all_awake })
unfolding p_pass
goes_through = refl

goes_up : v table 200 (record { count = 0; threads = all_awake }) ≡ ret down_up.state
unfolding v
goes_up = refl

abbrev downed : SemSteps.World table 200
downed = record { state = record { count = 0; threads = all_awake }; downs = 1; ups = 0 }

sem_steps : SemSteps.Reach table 200 new_sem down_up
sem_steps =
    SemSteps.Reach.next
      (SemSteps.Reach.next SemSteps.Reach.here
        (SemSteps.Step.down new_sem 1 true downed.state refl goes_through))
      (SemSteps.Step.up downed down_up.state goes_up)

semaphore_counts_example :
    (1 + 1 ≡ 1 + 1)
    × ((t : ℕ) → SemSteps.asleep table 200 down_up t ≡ some 200 → ◌≡◌ {A = ℕ} 1 0)
    × ((t : ℕ) → (r : Bool × SemState table) × (p_enter table false 200 t down_up.state ≡ ret r))
    × ((v table 200 down_up.state ≡ panic) ↔ (1 + 1 ≡ 2 ^ 31))
semaphore_counts_example = semaphore_counts table 200 1 new_sem-IsNew sem_steps

abbrev waiters : List ℕ
waiters = 8 ∷ 9 ∷ []

-- Threads 8 and 9 wait, round the end of the ring.
abbrev waiting : Queue ℕ
waiting = record { size = 3; nextwrite = 1; nextread = 2; cells = 9 ∷ 7 ∷ 8 ∷ [] }

waiting-Holds : Holds waiting (8 ∷ 9 ∷ [])
waiting-Holds = record {
  nonempty = omega arith;
  sized = refl;
  read_in = omega arith;
  write_in = omega arith;
  room = omega arith;
  run = (refl, (refl, (refl, tt)));
}

-- Each sleeps on its own address.
abbrev each_asleep : ℕ → Option ℕ
each_asleep t = if t == 8 then some 8 else if t == 9 then some 9 else none

cv_signal_lem_example :
    ((waiters ≡ []) × (cv_signal table (waiting, each_asleep) ≡ panic))
    ⊎ ((t : ℕ) × (r : List ℕ) × (q' : Queue ℕ) × (s' : ℕ → Option ℕ) × (waiters ≡ t ∷ r)
        × (cv_signal table (waiting, each_asleep) ≡ ret (q', s'))
        × Holds q' r
        × Woken table each_asleep (t ∷ []) s')
cv_signal_lem_example = cv_signal_lem table waiting (8 ∷ 9 ∷ []) each_asleep waiting-Holds

cv_broadcast_lem_example :
    (q' : Queue ℕ) × (s' : ℕ → Option ℕ) × (cv_broadcast table 2 (waiting, each_asleep)
      ≡ ret (q', s'))
    × Holds q' []
    × Woken table each_asleep (8 ∷ 9 ∷ []) s'
cv_broadcast_lem_example = cv_broadcast_lem table waiting (8 ∷ 9 ∷ []) each_asleep waiting-Holds

abbrev memory : Block ℕ
memory = some (λ i. 0)

abbrev held_lock : LockState table
held_lock = record { busy = 4; threads = each_asleep }

cv_wait_lem_example :
    (q' : Queue ℕ) × (s' : LockState table) × (cv_wait table 2 memory 100 4 (waiting, held_lock)
      ≡ ret (q', s'))
    × (Holds q' (8 ∷ 9 ∷ 4 ∷ []) ⊎ ((q' ≡ waiting) × (memory ≡ none) × (length waiters + 1 ≡ 3)))
    × (s'.busy ≡ 0)
    × (s'.threads 4 ≡ some 4)
    × ((u : ℕ) → u ≢ 4 → s'.threads u ≡ (if is_on (each_asleep u) 100 then none else each_asleep u))
cv_wait_lem_example =
    cv_wait_lem table memory 100 4 waiting (8 ∷ 9 ∷ []) held_lock waiting-Holds (omega arith)
