-- ===== src/Scheduler.antt =====
-- kern/thread/scheduler.c: the round-robin run queue, over the queue of kern/lib/queue.c. `curspl` is
-- the interrupt level, `mem` the outcome of a kmalloc. A thread is any value.
pub mod Rounds
mod Tests
use mehrad.Base.{
  ℕ, zero, suc, Bool, true, false, List, [], ◌∷◌, Option, none, some, Outcome, ret, panic, ◌>>=◌,
  ◌>>◌, assert, Code, Block, ltb, if◌then◌else◌, ◌≡◌,
}
use mehrad.Queue.{Queue, q_create, q_preallocate, q_addtail, q_empty, q_remhead, q_destroy}

module _ {ℓ} {A : Type ℓ} where
  unfoldable pub scheduler_bootstrap : Bool → Block A → Outcome (Queue A)
  scheduler_bootstrap granted mem = elim (q_create granted mem 32) [ none ↦ panic | some q ↦ ret q ]

  unfoldable pub scheduler_preallocate : ℕ → Block A → Queue A → ℕ → Outcome (Code × Queue A)
  scheduler_preallocate curspl mem runqueue nthreads = do
    assert (ltb 0 curspl)
    q_preallocate 1 mem runqueue nthreads

  -- `while (!q_empty(runqueue)) q_remhead(runqueue);`, with the threads that it drops; the first
  -- argument bounds the rounds.
  unfoldable pub drop_threads : ℕ → Queue A → Outcome (List A × Queue A)
  drop_threads zero q = if q_empty q then ret ([], q) else panic
  drop_threads (suc rounds) q =
      let step = (do
        (t, q') ← q_remhead q
        (ts, q'') ← drop_threads rounds q'
        ret (t ∷ ts, q'')) in
      if q_empty q then ret ([], q) else step

  unfoldable pub scheduler_killall : ℕ → Queue A → Outcome (List A × Queue A)
  scheduler_killall curspl runqueue = do assert (ltb 0 curspl); drop_threads runqueue.size runqueue

  unfoldable pub scheduler_shutdown : ℕ → Queue A → Outcome (Unit {0})
  scheduler_shutdown curspl runqueue = do
    (ts, q) ← scheduler_killall curspl runqueue
    assert (ltb 0 curspl)
    q_destroy q

  unfoldable pub make_runnable : ℕ → Block A → Queue A → A → Outcome (Code × Queue A)
  make_runnable curspl mem runqueue t = do assert (ltb 0 curspl); q_addtail 2 mem runqueue t

  -- The threads that the interrupts taken in one cpu_idle() make runnable.
  unfoldable pub wake_all : ℕ → Block A → Queue A → List A → Outcome (Queue A)
  wake_all curspl mem q [] = ret q
  wake_all curspl mem q (t ∷ ts) = do
    (c, q') ← make_runnable curspl mem q t
    wake_all curspl mem q' ts

  -- The list says what each cpu_idle() brings. `none`: still idle when the list ends.
  unfoldable pub idle_loop : ℕ → Block A → List (List A) → Queue A → Outcome (Option (A × Queue A))
  idle_loop curspl mem [] q = if q_empty q then ret none else q_remhead q >>= λ r. ret (some r)
  idle_loop curspl mem (ts ∷ later) q =
      let idle = (do q' ← wake_all curspl mem q ts; idle_loop curspl mem later q') in
      if q_empty q then idle else q_remhead q >>= λ r. ret (some r)

  unfoldable pub scheduler : ℕ → Block A → List (List A) → Queue A → Outcome (Option (A × Queue A))
  scheduler curspl mem idles runqueue = do
    assert (ltb 0 curspl)
    idle_loop curspl mem idles runqueue
