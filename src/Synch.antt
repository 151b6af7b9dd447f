-- ===== src/Synch.antt =====
-- kern/thread/synch.c: semaphores, locks and condition variables. Interrupts are off between splhigh
-- and splx, so each stretch of code up to a thread_sleep is one step, and what follows the sleep is
-- another. A pointer is a number, 0 for NULL.
pub mod Lock
pub mod Semaphore
pub mod Cv
mod Tests
use mehrad.Base.{
  ℕ, ◌+◌, ◌-◌, ◌%◌, ◌^◌, zero, suc, Bool, true, false, not, ◌&&◌, List, Option, none, some, Outcome,
  ret, panic, ◌>>=◌, ◌>>◌, assert, Code, success, Block, ltb, ◌==◌, if◌then◌else◌,
}
use mehrad.Base.Int.{ℤ, pos, negsuc}
use mehrad.Queue.{Queue, q_create, q_destroy, q_addtail, q_remhead, q_empty}
use mehrad.Threads.{Threads}

-- sem_create; `granted` and `named`: whether kmalloc and kstrdup succeed.
unfoldable pub sem_create : Bool → Bool → ℤ → Outcome (Option ℕ)
sem_create granted named (negsuc n) = panic
sem_create granted named (pos n) = ret (if granted && named then some n else none)

-- sem_destroy and lock_destroy, by what thread_hassleepers answers.
unfoldable pub sem_destroy : Bool → Outcome (Unit {0})
sem_destroy hassleepers = assert (not hassleepers)

unfoldable pub lock_create : Bool → Bool → Option ℕ
lock_create granted named = if granted && named then some 0 else none

unfoldable pub lock_destroy : Bool → Outcome (Unit {0})
lock_destroy hassleepers = assert (not hassleepers)

-- cv_create: the queue of a new condition variable.
unfoldable pub cv_create : Bool → Bool → Bool → Block ℕ → Option (Queue ℕ)
cv_create granted named granted_queue mem =
    if granted && named then q_create granted_queue mem 10 else none

unfoldable pub cv_destroy : Queue ℕ → Outcome (Unit {0})
cv_destroy slept_threads = q_destroy slept_threads

module _ (T : Threads) where
  open T use {S, asleep_on, thread_sleep, thread_wakeup}

  -- A semaphore, or the `busy` of a lock, with the threads.
  pub record SemState : Type 0 where
    pub count : ℕ
    pub threads : S

  pub record LockState : Type 0 where
    pub busy : ℕ
    pub threads : S

  -- One pass of the loop of P: whether it got through, or went to sleep.
  unfoldable pub p_pass : ℕ → ℕ → SemState → Outcome (Bool × SemState)
  p_pass sem curthread s =
      if s.count == 0
      then ret (false, record s { threads = thread_sleep s.threads curthread sem })
      else (do
        assert (ltb 0 s.count && ltb s.count (2 ^ 31))
        ret (true, record s { count = s.count - 1 }))

  unfoldable pub p_enter : Bool → ℕ → ℕ → SemState → Outcome (Bool × SemState)
  p_enter in_interrupt sem curthread s = do assert (not in_interrupt); p_pass sem curthread s

  unfoldable pub v : ℕ → SemState → Outcome SemState
  v sem s = do
    let count = (s.count + 1) % 2 ^ 32
    assert (ltb 0 count && ltb count (2 ^ 31))
    ret (record { count = count; threads = thread_wakeup s.threads sem })

  -- One pass of the loop of lock_acquire.
  unfoldable pub acquire_pass : ℕ → ℕ → LockState → Bool × LockState
  acquire_pass lock curthread s =
      if s.busy == 0
      then (true, record s { busy = curthread })
      else (false, record s { threads = thread_sleep s.threads curthread lock })

  unfoldable pub lock_release : ℕ → LockState → LockState
  lock_release lock s = record { busy = 0; threads = thread_wakeup s.threads lock }

  unfoldable pub lock_do_i_hold : ℕ → LockState → Bool
  lock_do_i_hold curthread s = s.busy == curthread

  -- cv_wait up to its sleep; the lock_acquire that follows is a sequence of passes. What q_addtail
  -- returns is ignored, whether the thread is in the queue or not.
  unfoldable pub cv_wait : ℕ → Block ℕ → ℕ → ℕ → Queue ℕ × LockState → Outcome (Queue ℕ × LockState)
  cv_wait depth mem lock curthread (slept_threads, s) = do
    added ← q_addtail depth mem slept_threads curthread
    let s' = lock_release lock s
    ret (added.1, record s' { threads = thread_sleep s'.threads curthread curthread })

  unfoldable pub cv_signal : Queue ℕ × S → Outcome (Queue ℕ × S)
  cv_signal (slept_threads, s) = do
    (addr, rest) ← q_remhead slept_threads
    ret (rest, thread_wakeup s addr)

  -- The loop of cv_broadcast; the first argument bounds its rounds.
  unfoldable pub cv_broadcast : ℕ → Queue ℕ × S → Outcome (Queue ℕ × S)
  cv_broadcast zero (slept_threads, s) =
      if q_empty slept_threads then ret (slept_threads, s) else panic
  cv_broadcast (suc rounds) (slept_threads, s) =
      let round = (do
        (addr, rest) ← q_remhead slept_threads
        cv_broadcast rounds (rest, thread_wakeup s addr)) in
      if q_empty slept_threads then ret (slept_threads, s) else round
