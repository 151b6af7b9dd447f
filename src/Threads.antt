-- ===== src/Threads.antt =====
-- What kern/thread/synch.c uses of the thread system, whose source is not in the repository: sleeping
-- on an address and waking, as kern/include/thread.h documents them. Threads and addresses are
-- numbers, as the pointers that the code compares.
use mehrad.Base.{ℕ, ◌≡◌, Bool, false, Option, none, some, ◌==◌, if◌then◌else◌}

abbrev pub is_on : Option ℕ → ℕ → Bool
is_on none a = false
is_on (some b) a = b == a

pub record Threads : Type 1 where
  pub S : Type 0
  pub asleep_on : S → ℕ → Option ℕ
  pub thread_sleep : S → ℕ → ℕ → S
  pub thread_wakeup : S → ℕ → S
  -- The thread goes to sleep on the address.
  pub sleeps :
      (s : S) (t a u : ℕ)
      → asleep_on (thread_sleep s t a) u ≡ (if u == t then some a else asleep_on s u)
  -- All threads that sleep on the address wake up.
  pub wakes :
      (s : S) (a u : ℕ)
      → asleep_on (thread_wakeup s a) u ≡ (if is_on (asleep_on s u) a then none else asleep_on s u)
