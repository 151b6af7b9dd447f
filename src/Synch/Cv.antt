-- ===== src/Synch/Cv.antt =====
-- Condition variables of kern/thread/synch.c: the threads that wait stand in a queue, and each sleeps
-- on its own address.
use mehrad.Base.{
  ℕ, ◌+◌, ◌^◌, ◌<◌, ◌≡◌, ◌≢◌, refl, ◌∙◌, Bool, false, ◌||◌, List, [], ◌∷◌, ◌++◌, Option, none, some,
  ret, panic, Block, ==_refl, ==_ne, if◌then◌else◌, ◌⊎◌, inl, inr, Bool-cases, length,
}
use mehrad.Queue.{Queue, q_empty}
use mehrad.Queue.Ring.{Holds}
use mehrad.Queue.Fifo.{q_addtail_lem, q_remhead-cons, q_empty_panics, q_empty_lem}
use mehrad.Threads.{Threads, is_on}
use mehrad.Synch.{LockState, cv_wait, cv_signal, cv_broadcast, lock_release}

-- Whether a thread sleeps on one of the addresses.
abbrev pub on_any : Option ℕ → List ℕ → Bool
on_any o [] = false
on_any o (a ∷ rest) = is_on o a || on_any o rest

module _ (T : Threads) where
  open T use {S, asleep_on, thread_sleep, thread_wakeup, sleeps, wakes}

  -- The threads that sleep on the addresses are awake, and the others are as they were.
  abbrev pub Woken : S → List ℕ → S → Type 0
  Woken s addrs s' =
      (u : ℕ) → asleep_on s' u ≡ (if on_any (asleep_on s u) addrs then none else asleep_on s u)

  -- On a condition variable that `ts` wait on, in this order: cv_signal wakes those that sleep on the
  -- address of the first, and leaves the others; with nobody waiting it panics.
  pub cv_signal_lem :
      (q : Queue ℕ) (ts : List ℕ) (s : S)
      → Holds q ts
      → ((ts ≡ []) × (cv_signal T (q, s) ≡ panic))
        ⊎ ((t : ℕ) × (r : List ℕ) × (q' : Queue ℕ) × (s' : S) × (ts ≡ t ∷ r)
            × (cv_signal T (q, s) ≡ ret (q', s'))
            × Holds q' r
            × Woken s (t ∷ []) s')
  unfolding cv_signal
  cv_signal_lem q [] s h = inl (refl, rw (((q_empty_panics q [] h).0 refl).0))
  cv_signal_lem q (t ∷ r) s h =
      let (q', e, h', n) = (q_remhead-cons q t r h).1 in
      inr (t, r, q', thread_wakeup s t, refl, rw e refl, h', λ u. wakes s t u ∙ one u)
    where
      one :
          (u : ℕ)
          → (if is_on (asleep_on s u) t then none else asleep_on s u)
            ≡ (if on_any (asleep_on s u) (t ∷ []) then none else asleep_on s u)
      one u = elim (Bool-cases (is_on (asleep_on s u) t)) [ inl e ↦ rw e | inr e ↦ rw e ]

  none_on : (r : List ℕ) → on_any none r ≡ false
  none_on [] = refl
  none_on (a ∷ r) = none_on r

  not_empty : (q : Queue ℕ) (t : ℕ) (r : List ℕ) → Holds q (t ∷ r) → q_empty q ≡ false
  not_empty q t r h = elim (Bool-cases (q_empty q)) [
    | inl e ↦ let z = (q_empty_lem q (t ∷ r) h).0 e in cc
    | inr e ↦ e
  ]

  wake_more :
      (s s' s'' : S) (t : ℕ) (r : List ℕ)
      → ((u : ℕ) → asleep_on s' u ≡ (if is_on (asleep_on s u) t then none else asleep_on s u))
      → Woken s' r s''
      → Woken s (t ∷ r) s''
  wake_more s s' s'' t r h k u = elim (Bool-cases (is_on (asleep_on s u) t)) [
    | inl e ↦
        k u ∙ (let q : asleep_on s' u ≡ none = h u ∙ rw e refl in rw q (rw (none_on r) (rw e)))
    | inr e ↦ k u ∙ (let q : asleep_on s' u ≡ asleep_on s u = h u ∙ rw e refl in rw q (rw e refl))
  ]

  -- cv_broadcast, in as many rounds as threads wait, wakes all of them and leaves nobody waiting.
  pub cv_broadcast_lem :
      (q : Queue ℕ) (ts : List ℕ) (s : S)
      → Holds q ts
      → (q' : Queue ℕ) × (s' : S) × (cv_broadcast T (length ts) (q, s) ≡ ret (q', s'))
        × Holds q' []
        × Woken s ts s'
  unfolding cv_broadcast
  cv_broadcast_lem q [] s h = (q, s, rw ((q_empty_lem q [] h).1 refl), h, λ u. refl)
  cv_broadcast_lem q (t ∷ r) s h =
      let (q', e, h', n) = (q_remhead-cons q t r h).1 in
      let (q'', s'', e', h'', w) = cv_broadcast_lem q' r (thread_wakeup s t) h' in
      let busy : q_empty q ≡ false = not_empty q t r h in
      (q'', s'', rw busy (rw e e'), h'', wake_more s (thread_wakeup s t) s'' t r (wakes s t) w)

  -- For a condition variable whose queue is well formed, holds the threads that wait, and has fewer than
  -- 2^29 cells: with memory, or a free cell in the queue, cv_wait puts the thread last, frees the lock, wakes
  -- those that sleep on it, and puts the thread to sleep on its own address. Without, it does all
  -- that but the first: the thread sleeps and nobody knows of it.
  pub cv_wait_lem :
      (mem : Block ℕ) (lock t : ℕ) (q : Queue ℕ) (ts : List ℕ) (s : LockState T)
      → Holds q ts
      → q.size < 2 ^ 29
      → (q' : Queue ℕ) × (s' : LockState T) × (cv_wait T 2 mem lock t (q, s) ≡ ret (q', s'))
        × (Holds q' (ts ++ t ∷ []) ⊎ ((q' ≡ q) × (mem ≡ none) × (length ts + 1 ≡ q.size)))
        × (s'.busy ≡ 0)
        × (asleep_on s'.threads t ≡ some t)
        × ((u : ℕ)
            → u ≢ t
            → asleep_on s'.threads u
              ≡ (if is_on (asleep_on s.threads u) lock then none else asleep_on s.threads u))
  unfolding cv_wait lock_release
  cv_wait_lem mem lock t q ts s h b =
      let s' : LockState T = record {
        busy = 0;
        threads = thread_sleep (thread_wakeup s.threads lock) t t;
      } in
      let own : asleep_on s'.threads t ≡ some t =
        sleeps (thread_wakeup s.threads lock) t t t ∙ rw (==_refl t) in
      let others : (u : ℕ)
          → u ≢ t
          → asleep_on s'.threads u
            ≡ (if is_on (asleep_on s.threads u) lock then none else asleep_on s.threads u) =
        λ u ne.
          sleeps (thread_wakeup s.threads lock) t t u
          ∙ rw (==_ne u t ne) (wakes s.threads lock u) in
      elim (q_addtail_lem mem q ts t h b) [
        | inl (q', e, h') ↦ (q', s', rw e refl, inl h', refl, own, others)
        | inr (e, m, f) ↦ (q, s', rw e refl, inr (refl, m, f), refl, own, others)
      ]
