-- ===== src/Scheduler/Rounds.antt =====
-- kern/thread/scheduler.c: threads run in the order in which they became runnable.
use mathlib.Core.List.{append_assoc, append-nil}
use mehrad.Base.{
  length-append, ◌∙◌, ◌+◌, ℕ, zero, suc, ◌≤◌, ◌<◌, ◌≡◌, refl, List, [], ◌∷◌, ◌++◌, none, some,
  arith, Outcome, ret, panic, ◌>>=◌, Block, ltb, Bool-cases, inl, inr, length, true, false,
}
use mehrad.Queue.{Queue, q_empty}
use mehrad.Queue.Ring.{Holds}
use mehrad.Queue.Fifo.{q_addtail_room, q_remhead-cons, q_empty_lem, q_empty_panics}
use mehrad.Scheduler.{
  drop_threads, scheduler_killall, scheduler_shutdown, make_runnable, wake_all, idle_loop,
  scheduler,
}

module _ {ℓ} {A : Type ℓ} where
  empty-test : (q : Queue A) → Holds q [] → q_empty q ≡ true
  empty-test q h = (q_empty_lem q [] h).1 refl

  cons-test : (q : Queue A) (x : A) (xs : List A) → Holds q (x ∷ xs) → q_empty q ≡ false
  cons-test q x xs h = elim (Bool-cases (q_empty q)) [
    | inl t ↦ absurd (cc ((q_empty_lem q (x ∷ xs) h).0 t))
    | inr f ↦ f
  ]

  drop_threads_lem :
      (rounds : ℕ) (q : Queue A) (xs : List A)
      → Holds q xs
      → length xs ≤ rounds
      → (q' : Queue A) × (drop_threads rounds q ≡ ret (xs, q')) × Holds q' []
  unfolding drop_threads
  drop_threads_lem zero q [] h k = (q, rw (empty-test q h), h)
  drop_threads_lem zero q (x ∷ xs) h k = absurd (omega arith)
  drop_threads_lem (suc rounds) q [] h k = (q, rw (empty-test q h), h)
  drop_threads_lem (suc rounds) q (x ∷ xs) h k =
      let (g, (q1, r1, h1, s1)) = q_remhead-cons q x xs h in
      let (q2, r2, h2) = drop_threads_lem rounds q1 xs h1 (omega arith) in
      (q2, rw (cons-test q x xs h) (rw r1 (rw r2)), h2)

  -- With interrupts off, scheduler_killall drops every thread, in order, and scheduler_shutdown finds
  -- the run queue empty: it does not panic.
  pub shutdown_lem :
      (curspl : ℕ) (q : Queue A) (xs : List A)
      → 0 < curspl
      → Holds q xs
      → ((q' : Queue A) × (scheduler_killall curspl q ≡ ret (xs, q')) × Holds q' [])
        × (scheduler_shutdown curspl q ≡ ret tt)
  unfolding scheduler_killall scheduler_shutdown
  shutdown_lem curspl q xs off h =
      let t : ltb 0 curspl ≡ true = ground arith in
      let (q', r, h') = drop_threads_lem q.size q xs h (omega (arith, h.room)) in
      let (panics, rest) = q_empty_panics q' [] h' in
      ((q', rw t r, h'), rw t (rw r (panics refl).2))

  idle_loop-cons :
      (curspl : ℕ) (mem : Block A) (idles : List (List A)) (q : Queue A) (t : A) (ts : List A)
      → Holds q (t ∷ ts)
      → (q' : Queue A) × (idle_loop curspl mem idles q ≡ ret (some (t, q')))
        × Holds q' ts
        × (q'.size ≡ q.size)
  unfolding idle_loop
  idle_loop-cons curspl mem [] q t ts h =
      let (g, (q1, r1, h1, s1)) = q_remhead-cons q t ts h in
      (q1, rw (cons-test q t ts h) (rw r1), h1, s1)
  idle_loop-cons curspl mem (is ∷ idles) q t ts h =
      let (g, (q1, r1, h1, s1)) = q_remhead-cons q t ts h in
      (q1, rw (cons-test q t ts h) (rw r1), h1, s1)

  -- The thread that has waited longest runs next, without idling, whatever interrupts would bring.
  pub scheduler-cons :
      (curspl : ℕ) (mem : Block A) (idles : List (List A)) (q : Queue A) (t : A) (ts : List A)
      → 0 < curspl
      → Holds q (t ∷ ts)
      → (q' : Queue A) × (scheduler curspl mem idles q ≡ ret (some (t, q')))
        × Holds q' ts
        × (q'.size ≡ q.size)
  unfolding scheduler
  scheduler-cons curspl mem idles q t ts off h =
      let o : ltb 0 curspl ≡ true = ground arith in
      let (q1, r1, h1, s1) = idle_loop-cons curspl mem idles q t ts h in (q1, rw o r1, h1, s1)

  -- `n` calls of the scheduler in a row: the threads that they hand out.
  unfoldable pub dispatch : ℕ → ℕ → Block A → Queue A → Outcome (List A × Queue A)
  dispatch zero curspl mem q = ret ([], q)
  dispatch (suc n) curspl mem q = scheduler curspl mem [] q >>= elim [
    | none ↦ panic
    | some (t, q') ↦ dispatch n curspl mem q' >>= λ r. ret (t ∷ r.0, r.1)
  ]

  -- A thread that is made runnable behind `xs` runs exactly when all of `xs` have run, in order.
  pub dispatch_in_order :
      (curspl : ℕ) (mem : Block A) (xs ys : List A) (q : Queue A)
      → 0 < curspl
      → Holds q (xs ++ ys)
      → (q' : Queue A) × (dispatch (length xs) curspl mem q ≡ ret (xs, q')) × Holds q' ys
  unfolding dispatch
  dispatch_in_order curspl mem [] ys q off h = (q, refl, h)
  dispatch_in_order curspl mem (x ∷ xs) ys q off h =
      let (q1, r1, h1, s1) = scheduler-cons curspl mem [] q x (xs ++ ys) off h in
      let (q2, r2, h2) = dispatch_in_order curspl mem xs ys q1 off h1 in (q2, rw r1 (rw r2), h2)

  -- Idle rounds whose interrupts make no thread runnable.
  unfoldable pub silent : ℕ → List (List A) → List (List A)
  silent zero later = later
  silent (suc n) later = [] ∷ silent n later

  wake_all_lem :
      (curspl : ℕ) (mem : Block A) (ts xs : List A) (q : Queue A)
      → 0 < curspl
      → Holds q xs
      → length xs + length ts < q.size
      → (q' : Queue A) × (wake_all curspl mem q ts ≡ ret q') × Holds q' (xs ++ ts)
  unfolding wake_all make_runnable
  wake_all_lem curspl mem [] xs q off h room = (q, refl, rw append-nil h)
  wake_all_lem curspl mem (t ∷ ts) xs q off h room =
      let o : ltb 0 curspl ≡ true = ground arith in
      let (q1, r1, h1, s1) = q_addtail_room mem q xs t h (omega arith) in
      let l = length-append {ℓ} xs (t ∷ []) in
      let (q2, r2, h2) = wake_all_lem curspl mem ts (xs ++ t ∷ []) q1 off h1 (omega arith) in
      (q2, rw o (rw r1 r2), rw append_assoc at h2)

  idles_on :
      (curspl : ℕ) (mem : Block A) (n : ℕ) (later : List (List A)) (q : Queue A)
      → Holds q []
      → idle_loop curspl mem (silent n later) q ≡ idle_loop curspl mem later q
  unfolding idle_loop wake_all silent
  idles_on curspl mem zero later q h = refl
  idles_on curspl mem (suc n) later q h = rw (empty-test q h) (idles_on curspl mem n later q h)

  -- On a well-formed run queue that is empty, with interrupts off: the scheduler idles as long as the interrupts make no
  -- thread runnable, and does not return while nothing else comes; once they make threads runnable, for
  -- whom the queue has room, it returns the first of them, and the others wait in order.
  pub scheduler_idle :
      (curspl : ℕ) (mem : Block A) (q : Queue A) (n : ℕ) (t : A) (ts : List A)
      (later : List (List A))
      → 0 < curspl
      → Holds q []
      → length (t ∷ ts) < q.size
      → (scheduler curspl mem (silent n []) q ≡ ret none)
        × ((q' : Queue A) × (scheduler curspl mem (silent n ((t ∷ ts) ∷ later)) q
              ≡ ret (some (t, q')))
            × Holds q' ts)
  unfolding scheduler idle_loop
  scheduler_idle curspl mem q n t ts later off h room =
      let o : ltb 0 curspl ≡ true = ground arith in
      let (q1, r1, h1) = wake_all_lem curspl mem (t ∷ ts) [] q off h (omega arith) in
      let (q2, r2, h2, s2) = idle_loop-cons curspl mem later q1 t ts h1 in
      (
        rw o (idles_on curspl mem n [] q h ∙ rw (empty-test q h) refl),
        (
          q2,
          rw o (idles_on curspl mem n ((t ∷ ts) ∷ later) q h ∙ rw (empty-test q h) (rw r1 r2)),
          h2,
        ),
      )
