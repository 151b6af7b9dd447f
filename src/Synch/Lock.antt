-- ===== src/Synch/Lock.antt =====
-- Threads that take and give back one lock of kern/thread/synch.c, in any order: the lock is held by
-- one thread at most, and no thread sleeps on a lock that is free.
use mehrad.Base.{
  ℕ, ◌≡◌, ◌≢◌, refl, ap, ◌∙◌, sym, Bool, Option, none, some, ◌==◌, ==_ne, ==_refl, if◌then◌else◌,
  arith, inl, inr, ℕ_discrete, Bool-cases,
}
use mehrad.Threads.{Threads}
use mehrad.Synch.{LockState, acquire_pass, lock_release}

-- Where a thread stands with respect to the lock: it has no business with it, it is in the loop of
-- lock_acquire, or it has the lock.
pub data Place : Type 0 where
  outside trying holding : Place

module _ (T : Threads) (lock : ℕ) where
  open T use {S, asleep_on, thread_sleep, thread_wakeup, sleeps, wakes}

  pub record World : Type 0 where
    pub state : LockState T
    pub place : ℕ → Place

  abbrev pub move : (ℕ → Place) → ℕ → Place → ℕ → Place
  move place t p u = if u == t then p else place u

  abbrev pub after_pass : ℕ → (ℕ → Place) → Bool × LockState T → World
  after_pass t place (through, s) = record {
    state = s;
    place = move place t (if through then holding else trying);
  }

  abbrev pub asleep : World → ℕ → Option ℕ
  asleep w t = asleep_on (w.state).threads t

  -- A thread that is awake enters lock_acquire or tries again, calls lock_release, whether or not it has the
  -- lock, goes to sleep on something else, or wakes those that sleep on something else.
  pub data Step : World → World → Type 0 where
    acquire :
        (w : World) (t : ℕ)
        → t ≢ 0
        → asleep w t ≡ none
        → Step w (after_pass t w.place (acquire_pass T lock t w.state))
    release :
        (w : World) (t : ℕ)
        → asleep w t ≡ none
        → Step w (record { state = lock_release T lock w.state; place = move w.place t outside })
    sleep_elsewhere :
        (w : World) (t a : ℕ)
        → asleep w t ≡ none
        → w.place t ≢ trying
        → a ≢ lock
        → Step w
            (record w { state = record (w.state) { threads = thread_sleep (w.state).threads t a } })
    wake_elsewhere :
        (w : World) (a : ℕ)
        → a ≢ lock
        → Step w
            (record w { state = record (w.state) { threads = thread_wakeup (w.state).threads a } })

  pub data Reach (w : World) : World → Type 0 where
    here : Reach w w
    next : {x y : World} → Reach w x → Step x y → Reach w y

  -- The use that kern/include/synch.h asks for: only the thread that has the lock gives it back. Nor does it
  -- take the lock once more.
  abbrev pub IsRight : {w x : World} → Step w x → Type 0
  IsRight (acquire w t nz up) = w.place t ≢ holding
  IsRight (release w t up) = w.place t ≡ holding
  IsRight (sleep_elsewhere w t a up out ne) = Unit {0}
  IsRight (wake_elsewhere w a ne) = Unit {0}

  unfoldable pub IsDisciplined : {w x : World} → Reach w x → Type 0
  IsDisciplined here = Unit {0}
  IsDisciplined (next r st) = IsDisciplined r × IsRight st

  -- The lock is free and nobody is near it.
  pub record IsStart (w : World) : Type 0 where
    pub free : (w.state).busy ≡ 0
    pub away : (t : ℕ) → w.place t ≡ outside
    pub awake : (t : ℕ) → asleep w t ≢ some lock

  pub record IsSafe (w : World) : Type 0 where
    pub held : (t : ℕ) → w.place t ≡ holding → (w.state).busy ≡ t
    pub real : (t : ℕ) → w.place t ≡ holding → t ≢ 0
    pub owner : (w.state).busy ≢ 0 → w.place (w.state).busy ≡ holding
    pub wanted : (t : ℕ) → asleep w t ≡ some lock → (w.state).busy ≢ 0
    pub in_loop : (t : ℕ) → asleep w t ≡ some lock → w.place t ≡ trying

  IsStart-IsSafe : {w : World} → IsStart w → IsSafe w
  IsStart-IsSafe {w} s = record {
    held = λ t h. let a = s.away t in cc;
    real = λ t h. let a = s.away t in cc;
    owner = λ n. absurd (n s.free);
    wanted = λ t h. absurd (s.awake t h);
    in_loop = λ t h. absurd (s.awake t h);
  }

  acquire-IsSafe :
      (w : World) (t : ℕ)
      → t ≢ 0
      → w.place t ≢ holding
      → IsSafe w
      → IsSafe (after_pass t w.place (acquire_pass T lock t w.state))
  unfolding acquire_pass
  acquire-IsSafe w t nz out s = elim (Bool-cases ((w.state).busy == 0)) [
    | inl free ↦ rw free (record {
      held = λ u h. let k = s.held u in let r = s.real u in ground arith;
      real = λ u h. let r = s.real u in ground arith;
      owner = λ n. rw (==_refl t);
      wanted = λ u h. nz;
      in_loop = λ u h. let x = s.wanted u h in ground arith;
    })
    | inr taken ↦
        let b : (w.state).busy ≢ 0 = ground arith in
        let o = s.owner b in
        rw taken (record {
          held = λ u h. let k = s.held u in ground arith;
          real = λ u h. let r = s.real u in ground arith;
          owner = λ n. elim (ℕ_discrete (w.state).busy t) [
            | yes e ↦ absurd (out (ap w.place (sym e) ∙ o))
            | no ne ↦ rw (==_ne (w.state).busy t ne) o
          ];
          wanted = λ u h. b;
          in_loop = λ u h.
              let e = sleeps (w.state).threads t lock u in let x = s.in_loop u in ground arith;
        })
  ]

  release-IsSafe :
      (w : World) (t : ℕ)
      → w.place t ≡ holding
      → IsSafe w
      → IsSafe (record { state = lock_release T lock w.state; place = move w.place t outside })
  unfolding lock_release
  release-IsSafe w t h s = record {
    held = λ u k. let a = s.held u in let b = s.held t h in ground arith;
    real = λ u k. let r = s.real u in ground arith;
    owner = λ n. absurd (n refl);
    wanted = λ u k. let e = wakes (w.state).threads lock u in ground arith;
    in_loop = λ u k. let e = wakes (w.state).threads lock u in ground arith;
  }

  Step-IsSafe : {w x : World} (st : Step w x) → IsRight st → IsSafe w → IsSafe x
  Step-IsSafe (acquire w t nz up) out s = acquire-IsSafe w t nz out s
  Step-IsSafe (release w t up) h s = release-IsSafe w t h s
  Step-IsSafe (sleep_elsewhere w t a up out ne) right s = record {
    held = s.held;
    real = s.real;
    owner = s.owner;
    wanted = λ u h. s.wanted u (let e = sleeps (w.state).threads t a u in ground arith);
    in_loop = λ u h. s.in_loop u (let e = sleeps (w.state).threads t a u in ground arith);
  }
  Step-IsSafe (wake_elsewhere w a ne) right s = record {
    held = s.held;
    real = s.real;
    owner = s.owner;
    wanted = λ u h. s.wanted u (let e = wakes (w.state).threads a u in ground arith);
    in_loop = λ u h. s.in_loop u (let e = wakes (w.state).threads a u in ground arith);
  }

  Reach-IsSafe : {w x : World} → IsSafe w → (r : Reach w x) → IsDisciplined r → IsSafe x
  unfolding IsDisciplined
  Reach-IsSafe s here d = s
  Reach-IsSafe s (next r st) (d, right) = Step-IsSafe st right (Reach-IsSafe s r d)

  -- From a lock that is free, with no thread near it, as long as each call of lock_release is made by a thread
  -- that holds the lock, and each of lock_acquire by one that does not, neither of which the code checks: two
  -- threads never hold it at once, and a thread that sleeps on it does so while another thread holds it.
  pub mutual_exclusion :
      {w x : World}
      → IsStart w
      → (r : Reach w x) → IsDisciplined r
      → ((t u : ℕ) → x.place t ≡ holding → x.place u ≡ holding → t ≡ u)
        × ((t : ℕ) → asleep x t ≡ some lock → (u : ℕ) × (x.place u ≡ holding) × (u ≢ t))
  mutual_exclusion {w} {x} start r d =
      let s = Reach-IsSafe (IsStart-IsSafe start) r d in
      (
        λ t u h k. sym (s.held t h) ∙ s.held u k,
        λ t a.
            let l = s.in_loop t a in
            let o = s.owner (s.wanted t a) in ((x.state).busy, o, λ e. let l' = ap x.place e in cc),
      )
