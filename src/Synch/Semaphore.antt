-- ===== src/Synch/Semaphore.antt =====
-- Threads that do P and V on one semaphore of kern/thread/synch.c, in any order: the count is what was
-- put in less what was taken out, and no thread sleeps while it is positive.
use mehrad.Base.{
  ℕ, ◌+◌, ◌-◌, ◌%◌, ◌^◌, ◌<◌, ◌≡◌, ◌≢◌, ap, ◌∙◌, sym, subst, ◌↔◌, Bool, true, false, Option, none,
  some, Outcome, ret, panic, ltb, ◌==◌, if◌then◌else◌, arith, ◌⊎◌, inl, inr, Bool-cases,
}
use mehrad.Threads.{Threads}
use mehrad.Synch.{SemState, p_pass, p_enter, v}

ret-injective : {A : Type 0} {a b : A} → ret a ≡ ret b → a ≡ b
ret-injective {A} {a} e = ap (value a) e
  where
    value : A → Outcome A → A
    value d (ret x) = x
    value d panic = d

module _ (T : Threads) (sem : ℕ) where
  open T use {S, asleep_on, thread_sleep, thread_wakeup, sleeps, wakes}

  -- The semaphore, and how many P have got through and how many V were done.
  pub record World : Type 0 where
    pub state : SemState T
    pub downs : ℕ
    pub ups : ℕ

  abbrev pub asleep : World → ℕ → Option ℕ
  asleep w t = asleep_on (w.state).threads t

  pub data Step : World → World → Type 0 where
    down :
        (w : World) (t : ℕ) (through : Bool) (s : SemState T)
        → asleep w t ≡ none
        → p_pass T sem t w.state ≡ ret (through, s)
        → Step w (record w { state = s; downs = if through then w.downs + 1 else w.downs })
    up :
        (w : World) (s : SemState T)
        → v T sem w.state ≡ ret s
        → Step w (record w { state = s; ups = w.ups + 1 })
    sleep_elsewhere :
        (w : World) (t a : ℕ)
        → asleep w t ≡ none
        → a ≢ sem
        → Step w
            (record w { state = record (w.state) { threads = thread_sleep (w.state).threads t a } })
    wake_elsewhere :
        (w : World) (a : ℕ)
        → a ≢ sem
        → Step w
            (record w { state = record (w.state) { threads = thread_wakeup (w.state).threads a } })

  pub data Reach (w : World) : World → Type 0 where
    here : Reach w w
    next : {x y : World} → Reach w x → Step x y → Reach w y

  -- A new semaphore with `initial` for its count.
  pub record IsNew (initial : ℕ) (w : World) : Type 0 where
    pub counted : (w.state).count ≡ initial
    pub int : initial < 2 ^ 31
    pub none_down : w.downs ≡ 0
    pub none_up : w.ups ≡ 0
    pub awake : (t : ℕ) → asleep w t ≢ some sem

  pub record IsFair (initial : ℕ) (w : World) : Type 0 where
    pub balance : (w.state).count + w.downs ≡ initial + w.ups
    pub small : (w.state).count < 2 ^ 31
    pub empty : (t : ℕ) → asleep w t ≡ some sem → (w.state).count ≡ 0

  p_pass-cases :
      (t : ℕ) (s : SemState T)
      → s.count < 2 ^ 31
      → ((s.count ≡ 0)
          × (p_pass T sem t s ≡ ret (false, record s { threads = thread_sleep s.threads t sem })))
        ⊎ ((s.count ≢ 0) × (p_pass T sem t s ≡ ret (true, record s { count = s.count - 1 })))
  unfolding p_pass
  p_pass-cases t s h = elim (Bool-cases (s.count == 0)) [
    | inl z ↦ inl (ground arith, rw z)
    | inr n ↦
        let pos : ltb 0 s.count ≡ true = ground arith in
        let lim : ltb s.count (2 ^ 31) ≡ true = ground arith in
        inr (ground arith, rw n (rw pos (rw lim)))
  ]

  v_lem :
      (s : SemState T)
      → s.count < 2 ^ 31
      → ((s.count + 1 < 2 ^ 31)
          × (v T sem s
              ≡ ret (record { count = s.count + 1; threads = thread_wakeup s.threads sem })))
        ⊎ ((s.count + 1 ≡ 2 ^ 31) × (v T sem s ≡ panic))
  unfolding v
  v_lem s h =
      let m : (s.count + 1) % 2 ^ 32 ≡ s.count + 1 = omega arith in
      rw m (elim (Bool-cases (ltb (s.count + 1) (2 ^ 31))) [
        | inl y ↦
            let pos : ltb 0 (s.count + 1) ≡ true = ground arith in inl (ground arith, rw pos (rw y))
        | inr n ↦
            let pos : ltb 0 (s.count + 1) ≡ true = ground arith in inr (ground arith, rw pos (rw n))
      ])

  abbrev downed : World → Bool × SemState T → World
  downed w r = record w { state = r.1; downs = if r.0 then w.downs + 1 else w.downs }

  abbrev upped : World → SemState T → World
  upped w s = record w { state = s; ups = w.ups + 1 }

  downed-IsFair :
      (initial : ℕ) (w : World) (t : ℕ)
      → IsFair initial w
      → (r : Bool × SemState T) × (p_pass T sem t w.state ≡ ret r) × IsFair initial (downed w r)
  downed-IsFair initial w t f = elim (p_pass-cases t w.state f.small) [
    | inl (z, q) ↦ (
      (false, record (w.state) { threads = thread_sleep (w.state).threads t sem }),
      q,
      record { balance = f.balance; small = f.small; empty = λ u h. z },
    )
    | inr (n, q) ↦ (
      (true, record (w.state) { count = (w.state).count - 1 }),
      q,
      record {
        balance = omega (arith, f.balance);
        small = omega (arith, f.small);
        empty = λ u h. absurd (n (f.empty u h));
      },
    )
  ]

  nobody_left : (s : S) (u : ℕ) → asleep_on (thread_wakeup s sem) u ≢ some sem
  nobody_left s u h = let e = wakes s sem u in ground arith

  upped-IsFair :
      (initial : ℕ) (w : World) (s : SemState T)
      → v T sem w.state ≡ ret s
      → IsFair initial w
      → IsFair initial (upped w s)
  upped-IsFair initial w s e f = elim (v_lem w.state f.small) [
    | inr (full, q) ↦ absurd (cc)
    | inl (room, q) ↦
        subst (λ (r : SemState T). IsFair initial (upped w r)) (ret-injective (sym q ∙ e))
          (record {
            balance = omega (arith, f.balance);
            small = room;
            empty = λ u h. absurd (nobody_left (w.state).threads u h);
          })
  ]

  Step-IsFair : {w x : World} (initial : ℕ) → Step w x → IsFair initial w → IsFair initial x
  Step-IsFair initial (down w t through s aw e) f =
      let (r, q, g) = downed-IsFair initial w t f in
      subst (λ (r : Bool × SemState T). IsFair initial (downed w r)) (ret-injective (sym q ∙ e)) g
  Step-IsFair initial (up w s e) f = upped-IsFair initial w s e f
  Step-IsFair initial (sleep_elsewhere w t a aw ne) f = record {
    balance = f.balance;
    small = f.small;
    empty = λ u h. f.empty u (let e = sleeps (w.state).threads t a u in ground arith);
  }
  Step-IsFair initial (wake_elsewhere w a ne) f = record {
    balance = f.balance;
    small = f.small;
    empty = λ u h. f.empty u (let e = wakes (w.state).threads a u in ground arith);
  }

  Reach-IsFair : {w x : World} (initial : ℕ) → IsFair initial w → Reach w x → IsFair initial x
  Reach-IsFair initial f here = f
  Reach-IsFair initial f (next r st) = Step-IsFair initial st (Reach-IsFair initial f r)

  -- From a new semaphore: at every point its count and the number of P that got through are the
  -- initial count and the number of V together, a thread sleeps on it only while the count is 0, P
  -- outside of an interrupt never panics, and V panics exactly if the count is 2^31 - 1.
  pub semaphore_counts :
      {w x : World} (initial : ℕ)
      → IsNew initial w
      → Reach w x
      → ((x.state).count + x.downs ≡ initial + x.ups)
        × ((t : ℕ) → asleep x t ≡ some sem → (x.state).count ≡ 0)
        × ((t : ℕ) → (r : Bool × SemState T) × (p_enter T false sem t x.state ≡ ret r))
        × ((v T sem x.state ≡ panic) ↔ ((x.state).count + 1 ≡ 2 ^ 31))
  unfolding p_enter
  semaphore_counts {w} {x} initial new r =
      let first : IsFair initial w = record {
        balance = omega (arith, new.counted, new.none_down, new.none_up);
        small = omega (arith, new.counted, new.int);
        empty = λ t h. absurd (new.awake t h);
      } in
      let f = Reach-IsFair initial first r in
      (
        f.balance,
        f.empty,
        λ t. (let (p, q, g) = downed-IsFair initial x t f in (p, q)),
        elim (v_lem x.state f.small) [
          | inl (room, q) ↦ (λ e. cc, λ e. absurd (omega arith))
          | inr (full, q) ↦ (λ e. full, λ e. q)
        ],
      )
