-- ===== src/Sfs/Device.antt =====
-- sfs_rwblock of kern/fs/sfs/sfs_io.c: one block of I/O, with retries. The device's d_io is a
-- parameter: what it answers to each try.
use mehrad.Base.{
  ℕ_discrete, ap, sym, ◌∙◌, ℕ, zero, suc, ◌+◌, ◌≡◌, ◌≢◌, ◌<◌, ◌≤◌, refl, arith, Outcome, ret, panic,
  Code, success, einval, eio, ◌⊎◌, inl, inr,
}

-- One answer of d_io: EINVAL is a panic, EIO goes on as `again`, any other is returned.
abbrev pub answered : Code → Outcome Code → Outcome Code
answered einval again = panic
answered eio again = again
answered c again = ret c

-- `retry:` with `tries` tries made and `n` more to come; the last EIO is returned.
unfoldable pub rw_tries : (ℕ → Code) → ℕ → ℕ → Outcome Code
rw_tries d_io tries zero = answered (d_io tries) (ret eio)
rw_tries d_io tries (suc n) = let retry = rw_tries d_io (tries + 1) n in answered (d_io tries) retry

-- Ten retries after the first try.
unfoldable pub sfs_rwblock : (ℕ → Code) → Outcome Code
sfs_rwblock d_io = rw_tries d_io 0 10

-- The device answered EIO to the tries before `t`, and something else to `t`.
pub record FirstAnswer (d_io : ℕ → Code) (from t : ℕ) (c : Code) : Type 0 where
  pub since : from ≤ t
  pub fails : (k : ℕ) → from ≤ k → k < t → d_io k ≡ eio
  pub answers : d_io t ≡ c
  pub final : c ≢ eio

answered_other : (c : Code) (r : Outcome Code) → c ≢ einval → c ≢ eio → answered c r ≡ ret c
answered_other einval r h k = absurd (h refl)
answered_other eio r h k = absurd (k refl)
answered_other _ r h k = refl

eio-cases : (c : Code) → (c ≡ eio) ⊎ (c ≢ eio)
eio-cases eio = inl refl
eio-cases _ = inr (λ e. cc)

at_once : (d_io : ℕ → Code) (t : ℕ) → d_io t ≢ eio → FirstAnswer d_io t t (d_io t)
at_once d_io t h = record {
  since = omega arith;
  fails = λ k from to. absurd (omega arith);
  answers = refl;
  final = h;
}

after_eio :
    (d_io : ℕ → Code) (t u : ℕ) (c : Code)
    → d_io t ≡ eio
    → FirstAnswer d_io (t + 1) u c
    → FirstAnswer d_io t u c
after_eio d_io t u c e f = record {
  since = omega (arith, f.since);
  fails = λ k from to. elim (ℕ_discrete t k) [
    | yes q ↦ ap d_io (sym q) ∙ e
    | no ne ↦ f.fails k (omega arith) to
  ];
  answers = f.answers;
  final = f.final;
}

rw_tries_lem :
    (d_io : ℕ → Code) (tries n : ℕ)
    → ((k : ℕ) → d_io k ≢ einval)
    → ((t : ℕ) × (c : Code) × (rw_tries d_io tries n ≡ ret c)
        × (t ≤ tries + n)
        × FirstAnswer d_io tries t c)
      ⊎ ((rw_tries d_io tries n ≡ ret eio) × ((k : ℕ) → tries ≤ k → k ≤ tries + n → d_io k ≡ eio))
unfolding rw_tries
rw_tries_lem d_io tries zero h = elim (eio-cases (d_io tries)) [
  | inl e ↦ inr (rw e, λ k from to. let q : tries ≡ k = omega arith in ap d_io (sym q) ∙ e)
  | inr ne ↦
      inl (tries, d_io tries, answered_other _ _ (h tries) ne, omega arith, at_once d_io tries ne)
]
rw_tries_lem d_io tries (suc n) h = elim (eio-cases (d_io tries)) [
  | inr ne ↦
      inl (tries, d_io tries, answered_other _ _ (h tries) ne, omega arith, at_once d_io tries ne)
  | inl e ↦ elim (rw_tries_lem d_io (tries + 1) n h) [
    | inl (t, c, r, b, f) ↦ inl (t, c, rw e r, omega arith, after_eio d_io tries t c e f)
    | inr (r, all) ↦ inr (
      rw e r,
      λ k from to. elim (ℕ_discrete tries k) [
        | yes q ↦ ap d_io (sym q) ∙ e
        | no ne ↦ all k (omega arith) (omega arith)
      ],
    )
  ]
]

-- For a device that never answers EINVAL, sfs_rwblock returns the first answer that is not EIO, if
-- one of the first eleven tries has one, and EIO else.
pub sfs_rwblock_lem :
    (d_io : ℕ → Code)
    → ((k : ℕ) → d_io k ≢ einval)
    → ((t : ℕ) × (c : Code) × (sfs_rwblock d_io ≡ ret c) × (t ≤ 10) × FirstAnswer d_io 0 t c)
      ⊎ ((sfs_rwblock d_io ≡ ret eio) × ((k : ℕ) → k ≤ 10 → d_io k ≡ eio))
unfolding sfs_rwblock
sfs_rwblock_lem d_io h = elim (rw_tries_lem d_io 0 10 h) [
  | inl (t, c, r, b, f) ↦ inl (t, c, r, b, f)
  | inr (r, all) ↦ inr (r, λ k to. all k (omega arith) to)
]

-- A device that works at the first try.
pub sfs_rwblock-success : (d_io : ℕ → Code) → d_io 0 ≡ success → sfs_rwblock d_io ≡ ret success
unfolding sfs_rwblock rw_tries
sfs_rwblock-success d_io e = rw e
