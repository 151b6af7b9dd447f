-- ===== src/Base/Effects.antt =====
-- How a C function ends: by returning, or in a panic (a failed assert, a call of panic(), or an
-- access outside a block of memory). Error returns are codes, beside the state that the call leaves.
use Prim.Native.Nat.{ℕ}
use mathlib.Core.Bool.{Bool, true, false}
use mathlib.Core.Option.{Option, none, some}

-- The error numbers of kern/include/kern/errno.h that the modelled code returns.
pub data Code : Type 0 where
  success enomem enospc einval efault enametoolong enoent eio eagain eunimp enodev : Code

pub data Outcome {ℓ} (A : Type ℓ) : Type ℓ where
  ret : A → Outcome A
  panic : Outcome A

infixl 5 ◌>>=◌ ◌>>◌
abbrev pub ◌>>=◌ {ℓ κ} : {A : Type ℓ} {B : Type κ} → Outcome A → (A → Outcome B) → Outcome B
ret a >>= f = f a
panic >>= f = panic

abbrev pub ◌>>◌ {ℓ} : {B : Type ℓ} → Outcome (Unit {0}) → Outcome B → Outcome B
m >> k = m >>= λ _. k

abbrev pub assert : Bool → Outcome (Unit {0})
assert true = ret tt
assert false = panic

-- A read that is `none` out of bounds.
abbrev pub fetch {ℓ} : {A : Type ℓ} → Option A → Outcome A
fetch none = panic
fetch (some a) = ret a

-- What kmalloc hands back: NULL, or a block whose cell `i` holds whatever `junk i` is.
abbrev pub Block {ℓ} : Type ℓ → Type ℓ
Block A = Option (ℕ → A)
