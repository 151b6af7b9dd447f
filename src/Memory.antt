-- ===== src/Memory.antt =====
-- lib/libc/memcpy.c and lib/libc/memmove.c on a memory of cells: the copying loops, forwards and
-- backwards. A read or a write outside the memory is a panic.
pub mod Copy
pub mod Cells
mod Tests
use mehrad.Base.{
  ℕ, zero, suc, ◌+◌, ◌-◌, List, [], ◌∷◌, Outcome, ret, panic, ◌>>=◌, fetch, length, get_elem?, set,
  ltb, if◌then◌else◌,
}

module _ {ℓ} {A : Type ℓ} where
  abbrev pub store : List A → ℕ → A → Outcome (List A)
  store m i v = if ltb i (length m) then ret (set m i v) else panic

  -- The forward loop of memcpy: `for (i=0; i<len; i++) d[i] = s[i];`.
  unfoldable pub copy_forward : List A → ℕ → ℕ → ℕ → Outcome (List A)
  copy_forward m d s zero = ret m
  copy_forward m d s (suc n) = do
    c ← fetch (get_elem? m s)
    m' ← store m d c
    copy_forward m' (suc d) (suc s) n

  -- The backward loop of memmove: `for (i=len; i>0; i--) d[i-1] = s[i-1];`.
  unfoldable pub copy_backward : List A → ℕ → ℕ → ℕ → Outcome (List A)
  copy_backward m d s zero = ret m
  copy_backward m d s (suc n) = do
    c ← fetch (get_elem? m (s + n))
    m' ← store m (d + n) c
    copy_backward m' d s n

  -- memmove: forwards, through memcpy, if the destination is below the source, else backwards.
  unfoldable pub memmove : List A → ℕ → ℕ → ℕ → Outcome (List A)
  memmove m d s n = if ltb d s then copy_forward m d s n else copy_backward m d s n

module _ {ℓ} {A : Type ℓ} where
  -- Values stored in the cells from `i` on, one after the other.
  unfoldable pub store_bytes : List A → ℕ → List A → Outcome (List A)
  store_bytes m i [] = ret m
  store_bytes m i (b ∷ bs) = do m' ← store m i b; store_bytes m' (i + 1) bs
