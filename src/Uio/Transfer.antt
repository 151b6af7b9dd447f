-- ===== src/Uio/Transfer.antt =====
-- What uiomove of kern/userprog/uio.c moves.
use mehrad.Base.{
  ap, ℕ, zero, suc, ◌+◌, ◌-◌, ◌%◌, ◌^◌, ◌<◌, ◌≤◌, ◌≡◌, ◌≢◌, refl, ap₂, ◌∙◌, sym, ◌||◌, Bool, true,
  false, List, ret, ltb, ◌==◌, ==_ne, arith, ◌⊎◌, inl, inr, min, length, ℕ_discrete, dec_le,
  take-append-drop, if◌then◌else◌,
}
use mehrad.Memory.Copy.{moved, memmove_lem}
use mehrad.Uio.{UioRw, uio_read, uio_write, Uio, transfer, advanced, move_rounds, uiomove}

-- The memory once `k` bytes have moved between `ptr` and the buffer of the uio.
abbrev pub after_move : UioRw → List ℕ → ℕ → ℕ → ℕ → List ℕ
after_move uio_read mem base ptr k = moved mem base ptr k
after_move uio_write mem base ptr k = moved mem ptr base k

transfer_lem :
    (rw : UioRw) (mem : List ℕ) (base ptr k : ℕ)
    → base + k ≤ length mem
    → ptr + k ≤ length mem
    → transfer rw mem base ptr k ≡ ret (after_move rw mem base ptr k)
unfolding transfer
transfer_lem uio_read mem base ptr k h l = memmove_lem mem base ptr k h l
transfer_lem uio_write mem base ptr k h l = memmove_lem mem ptr base k l h

moves_nothing : (mem : List ℕ) (d s : ℕ) → moved mem d s 0 ≡ mem
moves_nothing mem d s = let e : d + 0 ≡ d = omega arith in rw e (take-append-drop d mem)

after_nothing : (rw : UioRw) (mem : List ℕ) (base ptr : ℕ) → after_move rw mem base ptr 0 ≡ mem
after_nothing uio_read mem base ptr = moves_nothing mem base ptr
after_nothing uio_write mem base ptr = moves_nothing mem ptr base

-- All that is left is in the buffer, or what is asked for is left, and is in the buffer.
abbrev pub IsReady : Uio → ℕ → Type 0
IsReady uio n =
    (uio.uio_resid ≡ uio.iov_len) ⊎ ((n ≤ uio.uio_resid) × (uio.uio_resid ≤ uio.iov_len))

pub advanced_zero :
    (uio : Uio) → uio.uio_resid < 2 ^ 32 → uio.uio_offset < 2 ^ 32 → advanced uio 0 ≡ uio
advanced_zero uio h k =
    let e₁ : uio.iov_base + 0 ≡ uio.iov_base = omega arith in
    let e₂ : uio.iov_len - 0 ≡ uio.iov_len = omega arith in
    let e₃ : (uio.uio_offset + 0) % 2 ^ 32 ≡ uio.uio_offset = omega arith in
    let e₄ : (uio.uio_resid + 2 ^ 32 - 0) % 2 ^ 32 ≡ uio.uio_resid = omega arith in
    rw (e₁, e₂, e₃, e₄) refl

finished :
    (rounds n ptr : ℕ) (mem : List ℕ) (uio : Uio)
    → (n == 0 || uio.uio_resid == 0) ≡ true
    → move_rounds rounds n ptr mem uio ≡ ret (mem, uio)
unfolding move_rounds
finished zero n ptr mem uio e = rw e refl
finished (suc rounds) n ptr mem uio e = rw e refl

one_round :
    (rounds n k ptr : ℕ) (mem : List ℕ) (uio : Uio)
    → (n == 0 || uio.uio_resid == 0) ≡ false
    → (if ltb n uio.iov_len then n else uio.iov_len) ≡ k
    → (k == 0) ≡ false
    → uio.iov_base + k ≤ length mem
    → ptr + k ≤ length mem
    → (n - k == 0 || (advanced uio k).uio_resid == 0) ≡ true
    → move_rounds (suc rounds) n ptr mem uio
      ≡ ret (after_move uio.uio_rw mem uio.iov_base ptr k, advanced uio k)
unfolding move_rounds
one_round rounds n k ptr mem uio more size some_left b p done = rw more (
    rw size (
      rw some_left (
        rw (transfer_lem uio.uio_rw mem uio.iov_base ptr k b p) (
          finished rounds (n - k) (ptr + k) (after_move uio.uio_rw mem uio.iov_base ptr k)
            (advanced uio k) done))))

or_true : (b : Bool) → (b || true) ≡ true
or_true true = refl
or_true false = refl

nothing_left :
    (m : ℕ) (uio : Uio) → uio.uio_resid ≡ 0 → IsReady uio (suc m) → min (suc m) uio.iov_len ≡ 0
nothing_left m uio z (inl e) = omega arith
nothing_left m uio z (inr (h, l)) = absurd (omega arith)

something_left :
    (m : ℕ) (uio : Uio) → uio.uio_resid ≢ 0 → IsReady uio (suc m) → min (suc m) uio.iov_len ≢ 0
something_left m uio nz (inl e) z = nz (omega arith)
something_left m uio nz (inr (h, l)) z = omega arith

-- After one round nothing is left to be asked for, or nothing is left in the buffer.
done_then :
    (m : ℕ) (uio : Uio)
    → IsReady uio (suc m)
    → uio.uio_resid < 2 ^ 32
    → (suc m - min (suc m) uio.iov_len == 0
        || (advanced uio (min (suc m) uio.iov_len)).uio_resid == 0)
      ≡ true
done_then m uio (inr (h, l)) a =
    let e : suc m - min (suc m) uio.iov_len ≡ 0 = omega arith in rw e refl
done_then m uio (inl q) a = elim (dec_le (suc m) uio.iov_len) [
  | yes le ↦ let e : suc m - min (suc m) uio.iov_len ≡ 0 = omega arith in rw e refl
  | no gt ↦
      let e : (uio.uio_resid + 2 ^ 32 - min (suc m) uio.iov_len) % 2 ^ 32 ≡ 0 = omega arith in
      rw e (or_true (suc m - min (suc m) uio.iov_len == 0))
]

-- If all that is left is in the buffer, or what is asked for is left, and is in the buffer: uiomove
-- moves as many bytes as are asked for and fit, in one round, from the pointer into the buffer or the
-- other way, changes no other byte, and advances the uio by as much.
pub uiomove_lem :
    (ptr n : ℕ) (mem : List ℕ) (uio : Uio)
    → IsReady uio n
    → uio.uio_resid < 2 ^ 32
    → uio.uio_offset < 2 ^ 32
    → uio.iov_base + min n uio.iov_len ≤ length mem
    → ptr + min n uio.iov_len ≤ length mem
    → uiomove ptr n mem uio
      ≡ ret (
        after_move uio.uio_rw mem uio.iov_base ptr (min n uio.iov_len),
        advanced uio (min n uio.iov_len),
      )
unfolding uiomove
uiomove_lem ptr zero mem uio r a b c d =
    let k : min 0 uio.iov_len ≡ 0 = omega arith in
    rw k (
      finished 0 0 ptr mem uio refl
      ∙ ap₂ (λ m u. ret (m, u)) (sym (after_nothing uio.uio_rw mem uio.iov_base ptr))
          (sym (advanced_zero uio a b)))
uiomove_lem ptr (suc m) mem uio r a b c d = elim (ℕ_discrete uio.uio_resid 0) [
  | yes z ↦
      let k : min (suc m) uio.iov_len ≡ 0 = nothing_left m uio z r in
      let e : (suc m == 0 || uio.uio_resid == 0) ≡ true = ground arith in
      rw k (
        finished (suc m) (suc m) ptr mem uio e
        ∙ ap₂ (λ m u. ret (m, u)) (sym (after_nothing uio.uio_rw mem uio.iov_base ptr))
            (sym (advanced_zero uio a b)))
  | no nz ↦
      one_round m (suc m) (min (suc m) uio.iov_len) ptr mem uio (ground arith) (ground arith)
        (==_ne _ 0 (something_left m uio nz r)) c d (done_then m uio r a)
]

-- As many bytes as are left and have room: the way the file system and the drivers call it.
pub uiomove_exact :
    (ptr n : ℕ) (mem : List ℕ) (uio : Uio)
    → n ≤ uio.uio_resid
    → uio.uio_resid ≤ uio.iov_len
    → uio.uio_resid < 2 ^ 32
    → uio.uio_offset < 2 ^ 32
    → uio.iov_base + n ≤ length mem
    → ptr + n ≤ length mem
    → uiomove ptr n mem uio ≡ ret (after_move uio.uio_rw mem uio.iov_base ptr n, advanced uio n)
uiomove_exact ptr n mem uio w room a b h k =
    let e : min n uio.iov_len ≡ n = omega arith in
    uiomove_lem ptr n mem uio (inr (w, room)) a b (omega arith) (omega arith)
    ∙ ap₂ (λ (k : ℕ) l. ret (after_move uio.uio_rw mem uio.iov_base ptr k, advanced uio l)) e e

pub uiomove_read :
    (ptr n : ℕ) (mem : List ℕ) (uio : Uio)
    → uio.uio_rw ≡ uio_read
    → n ≤ uio.uio_resid
    → uio.uio_resid ≤ uio.iov_len
    → uio.uio_resid < 2 ^ 32
    → uio.uio_offset < 2 ^ 32
    → uio.iov_base + n ≤ length mem
    → ptr + n ≤ length mem
    → uiomove ptr n mem uio ≡ ret (moved mem uio.iov_base ptr n, advanced uio n)
uiomove_read ptr n mem uio r w room a b h k =
    uiomove_exact ptr n mem uio w room a b h k
    ∙ ap (λ rw. ret (after_move rw mem uio.iov_base ptr n, advanced uio n)) r
