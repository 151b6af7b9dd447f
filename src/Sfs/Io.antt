-- ===== src/Sfs/Io.antt =====
-- File I/O of kern/fs/sfs/sfs_vnode.c works on the kernel's memory and a uio besides the file system.
-- The disk holds words, most significant byte first, as the machine stores them.
use mehrad.Base.{
  ap, ◌∙◌, ◌≡◌, ℕ, ◌+◌, ◌*◌, ◌/◌, ◌%◌, ◌^◌, Bool, true, false, List, [], ◌∷◌, ◌++◌, Outcome, ret,
  panic, Code, success, ltb, if◌then◌else◌, take, drop,
}
use mehrad.Memory.{store_bytes}
use mehrad.Uio.{UioRw, uio_read, uio_write, Uio, advanced}
use mehrad.Sfs.Device.{sfs_rwblock}
use mehrad.Sfs.State.{State, Answer, ok, err, M}
use mehrad.Sfs.Block.{write_disk}

abbrev pub sfs_blocksize : ℕ
sfs_blocksize = 512

pub record IoState : Type 0 where
  pub mem : List ℕ
  pub uio : Uio
  pub fs : State

abbrev pub Io : Type 0 → Type 0
Io A = IoState → Outcome (Answer A × IoState)

-- An early return or a panic skips the rest.
abbrev pub proceed :
    {A B : Type 0} → (A → Io B) → Outcome (Answer A × IoState) → Outcome (Answer B × IoState)
proceed f panic = panic
proceed f (ret (ok a, w)) = f a w
proceed f (ret (err c, w)) = ret (err c, w)

infixl 5 ◌>>=◌ ◌>>◌
abbrev pub ◌>>=◌ : {A B : Type 0} → Io A → (A → Io B) → Io B
◌>>=◌ m f w = proceed f (m w)

abbrev pub ◌>>◌ : {B : Type 0} → Io (Unit {0}) → Io B → Io B
m >> k = m >>= λ _. k

-- One step of a do block, when its first action succeeds.
pub >>=-ok :
    {A B : Type 0} (m : Io A) (f : A → Io B) {a : A} {w v : IoState}
    {r : Outcome (Answer B × IoState)}
    → m w ≡ ret (ok a, v)
    → f a v ≡ r
    → (m >>= f) w ≡ r
>>=-ok m f e h = ap (proceed f) e ∙ h

abbrev pub pure : {A : Type 0} → A → Io A
pure a w = ret (ok a, w)

abbrev pub assert : Bool → Io (Unit {0})
assert b w = if b then ret (ok tt, w) else panic

abbrev pub gets : {A : Type 0} → (IoState → A) → Io A
gets f w = ret (ok (f w), w)

abbrev pub modify : (IoState → IoState) → Io (Unit {0})
modify f w = ret (ok tt, f w)

abbrev pub with_fs :
    {A : Type 0} → IoState → Outcome (Answer A × State) → Outcome (Answer A × IoState)
with_fs w panic = panic
with_fs w (ret (a, s)) = ret (a, record w { fs = s })

-- A function of the file system alone.
abbrev pub on_fs : {A : Type 0} → M A → Io A
on_fs m w = with_fs w (m w.fs)

abbrev pub with_uio : IoState → Outcome (List ℕ × Uio) → Outcome (Answer (Unit {0}) × IoState)
with_uio w panic = panic
with_uio w (ret (m, u)) = ret (ok tt, record w { mem = m; uio = u })

-- A transfer of the memory and the uio, which returns no error within the kernel.
abbrev pub on_uio : (List ℕ → Uio → Outcome (List ℕ × Uio)) → Io (Unit {0})
on_uio f w = with_uio w (f w.mem w.uio)

abbrev pub word_bytes : ℕ → List ℕ
word_bytes w = (w / 2 ^ 24 % 256) ∷ (w / 2 ^ 16 % 256) ∷ (w / 2 ^ 8 % 256) ∷ (w % 256) ∷ []

unfoldable pub block_bytes : List ℕ → List ℕ
block_bytes [] = []
block_bytes (w ∷ ws) = word_bytes w ++ block_bytes ws

unfoldable pub block_words : List ℕ → List ℕ
block_words (a ∷ b ∷ c ∷ d ∷ bs) = (a * 2 ^ 24 + b * 2 ^ 16 + c * 2 ^ 8 + d) ∷ block_words bs
block_words _ = []

abbrev pub with_mem : IoState → Outcome (List ℕ) → Outcome (Answer (Unit {0}) × IoState)
with_mem w panic = panic
with_mem w (ret m) = ret (ok tt, record w { mem = m })

-- Bytes that the device or bzero puts in memory.
abbrev pub put_bytes : ℕ → List ℕ → Io (Unit {0})
put_bytes i bs w = with_mem w (store_bytes w.mem i bs)

-- The block goes to the buffer, or the buffer to the block.
abbrev pub move_block : UioRw → ℕ → Io (Unit {0})
move_block uio_read block w =
    (do
      put_bytes (w.uio).iov_base (block_bytes ((w.fs).disk block))
      modify (λ w'. record w' { uio = advanced w'.uio sfs_blocksize }))
      w
move_block uio_write block w = ret (
  ok tt,
  record w {
    fs = record (w.fs) {
      disk =
          write_disk (w.fs).disk block
            (block_words (take sfs_blocksize (drop (w.uio).iov_base w.mem)));
    };
    uio = advanced w.uio sfs_blocksize;
  },
)

-- What a device does with the uio of one block once a try succeeds: the buffer has room for the block.
unfoldable pub transfer_block : Io (Unit {0})
transfer_block w =
    if ltb (w.uio).iov_len sfs_blocksize
    then panic
    else move_block (w.uio).uio_rw ((w.uio).uio_offset / sfs_blocksize) w

abbrev pub is_write : UioRw → Bool
is_write uio_read = false
is_write uio_write = true

-- What becomes of the answer to the tries.
abbrev pub answered : Outcome Code → Io (Unit {0})
answered panic w = panic
answered (ret success) w = transfer_block w
answered (ret c) w = ret (err c, w)

-- sfs_rwblock on the uio at hand; `dev write block try` is what the device answers to a try.
unfoldable pub rwblock_uio : (Bool → ℕ → ℕ → Code) → Io (Unit {0})
rwblock_uio dev w =
    answered (sfs_rwblock (dev (is_write (w.uio).uio_rw) ((w.uio).uio_offset / sfs_blocksize))) w
