-- ===== src/Sfs/State.antt =====
-- The state that the block-level functions of kern/fs/sfs/sfs_vnode.c work on: the file system and
-- the one vnode at hand. A block of the disk is its 128 words of 32 bits, as the code's idbuf.
use mehrad.Base.{ap, ◌∙◌, ◌≡◌, ℕ, Bool, List, Outcome, ret, panic, Code}
use mehrad.Bitmap.{Bitmap}

abbrev pub sfs_ndirect : ℕ
sfs_ndirect = 15

abbrev pub sfs_dbperidb : ℕ
sfs_dbperidb = 128

-- `struct sfs_inode`
pub record Inode : Type 0 where
  pub sfi_size : ℕ
  pub sfi_type : ℕ
  pub sfi_linkcount : ℕ
  pub sfi_direct : List ℕ
  pub sfi_indirect : ℕ
  pub sfi_waste : List ℕ

-- `struct sfs_fs` with its disk, and `struct sfs_vnode`.
pub record State : Type 0 where
  pub sp_nblocks : ℕ
  pub freemap : Bitmap
  pub freemapdirty : Bool
  pub disk : ℕ → List ℕ
  pub sv_i : Inode
  pub sv_ino : ℕ
  pub sv_dirty : Bool

-- What a function hands back: its result, or the error code that it returns early.
pub data Answer {ℓ} (A : Type ℓ) : Type ℓ where
  ok : A → Answer A
  err : Code → Answer A

abbrev pub M : Type 0 → Type 0
M A = State → Outcome (Answer A × State)

-- An early return or a panic skips the rest.
abbrev pub continue :
    {A B : Type 0} → (A → M B) → Outcome (Answer A × State) → Outcome (Answer B × State)
continue f panic = panic
continue f (ret (ok a, s)) = f a s
continue f (ret (err c, s)) = ret (err c, s)

infixl 5 ◌>>=◌ ◌>>◌
abbrev pub ◌>>=◌ : {A B : Type 0} → M A → (A → M B) → M B
◌>>=◌ m f s = continue f (m s)

abbrev pub ◌>>◌ : {B : Type 0} → M (Unit {0}) → M B → M B
m >> k = m >>= λ _. k

abbrev pub pure : {A : Type 0} → A → M A
pure a s = ret (ok a, s)

abbrev pub fail : {A : Type 0} → Code → M A
fail c s = ret (err c, s)

abbrev pub crash : {A : Type 0} → M A
crash s = panic

-- Reads the state.
abbrev pub gets : {A : Type 0} → (State → A) → M A
gets f s = ret (ok (f s), s)

abbrev pub modify : (State → State) → M (Unit {0})
modify f s = ret (ok tt, f s)

-- One step of a do block, when its first action succeeds or returns early.
pub >>=-ok :
    {A B : Type 0} (m : M A) (f : A → M B) {a : A} {s t : State} {r : Outcome (Answer B × State)}
    → m s ≡ ret (ok a, t)
    → f a t ≡ r
    → (m >>= f) s ≡ r
>>=-ok m f e h = ap (continue f) e ∙ h

pub >>=-err :
    {A B : Type 0} (m : M A) (f : A → M B) {c : Code} {s t : State}
    → m s ≡ ret (err c, t)
    → (m >>= f) s ≡ ret (err c, t)
>>=-err m f e = ap (continue f) e
