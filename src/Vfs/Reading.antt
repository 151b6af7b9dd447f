-- ===== src/Vfs/Reading.antt =====
-- getdevice of kern/fs/vfs/vfslookup.c reads the grammar of paths.
use mathlib.Core.List.{append_assoc}
use mehrad.Base.{
  Bool, true, false, none, some, Outcome, panic, Code, success, enomem, enospc, einval, efault,
  enametoolong, enoent, eio, eagain, eunimp, enodev, ℕ, zero, suc, ◌+◌, ◌≡◌, refl, ap, ◌∙◌, List,
  [], ◌∷◌, ◌++◌, ret, ==_ne, arith, length, set, drop,
}
use mehrad.Text.Strings.{IsText, terminated}
use mehrad.Vfs.{
  Mark, colon_at, slash_at, find_mark, skip_slashes, Got, got, from_current, Start,
  current_directory, boot_root, current_root, device_root, getdevice,
}
use mehrad.Vfs.Grammar.{
  IsName, slashes, NoSlash, Origin, here, boot, local, on, Parse, bare, relative, device, absolute,
  rooted, Split, all, colon, slash, split, Slashed, slashed, front,
}

-- The start that getdevice takes for an origin.
abbrev pub StartsAt : Origin → Start → Type 0
StartsAt here s = s ≡ current_directory
StartsAt boot s = s ≡ boot_root
StartsAt local s = s ≡ current_root
StartsAt (on name) s = (more : List ℕ) × (s ≡ device_root (terminated name more))

find_mark-name :
    (name : List ℕ) (c : ℕ) (rest : List ℕ) (i : ℕ)
    → IsName name
    → find_mark (name ++ c ∷ rest) i ≡ find_mark (c ∷ rest) (i + length name)
unfolding find_mark
find_mark-name [] c rest i h = ap (find_mark (c ∷ rest)) (omega arith)
find_mark-name (d ∷ name) c rest i (nz, nc, ns, h) = rw (==_ne d 0 nz) (
    rw (==_ne d b':' nc) (
      rw (==_ne d b'/' ns)
        (find_mark-name name c rest (i + 1) h ∙ ap (find_mark (c ∷ rest)) (omega arith))))

skip_slashes-slashes :
    (n : ℕ) (t rest : List ℕ) (i : ℕ)
    → NoSlash t
    → skip_slashes (terminated (slashes n t) rest) i ≡ ret (i + n)
unfolding skip_slashes
skip_slashes-slashes zero [] rest i h = ap ret (omega arith)
skip_slashes-slashes zero (c ∷ t) rest i h = rw (==_ne c b'/' h) (ap ret (omega arith))
skip_slashes-slashes (suc n) t rest i h =
    skip_slashes-slashes n t rest (i + 1) h ∙ ap ret (omega arith)

set-middle : (xs : List ℕ) (x y : ℕ) (ys : List ℕ) → set (xs ++ x ∷ ys) (length xs) y ≡ xs ++ y ∷ ys
set-middle [] x y ys = refl
set-middle (z ∷ xs) x y ys = ap (◌∷◌ z) (set-middle xs x y ys)

drop-past :
    (xs : List ℕ) (y : ℕ) (ys : List ℕ) (n : ℕ)
    → drop (length xs + 1 + n) (xs ++ y ∷ ys) ≡ drop n ys
drop-past [] y ys n = let e : 0 + 1 + n ≡ suc n = omega arith in rw e refl
drop-past (z ∷ xs) y ys n =
    let e : length (z ∷ xs) + 1 + n ≡ suc (length xs + 1 + n) = omega arith in
    rw e (drop-past xs y ys n)

drop-slashes :
    (n : ℕ) (t rest : List ℕ) → drop n (terminated (slashes n t) rest) ≡ terminated t rest
drop-slashes zero t rest = refl
drop-slashes (suc n) t rest = drop-slashes n t rest

-- What getdevice returns for a start, by what it asks: the error of the lookup that this start takes, if there
-- is one; a panic if the current directory's file system is wanted and there is none.
abbrev pub answer_for : Bool → Code → Bool → (List ℕ → Code) → Start → List ℕ → ℕ → Outcome Got
answer_for bootfs getcurdir has_fs getroot current_directory path k =
    ret (got getcurdir path current_directory k)
answer_for bootfs getcurdir has_fs getroot (device_root name) path k =
    ret (got (getroot name) path (device_root name) k)
answer_for true getcurdir has_fs getroot boot_root path k = ret (success, path, some (boot_root, k))
answer_for false getcurdir has_fs getroot boot_root path k = ret (enoent, path, none)
answer_for bootfs success true getroot current_root path k =
    ret (success, path, some (current_root, k))
answer_for bootfs success false getroot current_root path k = panic
answer_for bootfs c has_fs getroot current_root path k = ret (c, path, none)

-- A parse of the path, and that getdevice goes by it.
abbrev pub Reads : Bool → Code → Bool → (List ℕ → Code) → List ℕ → List ℕ → Type 0
Reads bootfs getcurdir has_fs getroot t rest =
    (origin : Origin) × (sub : List ℕ) × Parse t origin sub
    × (start : Start) × (path : List ℕ) × (k : ℕ) × (getdevice bootfs getcurdir has_fs getroot
          (terminated t rest)
        ≡ answer_for bootfs getcurdir has_fs getroot start path k)
    × StartsAt origin start
    × (drop k path ≡ terminated sub rest)

bare-Reads :
    (bootfs : Bool) (getcurdir : Code) (has_fs : Bool) (getroot : List ℕ → Code)
    (name rest : List ℕ)
    → IsName name
    → Reads bootfs getcurdir has_fs getroot name rest
unfolding getdevice find_mark
bare-Reads bootfs getcurdir has_fs getroot name rest h = (
  here,
  name,
  bare name h,
  current_directory,
  terminated name rest,
  0,
  rw (find_mark-name name 0 rest 0 h) refl,
  refl,
  refl,
)

-- The mark after a name that is not empty.
mark-after :
    (c : ℕ) (name : List ℕ) (x : ℕ) (t rest : List ℕ) (m : ℕ → Mark)
    → IsName (c ∷ name)
    → ((r : List ℕ) (i : ℕ) → find_mark (x ∷ r) i ≡ ret (m i))
    → find_mark (terminated (c ∷ (name ++ x ∷ t)) rest) 0 ≡ ret (m (suc (length name)))
mark-after c name x t rest m h f =
    ap (λ r. find_mark (c ∷ r) 0) (append_assoc name (x ∷ t) (0 ∷ rest))
    ∙ find_mark-name (c ∷ name) x (t ++ 0 ∷ rest) 0 h
    ∙ f (t ++ 0 ∷ rest) (0 + length (c ∷ name))
    ∙ ap (λ (i : ℕ). ret (m i)) (omega arith)

relative-Reads :
    (bootfs : Bool) (getcurdir : Code) (has_fs : Bool) (getroot : List ℕ → Code) (c : ℕ)
    (name t rest : List ℕ)
    → IsName (c ∷ name)
    → Reads bootfs getcurdir has_fs getroot (c ∷ (name ++ b'/' ∷ t)) rest
unfolding getdevice find_mark
relative-Reads bootfs getcurdir has_fs getroot c name t rest h =
    let e = mark-after c name b'/' t rest slash_at h (λ r i. refl) in
    (
      here,
      c ∷ (name ++ b'/' ∷ t),
      relative c name t h,
      current_directory,
      terminated (c ∷ (name ++ b'/' ∷ t)) rest,
      0,
      rw e refl,
      refl,
      refl,
    )

rest_of :
    (n x : ℕ) (t rest : List ℕ)
    → drop (1 + n) (terminated (x ∷ slashes n t) rest) ≡ terminated t rest
rest_of n x t rest = let e : 1 + n ≡ suc n = omega arith in rw e (drop-slashes n t rest)

absolute-Reads :
    (bootfs : Bool) (getcurdir : Code) (has_fs : Bool) (getroot : List ℕ → Code) {t : List ℕ}
    (rest : List ℕ)
    → Slashed t
    → Reads bootfs getcurdir has_fs getroot (b'/' ∷ t) rest
unfolding getdevice find_mark
absolute-Reads true getcurdir has_fs getroot rest (slashed n t h u) = (
  boot,
  t,
  absolute n t h,
  boot_root,
  terminated (b'/' ∷ slashes n t) rest,
  1 + n,
  rw (skip_slashes-slashes n t rest 1 h) refl,
  refl,
  rest_of n b'/' t rest,
)
absolute-Reads false getcurdir has_fs getroot rest (slashed n t h u) = (
  boot,
  t,
  absolute n t h,
  boot_root,
  terminated (b'/' ∷ slashes n t) rest,
  1 + n,
  refl,
  refl,
  rest_of n b'/' t rest,
)

current_then :
    (n : ℕ) (t rest : List ℕ) (getcurdir : Code) (has_fs : Bool) (bootfs : Bool)
    (getroot : List ℕ → Code)
    → NoSlash t
    → from_current bootfs getcurdir has_fs getroot getcurdir has_fs
        (terminated (b':' ∷ slashes n t) rest)
      ≡ answer_for bootfs getcurdir has_fs getroot current_root
          (terminated (b':' ∷ slashes n t) rest)
          (1 + n)
current_then n t rest success true bootfs getroot h = rw (skip_slashes-slashes n t rest 1 h) refl
current_then n t rest success false bootfs getroot h = refl
current_then n t rest enomem has_fs bootfs getroot h = refl
current_then n t rest enospc has_fs bootfs getroot h = refl
current_then n t rest einval has_fs bootfs getroot h = refl
current_then n t rest efault has_fs bootfs getroot h = refl
current_then n t rest enametoolong has_fs bootfs getroot h = refl
current_then n t rest enoent has_fs bootfs getroot h = refl
current_then n t rest eio has_fs bootfs getroot h = refl
current_then n t rest eagain has_fs bootfs getroot h = refl
current_then n t rest eunimp has_fs bootfs getroot h = refl
current_then n t rest enodev has_fs bootfs getroot h = refl

rooted-Reads :
    (bootfs : Bool) (getcurdir : Code) (has_fs : Bool) (getroot : List ℕ → Code) {t : List ℕ}
    (rest : List ℕ)
    → Slashed t
    → Reads bootfs getcurdir has_fs getroot (b':' ∷ t) rest
unfolding getdevice find_mark
rooted-Reads bootfs getcurdir has_fs getroot rest (slashed n t h u) = (
  local,
  t,
  rooted n t h,
  current_root,
  terminated (b':' ∷ slashes n t) rest,
  1 + n,
  current_then n t rest getcurdir has_fs bootfs getroot h,
  refl,
  rest_of n b':' t rest,
)

-- The path once the colon is a NUL.
cut :
    (c : ℕ) (name t rest : List ℕ)
    → set (terminated (c ∷ (name ++ b':' ∷ t)) rest) (suc (length name)) 0
      ≡ terminated (c ∷ name) (terminated t rest)
cut c name t rest =
    ap (λ r. c ∷ set r (length name) 0) (append_assoc name (b':' ∷ t) (0 ∷ rest))
    ∙ ap (◌∷◌ c) (set-middle name b':' 0 (terminated t rest))

after_cut :
    (c : ℕ) (name t rest : List ℕ) (n : ℕ)
    → drop (suc (length name) + 1 + n) (terminated (c ∷ name) (terminated t rest))
      ≡ drop n (terminated t rest)
after_cut c name t rest n = drop-past (c ∷ name) 0 (terminated t rest) n

device-Reads :
    (bootfs : Bool) (getcurdir : Code) (has_fs : Bool) (getroot : List ℕ → Code) (c : ℕ)
    (name : List ℕ) {t : List ℕ} (rest : List ℕ)
    → IsName (c ∷ name)
    → Slashed t
    → Reads bootfs getcurdir has_fs getroot (c ∷ (name ++ b':' ∷ t)) rest
unfolding getdevice find_mark
device-Reads bootfs getcurdir has_fs getroot c name rest h (slashed n t ns u) =
    let e = mark-after c name b':' (slashes n t) rest colon_at h (λ r i. refl) in
    let p : List ℕ = terminated (c ∷ name) (terminated (slashes n t) rest) in
    let z : suc (length name) + 1 ≡ suc (length name) + 1 + 0 = omega arith in
    let d : drop (suc (length name) + 1) p ≡ terminated (slashes n t) rest =
      ap (λ (i : ℕ). drop i p) z ∙ after_cut c name (slashes n t) rest 0 in
    (
      on (c ∷ name),
      t,
      device c name n t h ns,
      device_root p,
      p,
      suc (length name) + 1 + n,
      rw e (
          rw (cut c name (slashes n t) rest)
            (rw d (rw (skip_slashes-slashes n t rest (suc (length name) + 1) ns) refl))),
      (terminated (slashes n t) rest, refl),
      after_cut c name (slashes n t) rest n ∙ drop-slashes n t rest,
    )

Split-Reads :
    (bootfs : Bool) (getcurdir : Code) (has_fs : Bool) (getroot : List ℕ → Code) {t : List ℕ}
    (rest : List ℕ)
    → Split t
    → Reads bootfs getcurdir has_fs getroot t rest
Split-Reads bootfs getcurdir has_fs getroot rest (all name h) =
    bare-Reads bootfs getcurdir has_fs getroot name rest h
Split-Reads bootfs getcurdir has_fs getroot rest (colon [] t h u) =
    rooted-Reads bootfs getcurdir has_fs getroot rest (front t u)
Split-Reads bootfs getcurdir has_fs getroot rest (colon (c ∷ name) t h u) =
    device-Reads bootfs getcurdir has_fs getroot c name rest h (front t u)
Split-Reads bootfs getcurdir has_fs getroot rest (slash [] t h u) =
    absolute-Reads bootfs getcurdir has_fs getroot rest (front t u)
Split-Reads bootfs getcurdir has_fs getroot rest (slash (c ∷ name) t h u) =
    relative-Reads bootfs getcurdir has_fs getroot c name t rest h

-- Every path that is a string has a parse, by which getdevice goes: it starts where the parse says, and leaves
-- the path from there where its result points to, unless the lookup of that start fails, whose error it returns
-- then: that of vfs_getcurdir, that of vfs_getroot, or ENOENT if there is no boot file system; it panics if the
-- start is the current file system and the current directory has none.
pub getdevice_lem :
    (bootfs : Bool) (getcurdir : Code) (has_fs : Bool) (getroot : List ℕ → Code) (t rest : List ℕ)
    → IsText t
    → Reads bootfs getcurdir has_fs getroot t rest
getdevice_lem bootfs getcurdir has_fs getroot t rest h =
    Split-Reads bootfs getcurdir has_fs getroot rest (split t h)
