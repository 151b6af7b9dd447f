-- ===== src/Vfs.antt =====
-- kern/fs/vfs/vfslookup.c: how a path is cut into the place where its lookup starts and the path from
-- there. The path is the memory from its start on; it is changed in place.
pub mod Grammar
pub mod Reading
mod Tests
use mehrad.Base.{
  ℕ, zero, suc, ◌+◌, List, [], ◌∷◌, Outcome, ret, panic, ◌>>=◌, ◌==◌, if◌then◌else◌, set, drop,
  Bool, true, false, Option, none, some, Code, success, enoent,
}

-- What the loop of getdevice finds first.
pub data Mark : Type 0 where
  unmarked : Mark
  colon_at slash_at : ℕ → Mark

-- `for (i=0; path[i]; i++)`, from character `i` on.
unfoldable pub find_mark : List ℕ → ℕ → Outcome Mark
find_mark [] i = panic
find_mark (c ∷ path) i =
    let rest = find_mark path (i + 1) in
    if c == 0
    then ret unmarked
    else if c == b':'
    then ret (colon_at i)
    else if c == b'/'
    then ret (slash_at i)
    else rest

-- Where the slashes from place `i` on end.
unfoldable pub skip_slashes : List ℕ → ℕ → Outcome ℕ
skip_slashes [] i = panic
skip_slashes (c ∷ path) i =
    let rest = skip_slashes path (i + 1) in if c == b'/' then rest else ret i

-- Whose vnode getdevice asks for: the current directory's, that of the root of a device, by the
-- memory that holds the name, that of the boot file system, or of the current one.
pub data Start : Type 0 where
  current_directory boot_root current_root : Start
  device_root : List ℕ → Start

-- What getdevice returns: its result, the path as it is left, and, if it succeeds, which vnode to start from
-- and where in the path the subpath begins.
abbrev pub Got : Type 0
Got = Code × List ℕ × Option (Start × ℕ)

abbrev pub got : Code → List ℕ → Start → ℕ → Got
got success path start k = (success, path, some (start, k))
got c path start k = (c, path, none)

-- What getdevice asks: whether there is a boot file system, what vfs_getcurdir returns, whether the current
-- directory has a file system, and what vfs_getroot returns for the name that stands in memory.
module _ (bootfs : Bool) (getcurdir : Code) (has_fs : Bool) (getroot : List ℕ → Code) where
  -- `/path` and `:path`, whose subpath begins after the slashes.
  abbrev pub from_boot : Bool → List ℕ → Outcome Got
  from_boot true path = skip_slashes (drop 1 path) 1 >>= λ k. ret (got success path boot_root k)
  from_boot false path = ret (got enoent path boot_root 0)

  abbrev pub from_current : Code → Bool → List ℕ → Outcome Got
  from_current success true path =
      skip_slashes (drop 1 path) 1 >>= λ k. ret (got success path current_root k)
  from_current success false path = panic
  from_current c fs path = ret (got c path current_root 0)

  unfoldable pub getdevice : List ℕ → Outcome Got
  getdevice path = do
    mark ← find_mark path 0
    elim mark [
      | unmarked ↦ ret (got getcurdir path current_directory 0)
      | slash_at (suc i) ↦ ret (got getcurdir path current_directory 0)
      | colon_at (suc i) ↦
          let path' = set path (suc i) 0 in
          skip_slashes (drop (suc i + 1) path') (suc i + 1) >>= λ k.
          ret (got (getroot path') path' (device_root path') k)
      | slash_at zero ↦ from_boot bootfs path
      | colon_at zero ↦ from_current getcurdir has_fs path
    ]
