-- ===== src/Vfs/Tests.antt =====
-- The theorem about kern/fs/vfs/vfslookup.c at a concrete path.
use mehrad.Base.{
  Code, success, enoent, some, none, true, false, ℕ, List, [], ◌∷◌, ◌≡◌, ret, refl, arith,
}
use mehrad.Text.Strings.{IsText, terminated}
use mehrad.Vfs.{getdevice, find_mark, skip_slashes, device_root}
use mehrad.Vfs.Reading.{Reads, getdevice_lem}

-- "lhd0:/a"
abbrev on_disk : List ℕ
on_disk = b'l' ∷ b'h' ∷ b'd' ∷ b'0' ∷ b':' ∷ b'/' ∷ b'a' ∷ []

on_disk-IsText : IsText on_disk
on_disk-IsText = omega arith

-- The colon becomes a NUL, and the subpath begins after the slash.
abbrev cut_path : List ℕ
cut_path = b'l' ∷ b'h' ∷ b'd' ∷ b'0' ∷ 0 ∷ b'/' ∷ b'a' ∷ 0 ∷ []

-- There is no boot file system, and the device is there.
abbrev known : List ℕ → Code
known name = success

on_disk-getdevice :
    getdevice false enoent true known (terminated on_disk [])
    ≡ ret (success, cut_path, some (device_root cut_path, 6))
unfolding getdevice find_mark skip_slashes
on_disk-getdevice = refl

no_boot : getdevice false enoent true known (b'/' ∷ 0 ∷ []) ≡ ret (enoent, b'/' ∷ 0 ∷ [], none)
unfolding getdevice find_mark
no_boot = refl

getdevice_lem_example : Reads false enoent true known on_disk []
getdevice_lem_example = getdevice_lem false enoent true known on_disk [] on_disk-IsText
