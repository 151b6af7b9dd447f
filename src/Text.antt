-- ===== src/Text.antt =====
-- Strings of lib/libc: strlen.c, strcmp.c, strchr.c, strrchr.c, strcpy.c, strcat.c, atoi.c and
-- strtok_r.c. A pointer is the memory from there on, as a list of bytes; to run off its end is a
-- panic. A pointer that is handed back is the offset from the one that was given.
pub mod Strings
pub mod Compare
pub mod Number
pub mod Token
pub mod Words
pub mod Call
mod Tests
use mehrad.Base.{
  ℕ, zero, suc, ◌+◌, ◌-◌, ◌*◌, ◌%◌, ◌^◌, Bool, true, false, not, ◌&&◌, ◌||◌, List, [], ◌∷◌, Option,
  none, some, Outcome, ret, panic, ◌>>=◌, ltb, ◌==◌, if◌then◌else◌, fetch, get_elem?,
}
use mehrad.Base.Int.{ℤ, pos, negsuc}
use mehrad.Memory.{store}
use mehrad.Printf.{word}

unfoldable pub strlen : List ℕ → Outcome ℕ
strlen [] = panic
strlen (c ∷ s) = let rest = strlen s in if c == 0 then ret 0 else (do n ← rest; ret (n + 1))

-- `value` orders the chars, which C leaves to the compiler.
unfoldable pub strcmp : (ℕ → ℕ) → List ℕ → List ℕ → Outcome ℤ
strcmp value [] b = panic
strcmp value (x ∷ a) [] = panic
strcmp value (x ∷ a) (y ∷ b) =
    let next = strcmp value a b in
    if not (x == 0) && x == y
    then next
    else if ltb (value y) (value x)
    then ret (pos 1)
    else if x == y
    then ret (pos 0)
    else ret (negsuc 0)

-- The place in the string, from the place after its first character.
abbrev pub one_on : Option ℕ → Option ℕ
one_on none = none
one_on (some i) = some (i + 1)

unfoldable pub strchr : List ℕ → ℕ → Outcome (Option ℕ)
strchr [] ch = panic
strchr (c ∷ s) ch =
    let rest = strchr s ch in
    if c == 0
    then (if c == ch then ret (some 0) else ret none)
    else if c == ch
    then ret (some 0)
    else (do found ← rest; ret (one_on found))

-- The loop of strrchr, with `i` characters left to look at.
unfoldable pub scan_back : List ℕ → ℕ → ℕ → Outcome (Option ℕ)
scan_back s ch zero = ret none
scan_back s ch (suc i) =
    let rest = scan_back s ch i in
    (do c ← fetch (get_elem? s i); if c == ch then ret (some i) else rest)

unfoldable pub strrchr : List ℕ → ℕ → Outcome (Option ℕ)
strrchr s ch = do n ← strlen s; scan_back s ch (n + 1)

-- strcpy, from cell `i` of the destination on.
unfoldable pub copy_string : List ℕ → List ℕ → ℕ → Outcome (List ℕ)
copy_string dest [] i = panic
copy_string dest (c ∷ src) i =
    let last = store dest i 0 in
    let more = (do dest' ← store dest i c; copy_string dest' src (i + 1)) in
    if c == 0 then last else more

unfoldable pub strcpy : List ℕ → List ℕ → Outcome (List ℕ)
strcpy dest src = copy_string dest src 0

unfoldable pub strcat : List ℕ → List ℕ → Outcome (List ℕ)
strcat dest src = do offset ← strlen dest; copy_string dest src offset

-- "0123456789"
abbrev pub decimal_digits : List ℕ
decimal_digits = b'0' ∷ b'1' ∷ b'2' ∷ b'3' ∷ b'4' ∷ b'5' ∷ b'6' ∷ b'7' ∷ b'8' ∷ b'9' ∷ 0 ∷ []

unfoldable pub skip_blanks : List ℕ → List ℕ
skip_blanks [] = []
skip_blanks (c ∷ s) = let rest = skip_blanks s in if c == b' ' || c == b'\t' then rest else c ∷ s

-- The digits, into `val`; it ends at the first other character.
unfoldable pub read_digits : ℕ → List ℕ → Outcome ℕ
read_digits val [] = panic
read_digits val (c ∷ s) =
    let stop = ret val in
    let digit = (λ (d : ℕ). read_digits ((val * 10 + d) % word) s) in
    if c == 0
    then stop
    else (do found ← strchr decimal_digits c; elim found [ none ↦ stop | some d ↦ digit d ])

unfoldable pub atoi_signed : List ℕ → Outcome ℕ
atoi_signed [] = panic
atoi_signed (c ∷ s) =
    if c == b'-'
    then (do val ← read_digits 0 s; ret ((word - val) % word))
    else if c == b'+'
    then read_digits 0 s
    else read_digits 0 (c ∷ s)

-- The int that is returned, as its 32-bit pattern.
unfoldable pub atoi : List ℕ → Outcome ℕ
atoi s = atoi_signed (skip_blanks s)
