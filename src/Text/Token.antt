-- ===== src/Text/Token.antt =====
-- strtok_r: the words of a string, one call each. The string's memory is `mem`, and pointers into it
-- are offsets; `context` is none for NULL.
use mehrad.Base.{
  ℕ, zero, suc, ◌+◌, Bool, true, false, not, List, Option, none, some, Outcome, ret, panic, ◌>>=◌,
  fetch, ◌==◌, if◌then◌else◌, get_elem?, length,
}
use mehrad.Memory.{store}
use mehrad.Text.{strchr}

-- Whether a pointer that strchr handed back is not NULL.
abbrev pub is_found : Option ℕ → Bool
is_found none = false
is_found (some i) = true

-- `*p != 0 && strchr(seps, *p)`, and `*p != 0 && !strchr(seps, *p)`.
abbrev pub is_sep : List ℕ → ℕ → Outcome Bool
is_sep seps c = if c == 0 then ret false else (do at ← strchr seps c; ret (is_found at))

abbrev pub in_word : List ℕ → ℕ → Outcome Bool
in_word seps c = if c == 0 then ret false else (do at ← strchr seps c; ret (not (is_found at)))

-- `while (test(*p)) p++;`, with `fuel` bytes left of the memory.
unfoldable pub advance : (ℕ → Outcome Bool) → List ℕ → ℕ → ℕ → Outcome ℕ
advance test mem p zero = panic
advance test mem p (suc fuel) =
    let next = advance test mem (p + 1) fuel in
    (do c ← fetch (get_elem? mem p); t ← test c; if t then next else ret p)

-- The word, the memory and the context that the call leaves.
unfoldable pub next_token : List ℕ → List ℕ → ℕ → Outcome (Option ℕ × List ℕ × Option ℕ)
next_token seps mem start = do
  head ← advance (is_sep seps) mem start (length mem)
  c ← fetch (get_elem? mem head)
  (if c == 0 then ret (none, mem, none) else (do
    tail ← advance (in_word seps) mem head (length mem)
    e ← fetch (get_elem? mem tail)
    (if e == 0
        then ret (some head, mem, none)
        else (do mem' ← store mem tail 0; ret (some head, mem', some (tail + 1))))))

unfoldable pub strtok_r :
    Option ℕ → List ℕ → List ℕ → Option ℕ → Outcome (Option ℕ × List ℕ × Option ℕ)
strtok_r (some string) seps mem context = next_token seps mem string
strtok_r none seps mem none = ret (none, mem, none)
strtok_r none seps mem (some start) = next_token seps mem start
