-- ===== src/Snprintf.antt =====
-- lib/libc/snprintf.c: formatting into a buffer, a client of the formatter. The buffer is the memory
-- from `buf` on, whatever its size.
pub mod Buffer
mod Tests
use mehrad.Base.{
  ℕ, suc, zero, ◌+◌, ◌-◌, Bool, List, [], ◌∷◌, Outcome, ret, ◌>>=◌, ltb, ◌==◌, if◌then◌else◌,
}
use mehrad.Printf.{vprintf}

-- `SNP`
pub record Snp : Type 0 where
  pub buf : ℕ → ℕ
  pub buflen : ℕ
  pub bufpos : ℕ

abbrev pub store_char : (ℕ → ℕ) → ℕ → ℕ → ℕ → ℕ
store_char buf pos c i = if i == pos then c else buf i

-- The body of the loop of __snprintf_send.
abbrev pub send_char : Snp → ℕ → Snp
send_char snp c =
    if ltb snp.bufpos snp.buflen
    then record snp { buf = store_char snp.buf snp.bufpos c; bufpos = snp.bufpos + 1 }
    else snp

unfoldable pub snprintf_send : Snp → List ℕ → Snp
snprintf_send snp [] = snp
snprintf_send snp (c ∷ text) = snprintf_send (send_char snp c) text

unfoldable pub vsnprintf : (ℕ → List ℕ) → (ℕ → ℕ) → ℕ → List ℕ → List ℕ → Outcome (ℕ × (ℕ → ℕ))
vsnprintf strings buf len fmt args = do
  let snp : Snp = record { buf = buf; buflen = if len == 0 then 0 else len - 1; bufpos = 0 }
  (chars, snp') ← vprintf snprintf_send strings snp fmt args
  ret (chars, if ltb 0 len then store_char snp'.buf snp'.bufpos 0 else snp'.buf)
