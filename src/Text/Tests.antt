-- ===== src/Text/Tests.antt =====
-- Runs of the string functions, and the theorems at concrete inputs.
use mehrad.Base.{ℕ, ◌≡◌, refl, List, [], ◌∷◌, some, none, ret, arith}
use mehrad.Base.Int.{negsuc}
use mehrad.Text.{strcmp, strchr, atoi, atoi_signed, skip_blanks, read_digits}
use mehrad.Text.Strings.{IsText, terminated}
use mehrad.Text.Compare.{Compared, strcmp_lem}
use mehrad.Text.Number.{IsDecimal, atoi-printf}
use mehrad.Text.Token.{strtok_r, next_token, advance}
use mehrad.Text.Call.{FindsWord, strtok_r_lem}
use mehrad.Printf.Sink.{text_of}

abbrev abba : List ℕ
abba = b'a' ∷ b'b' ∷ b'b' ∷ b'a' ∷ []

-- " ls -l"
abbrev command : List ℕ
command = b' ' ∷ b'l' ∷ b's' ∷ b' ' ∷ b'-' ∷ b'l' ∷ []

abbrev blank : List ℕ
blank = b' ' ∷ []

atoi_run : atoi (b' ' ∷ b'-' ∷ b'1' ∷ b'2' ∷ b'x' ∷ 0 ∷ []) ≡ ret 4294967284
unfolding atoi atoi_signed skip_blanks read_digits strchr
atoi_run = refl

strtok_r_run :
    strtok_r (some 0) (terminated blank []) (terminated command []) none
    ≡ ret (some 1, b' ' ∷ b'l' ∷ b's' ∷ 0 ∷ b'-' ∷ b'l' ∷ 0 ∷ [], some 4)
unfolding strtok_r next_token advance strchr
strtok_r_run = refl

strcmp_shorter : strcmp (λ c. c) (b'a' ∷ 0 ∷ []) (b'a' ∷ b'b' ∷ 0 ∷ []) ≡ ret (negsuc 0)
unfolding strcmp
strcmp_shorter = refl

abba-IsText : IsText abba
abba-IsText = omega arith

command-IsText : IsText command
command-IsText = omega arith

strcmp_lem_example :
    Compared (λ c. c) abba command (strcmp (λ c. c) (terminated abba []) (terminated command []))
strcmp_lem_example = strcmp_lem (λ c. c) (λ x y e. e) abba command [] [] abba-IsText command-IsText

atoi-printf_example :
    (t : List ℕ) × (text_of (λ p. []) (b'%' ∷ b'd' ∷ []) (4294967254 ∷ []) ≡ ret t)
    × IsDecimal 4294967254 t
    × (atoi (terminated t []) ≡ ret 4294967254)
atoi-printf_example = atoi-printf (λ p. []) 4294967254 [] (omega arith)

strtok_r_lem_example :
    FindsWord blank [] command []
      (strtok_r (some 0) (terminated blank []) (terminated command []) none)
    × FindsWord blank [] command []
        (strtok_r none (terminated blank []) (terminated command []) (some 0))
strtok_r_lem_example = strtok_r_lem blank [] [] [] (omega arith) command none command-IsText
