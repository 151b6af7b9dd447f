-- ===== src/Printf/Tests.antt =====
-- Runs of lib/libc/__printf.c, and the theorems at concrete inputs.
use mehrad.Base.{ℕ, ◌≡◌, refl, true, false, List, [], ◌∷◌, ret, panic, arith, inr}
use mehrad.Printf.{
  Pf, intsz, pf_print, pf_printstuff, pf_fill, pf_send, pf_getnum, pf_setbase, pf_printnum,
  pf_endfield, pf_modifier, send_all, start, number_text, print_digits,
}
use mehrad.Printf.Number.{Writes, number_text_lem}
use mehrad.Printf.Field.{layout, printstuff_lem}
use mehrad.Printf.Sink.{collect, text_of}

-- "ok" wherever a pointer points.
abbrev ok_strings : ℕ → List ℕ
ok_strings p = b'o' ∷ b'k' ∷ []

-- "%5d|%-4s|%#x"
abbrev row_format : List ℕ
row_format = b'%' ∷ b'5' ∷ b'd' ∷ b'|' ∷ b'%' ∷ b'-' ∷ b'4' ∷ b's' ∷ b'|' ∷ b'%' ∷ b'#' ∷ b'x' ∷ []

-- "  -42|ok  |0xff"
row_text :
    text_of ok_strings row_format (4294967254 ∷ 8192 ∷ 255 ∷ [])
    ≡ ret (
        b' ' ∷ b' ' ∷ b'-' ∷ b'4' ∷ b'2' ∷ b'|' ∷ b'o' ∷ b'k' ∷ b' ' ∷ b' ' ∷ b'|' ∷ b'0' ∷ b'x'
        ∷ b'f' ∷ b'f' ∷ [])
unfolding text_of send_all start pf_send pf_modifier pf_getnum pf_setbase pf_printnum pf_printstuff
    pf_fill pf_print pf_endfield number_text print_digits
row_text = refl

-- A width that pads with zeros pads with them on the right too: "%-05d" prints 42 as 42000.
zeros_on_the_right :
    text_of ok_strings (b'%' ∷ b'-' ∷ b'0' ∷ b'5' ∷ b'd' ∷ []) (42 ∷ [])
    ≡ ret (b'4' ∷ b'2' ∷ b'0' ∷ b'0' ∷ b'0' ∷ [])
unfolding text_of send_all start pf_send pf_modifier pf_getnum pf_setbase pf_printnum pf_printstuff
    pf_fill pf_print pf_endfield number_text print_digits
zeros_on_the_right = refl

missing_argument : text_of ok_strings (b'%' ∷ b'd' ∷ []) [] ≡ panic
unfolding text_of send_all start pf_send pf_getnum
missing_argument = refl

-- A field of eight characters, with zeros.
abbrev zero_field : Pf (List ℕ)
zero_field = record {
  clientdata = [];
  ap = [];
  charcount = 0;
  in_pct = true;
  size = intsz;
  num = 0;
  sign = false;
  spacing = 8;
  rightspc = false;
  fillchar = b'0';
  base = 10;
  baseprefix = false;
  altformat = false;
}

printstuff_lem_example :
    pf_printstuff (λ c xs. collect.sendfunc c xs) zero_field (b'-' ∷ []) [] (b'7' ∷ [])
    ≡ pf_print
        (λ c xs. collect.sendfunc c xs)
        zero_field
        (layout 8 false b'0' (b'-' ∷ []) [] (b'7' ∷ []))
printstuff_lem_example = printstuff_lem collect zero_field (b'-' ∷ []) [] (b'7' ∷ [])

number_text_lem_example : (t : List ℕ) × (number_text 16 48879 ≡ ret t) × Writes 16 48879 t
number_text_lem_example = number_text_lem 16 48879 (inr (inr refl)) (omega arith)
