-- ===== src/Snprintf/Tests.antt =====
-- vsnprintf at a concrete input.
use mehrad.Base.{ℕ, ◌%◌, ◌≡◌, ◌^◌, refl, List, [], ◌∷◌, ret, length}
use mehrad.Printf.{pf_send, pf_print, pf_endfield, send_all, start}
use mehrad.Printf.Sink.{text_of}
use mehrad.Snprintf.{vsnprintf}
use mehrad.Snprintf.Buffer.{IsPrinted, vsnprintf_lem}

abbrev no_strings : ℕ → List ℕ
no_strings p = []

abbrev hello : List ℕ
hello = b'h' ∷ b'e' ∷ b'l' ∷ b'l' ∷ b'o' ∷ []

hello_text : text_of no_strings hello [] ≡ ret hello
unfolding text_of send_all start pf_send pf_print pf_endfield
hello_text = refl

-- Five characters for a buffer of four bytes.
vsnprintf_lem_example :
    (buf' : ℕ → ℕ) × (vsnprintf no_strings (λ i. 255) 4 hello []
      ≡ ret (length hello % 2 ^ 32, buf'))
    × IsPrinted (λ i. 255) 4 hello buf'
vsnprintf_lem_example = vsnprintf_lem no_strings (λ i. 255) 4 hello [] hello hello_text
