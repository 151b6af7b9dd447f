-- ===== src/Printf/Sink.antt =====
-- lib/libc/__printf.c, __vprintf: the text that a format makes of its arguments, and clients of any kind.
use mehrad.Base.{
  ℕ, ◌+◌, ◌%◌, ◌≡◌, refl, ap, ◌∙◌, sym, Bool, true, false, not, ◌&&◌, List, [], ◌∷◌, ◌++◌, Outcome,
  ret, panic, ◌>>=◌, ◌>>◌, assert, ◌==◌, if◌then◌else◌, length, length-append, arith,
}
use mathlib.Core.List.{append_assoc, append-nil}
use mehrad.Printf.{
  Pf, word, pf_print, pf_printstuff, pf_endfield, pf_modifier, pf_getnum, pf_setbase, pf_printnum,
  pf_send, va_arg, next_word, char_text, null_text, modifiers, integer_types, one_of, base_prefix,
  send_all, start, vprintf, number_text,
}
use mehrad.Printf.Field.{Sink, printstuff_lem}

-- The client that collects the text.
abbrev pub collect : Sink (List ℕ)
collect = record { sendfunc = λ c xs. c ++ xs; send-nil = append-nil; send-append = append_assoc }

-- The text that a format makes of its arguments.
unfoldable pub text_of : (ℕ → List ℕ) → List ℕ → List ℕ → Outcome (List ℕ)
text_of strings format args = do
  pf ← send_all (λ c xs. c ++ xs) strings (start [] args) format
  ret pf.clientdata

module _ {C : Type 0} (sink : Sink C) (c₀ : C) where
  open sink use {sendfunc, send-nil, send-append}

  -- The client's state after what was collected so far.
  via : Pf (List ℕ) → Pf C
  via pf = record {
    clientdata = sendfunc c₀ pf.clientdata;
    ap = pf.ap;
    charcount = length pf.clientdata % word;
    in_pct = pf.in_pct;
    size = pf.size;
    num = pf.num;
    sign = pf.sign;
    spacing = pf.spacing;
    rightspc = pf.rightspc;
    fillchar = pf.fillchar;
    base = pf.base;
    baseprefix = pf.baseprefix;
    altformat = pf.altformat;
  }

  -- What an operation on the collecting client comes to.
  abbrev through : Outcome (Pf (List ℕ)) → Outcome (Pf C)
  through (ret pf) = ret (via pf)
  through panic = panic

  print-via :
      (pf : Pf (List ℕ)) (xs : List ℕ)
      → pf_print sendfunc (via pf) xs ≡ via (pf_print (λ c ys. c ++ ys) pf xs)
  unfolding via pf_print
  print-via pf xs =
      let e : (length pf.clientdata % word + length xs) % word
          ≡ length (pf.clientdata ++ xs) % word =
        omega (arith, length-append pf.clientdata xs) in
      λ i. record (via pf) { clientdata = send-append c₀ pf.clientdata xs i; charcount = e i }

  printstuff-via :
      (pf : Pf (List ℕ)) (p q t : List ℕ)
      → pf_printstuff sendfunc (via pf) p q t ≡ via (pf_printstuff (λ c ys. c ++ ys) pf p q t)
  unfolding via
  printstuff-via pf p q t =
      printstuff_lem sink (via pf) p q t
      ∙ print-via pf _
      ∙ ap via (sym (printstuff_lem collect pf p q t))

  endfield-via : (pf : Pf (List ℕ)) → pf_endfield (via pf) ≡ via (pf_endfield pf)
  unfolding via pf_endfield
  endfield-via pf = refl

  through_if :
      (b : Bool) (x y : Outcome (Pf (List ℕ)))
      → (if b then through x else through y) ≡ through (if b then x else y)
  through_if true x y = refl
  through_if false x y = refl

  modifier-via : (pf : Pf (List ℕ)) (ch : ℕ) → pf_modifier (via pf) ch ≡ through (pf_modifier pf ch)
  unfolding via pf_modifier
  modifier-via pf ch = ground arith

  getnum-via : (pf : Pf (List ℕ)) (ch : ℕ) → pf_getnum (via pf) ch ≡ through (pf_getnum pf ch)
  unfolding via pf_getnum
  getnum-via pf ch = ground arith

  setbase-via : (pf : Pf (List ℕ)) (ch : ℕ) → pf_setbase (via pf) ch ≡ via (pf_setbase pf ch)
  unfolding via pf_setbase
  setbase-via pf ch = refl

  bind-via :
      (m : Outcome (Pf (List ℕ))) (f : Pf C → Outcome (Pf C))
      (g : Pf (List ℕ) → Outcome (Pf (List ℕ)))
      → ((q : Pf (List ℕ)) → f (via q) ≡ through (g q))
      → (through m >>= f) ≡ through (m >>= g)
  bind-via (ret q) f g h = h q
  bind-via panic f g h = refl

  if-via :
      (b : Bool) {x y : Outcome (Pf C)} (x' y' : Outcome (Pf (List ℕ)))
      → x ≡ through x'
      → y ≡ through y'
      → (if b then x else y) ≡ through (if b then x' else y')
  if-via true x' y' p q = p
  if-via false x' y' p q = q

  printnum-via :
      (pf : Pf (List ℕ))
      → pf_printnum sendfunc (via pf) ≡ through (pf_printnum (λ c ys. c ++ ys) pf)
  unfolding via pf_printnum
  printnum-via pf = go (number_text pf.base pf.num)
    where
      go :
          (r : Outcome (List ℕ))
          → (r >>= λ x. ret (
              pf_printstuff sendfunc
                (via pf)
                (if pf.sign then b'-' ∷ [] else [])
                (base_prefix pf)
                x))
            ≡ through (
                r >>= λ x. ret (
                  pf_printstuff
                    (λ c ys. c ++ ys)
                    pf
                    (if pf.sign then b'-' ∷ [] else [])
                    (base_prefix pf)
                    x))
      go panic = refl
      go (ret x) = ap ret (printstuff-via pf _ _ x)

  -- A field that prints one argument as a text.
  arg-via :
      (pf : Pf (List ℕ)) (text : ℕ → List ℕ)
      → (va_arg (via pf) >>= λ x. ret (pf_endfield (pf_printstuff sendfunc x.1 [] [] (text x.0))))
        ≡ through (
            va_arg pf >>= λ x.
            ret (pf_endfield (pf_printstuff (λ c ys. c ++ ys) x.1 [] [] (text x.0))))
  unfolding via
  arg-via pf text = go pf.ap
    where
      go :
          (ws : List ℕ)
          → (next_word ws (via pf) >>= λ x.
              ret (pf_endfield (pf_printstuff sendfunc x.1 [] [] (text x.0))))
            ≡ through (
                next_word ws pf >>= λ x.
                ret (pf_endfield (pf_printstuff (λ c ys. c ++ ys) x.1 [] [] (text x.0))))
      go [] = refl
      go (w ∷ r) = ap ret (
          ap pf_endfield (printstuff-via (record pf { ap = r }) [] [] (text w))
          ∙ endfield-via (pf_printstuff (λ c ys. c ++ ys) (record pf { ap = r }) [] [] (text w)))

  assert-via :
      (b : Bool) {x : Outcome (Pf C)} (x' : Outcome (Pf (List ℕ)))
      → x ≡ through x'
      → (assert b >> x) ≡ through (assert b >> x')
  assert-via true x' p = p
  assert-via false x' p = refl

  -- A field that prints a number.
  number-via :
      (pf : Pf (List ℕ)) (ch : ℕ)
      → (pf_getnum (via pf) ch >>= λ q.
          pf_printnum sendfunc (pf_setbase q ch) >>= λ r. ret (pf_endfield r))
        ≡ through (
            pf_getnum pf ch >>= λ q.
            pf_printnum (λ c ys. c ++ ys) (pf_setbase q ch) >>= λ r. ret (pf_endfield r))
  number-via pf ch =
      ap
        (λ (m : Outcome (Pf C)).
          m >>= λ q. pf_printnum sendfunc (pf_setbase q ch) >>= λ r. ret (pf_endfield r))
        (getnum-via pf ch)
      ∙ bind-via (pf_getnum pf ch)
          (λ q. pf_printnum sendfunc (pf_setbase q ch) >>= λ r. ret (pf_endfield r))
          (λ q. pf_printnum (λ c ys. c ++ ys) (pf_setbase q ch) >>= λ r. ret (pf_endfield r))
          (λ q.
            ap (λ (r : Pf C). pf_printnum sendfunc r >>= λ t. ret (pf_endfield t))
              (setbase-via q ch)
            ∙ ap (λ (m : Outcome (Pf C)). m >>= λ t. ret (pf_endfield t))
                (printnum-via (pf_setbase q ch))
            ∙ bind-via (pf_printnum (λ c ys. c ++ ys) (pf_setbase q ch)) (λ t. ret (pf_endfield t))
                (λ t. ret (pf_endfield t)) (λ t. ap ret (endfield-via t)))

  abbrev counted : Pf C → Outcome (ℕ × C)
  counted pf = ret (pf.charcount, pf.clientdata)

  module _ (strings : ℕ → List ℕ) where
    send-via :
        (pf : Pf (List ℕ)) (ch : ℕ)
        → pf_send sendfunc strings (via pf) ch ≡ through (pf_send (λ c ys. c ++ ys) strings pf ch)
    unfolding via pf_send
    send-via pf ch = assert-via (not (ch == 0)) _ (
        if-via (not pf.in_pct && not (ch == b'%')) _ _ (ap ret (print-via pf (ch ∷ []))) (
          if-via (not pf.in_pct) _ _ refl (
            if-via (one_of modifiers ch) _ _ (modifier-via pf ch) (
              if-via (one_of integer_types ch) _ _ (number-via pf ch) (
                if-via (ch == b's') _ _
                  (arg-via pf (λ str. if str == 0 then null_text else strings str))
                  (if-via (ch == b'c') _ _ (arg-via pf char_text) (
                    ap ret (
                      ap pf_endfield (printstuff-via pf [] [] (ch ∷ []))
                      ∙ endfield-via (pf_printstuff (λ c ys. c ++ ys) pf [] [] (ch ∷ []))))))))))

    send_all-via :
        (pf : Pf (List ℕ)) (format : List ℕ)
        → send_all sendfunc strings (via pf) format
          ≡ through (send_all (λ c ys. c ++ ys) strings pf format)
    unfolding send_all
    send_all-via pf [] = refl
    send_all-via pf (ch ∷ format) =
        ap (λ (m : Outcome (Pf C)). m >>= λ q. send_all sendfunc strings q format) (send-via pf ch)
        ∙ bind-via (pf_send (λ c ys. c ++ ys) strings pf ch)
            (λ q. send_all sendfunc strings q format)
            (λ q. send_all (λ c ys. c ++ ys) strings q format) (λ q. send_all-via q format)

    start-via : (args : List ℕ) → start c₀ args ≡ via (start [] args)
    unfolding via start
    start-via args = λ i. record (start c₀ args) { clientdata = sym (send-nil c₀) i }

    -- For a client to which it does not matter how a text is cut, __vprintf sends one text, which
    -- depends only on the format and its arguments, and returns its length as an int; it panics
    -- exactly if there is no such text.
    pub vprintf_lem :
        (format args : List ℕ)
        → vprintf sendfunc strings c₀ format args
          ≡ (text_of strings format args >>= λ t. ret (length t % word, sendfunc c₀ t))
    unfolding vprintf text_of via
    vprintf_lem format args =
        ap (λ (q : Pf C). send_all sendfunc strings q format >>= counted) (start-via args)
        ∙ ap (λ (m : Outcome (Pf C)). m >>= counted) (send_all-via (start [] args) format)
        ∙ go (send_all (λ c ys. c ++ ys) strings (start [] args) format)
      where
        go :
            (m : Outcome (Pf (List ℕ)))
            → (through m >>= counted)
              ≡ ((m >>= λ pf. ret pf.clientdata) >>= λ t. ret (length t % word, sendfunc c₀ t))
        go (ret pf) = refl
        go panic = refl
