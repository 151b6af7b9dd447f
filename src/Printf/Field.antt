-- ===== src/Printf/Field.antt =====
-- How __pf_printstuff lays out a field: in what is sent, whatever the sizes of the pieces.
use mehrad.Base.{
  ℕ, zero, suc, ◌+◌, ◌-◌, ◌%◌, ◌^◌, ◌<◌, ◌≡◌, refl, ap, ◌∙◌, sym, Bool, true, false, not, ◌&&◌,
  List, ret, [], ◌∷◌, ◌++◌, max, ltb, ◌==◌, if◌then◌else◌, length, length-append, length-replicate,
  replicate, arith, Bool-cases, inl, inr,
}
use mathlib.Core.List.{append_assoc, append-nil}
use mehrad.Printf.{
  Pf, word, exceeds, pf_print, pf_fill, fill_if, pf_printstuff, pf_printnum, number_text,
  base_prefix,
}

-- A client to which it does not matter how a text is cut in pieces.
pub record Sink (C : Type 0) : Type 0 where
  pub sendfunc : C → List ℕ → C
  pub send-nil : (c : C) → sendfunc c [] ≡ c
  pub send-append : (c : C) (xs ys : List ℕ) → sendfunc (sendfunc c xs) ys ≡ sendfunc c (xs ++ ys)

-- The number of fill characters, for a text of `len` characters.
abbrev pub fill_count : ℕ → ℕ → ℕ
fill_count spacing len = if exceeds spacing len then spacing - len else 0

-- The field: spaces go before everything, zeros between the prefixes and the rest, and what pads
-- on the right goes last.
abbrev pub laid_out : ℕ → Bool → Bool → ℕ → List ℕ → List ℕ → List ℕ → List ℕ
laid_out n rightspc zeros fillchar prefix prefix2 stuff =
    if rightspc
    then prefix ++ (prefix2 ++ (stuff ++ replicate n fillchar))
    else if zeros
    then prefix ++ (prefix2 ++ (replicate n fillchar ++ stuff))
    else replicate n fillchar ++ (prefix ++ (prefix2 ++ stuff))

abbrev pub layout : ℕ → Bool → ℕ → List ℕ → List ℕ → List ℕ → List ℕ
layout spacing rightspc fillchar prefix prefix2 stuff =
    let len = length prefix + length prefix2 + length stuff in
    laid_out (fill_count spacing len) rightspc (fillchar == b'0') fillchar prefix prefix2 stuff

module _ {C : Type 0} (sink : Sink C) where
  open sink use {sendfunc, send-nil, send-append}

  pub print-print :
      (pf : Pf C) (xs ys : List ℕ)
      → pf_print sendfunc (pf_print sendfunc pf xs) ys ≡ pf_print sendfunc pf (xs ++ ys)
  unfolding pf_print
  print-print pf xs ys =
      let e : ((pf.charcount + length xs) % word + length ys) % word
          ≡ (pf.charcount + length (xs ++ ys)) % word =
        omega (arith, length-append xs ys) in
      λ i. record pf { clientdata = send-append pf.clientdata xs ys i; charcount = e i }

  fill-print :
      (pf : Pf C) (xs : List ℕ) (n : ℕ)
      → pf_fill sendfunc (pf_print sendfunc pf xs) n
        ≡ pf_print sendfunc pf (xs ++ replicate n pf.fillchar)
  unfolding pf_fill pf_print
  fill-print pf xs zero = ap (pf_print sendfunc pf) (sym (append-nil xs))
  fill-print pf xs (suc n) =
      let f : List ℕ = pf.fillchar ∷ [] in
      ap (λ (q : Pf C). pf_fill sendfunc q n) (print-print pf xs f)
      ∙ fill-print pf (xs ++ f) n
      ∙ ap (pf_print sendfunc pf) (append_assoc xs f (replicate n pf.fillchar))

  fill-then-print :
      (pf : Pf C) (n : ℕ) (ys : List ℕ)
      → pf_print sendfunc (pf_fill sendfunc pf n) ys
        ≡ pf_print sendfunc pf (replicate n pf.fillchar ++ ys)
  unfolding pf_fill pf_print
  fill-then-print pf zero ys = refl
  fill-then-print pf (suc n) ys =
      let f : List ℕ = pf.fillchar ∷ [] in
      fill-then-print (pf_print sendfunc pf f) n ys
      ∙ print-print pf f (replicate n pf.fillchar ++ ys)

  -- The pieces of a field with no padding.
  three :
      (pf : Pf C) (xs ys zs : List ℕ)
      → pf_print sendfunc (pf_print sendfunc (pf_print sendfunc pf xs) ys) zs
        ≡ pf_print sendfunc pf (xs ++ (ys ++ zs))
  three pf xs ys zs =
      ap (λ (q : Pf C). pf_print sendfunc q zs) (print-print pf xs ys)
      ∙ print-print pf (xs ++ ys) zs
      ∙ ap (pf_print sendfunc pf) (append_assoc xs ys zs)

  -- What __pf_printstuff sends, once it has `spc`.
  abbrev stuffed : Bool → ℕ → Bool → Bool → Pf C → List ℕ → List ℕ → List ℕ → Pf C
  stuffed pads spc rightspc zeros pf prefix prefix2 stuff =
      let pf₁ = fill_if sendfunc (pads && (not rightspc && not zeros)) pf spc in
      let pf₂ = pf_print sendfunc (pf_print sendfunc pf₁ prefix) prefix2 in
      let pf₃ = fill_if sendfunc (pads && (not rightspc && zeros)) pf₂ spc in
      let pf₄ = pf_print sendfunc pf₃ stuff in fill_if sendfunc (pads && rightspc) pf₄ spc

  stuffed-bare :
      (n m : ℕ) (rightspc zeros : Bool) (pf : Pf C) (p q t : List ℕ)
      → m ≡ 0
      → stuffed false n rightspc zeros pf p q t
        ≡ pf_print sendfunc pf (laid_out m rightspc zeros pf.fillchar p q t)
  stuffed-bare n m true zeros pf p q t e =
      three pf p q t
      ∙ ap (λ (u : List ℕ). pf_print sendfunc pf (p ++ (q ++ u))) (sym (append-nil t))
      ∙ ap (λ (k : ℕ). pf_print sendfunc pf (p ++ (q ++ (t ++ replicate k pf.fillchar)))) (sym e)
  stuffed-bare n m false true pf p q t e =
      three pf p q t
      ∙ ap (λ (k : ℕ). pf_print sendfunc pf (laid_out k false true pf.fillchar p q t)) (sym e)
  stuffed-bare n m false false pf p q t e =
      three pf p q t
      ∙ ap (λ (k : ℕ). pf_print sendfunc pf (laid_out k false false pf.fillchar p q t)) (sym e)

  stuffed_lem :
      (n : ℕ) (rightspc zeros : Bool) (pf : Pf C) (p q t : List ℕ)
      → stuffed true n rightspc zeros pf p q t
        ≡ pf_print sendfunc pf (laid_out n rightspc zeros pf.fillchar p q t)
  stuffed_lem n true zeros pf p q t =
      ap (λ (r : Pf C). pf_fill sendfunc r n) (three pf p q t)
      ∙ fill-print pf (p ++ (q ++ t)) n
      ∙ ap (pf_print sendfunc pf) (
          append_assoc p (q ++ t) (replicate n pf.fillchar)
          ∙ ap (λ (u : List ℕ). p ++ u) (append_assoc q t (replicate n pf.fillchar)))
  stuffed_lem n false true pf p q t =
      ap (λ (r : Pf C). pf_print sendfunc (pf_fill sendfunc r n) t) (print-print pf p q)
      ∙ ap (λ (r : Pf C). pf_print sendfunc r t) (fill-print pf (p ++ q) n)
      ∙ print-print pf ((p ++ q) ++ replicate n pf.fillchar) t
      ∙ ap (pf_print sendfunc pf) (
          append_assoc (p ++ q) (replicate n pf.fillchar) t
          ∙ append_assoc p q (replicate n pf.fillchar ++ t))
  stuffed_lem n false false pf p q t =
      three (pf_fill sendfunc pf n) p q t ∙ fill-then-print pf n (p ++ (q ++ t))

  -- __pf_printstuff sends its field as if in one piece: the prefixes and the text, with as many
  -- fill characters as the text is shorter than the field; on the right if it is to be aligned
  -- left, else after the prefixes if the fill character is 0, else before everything.
  pub printstuff_lem :
      (pf : Pf C) (prefix prefix2 stuff : List ℕ)
      → pf_printstuff sendfunc pf prefix prefix2 stuff
        ≡ pf_print sendfunc pf (layout pf.spacing pf.rightspc pf.fillchar prefix prefix2 stuff)
  unfolding pf_printstuff
  printstuff_lem pf p q t =
      let n : ℕ = fill_count pf.spacing (length p + length q + length t) in
      elim (Bool-cases (ltb 0 n)) [
        | inl e ↦
            ap (λ (b : Bool). stuffed b n pf.rightspc (pf.fillchar == b'0') pf p q t) e
            ∙ stuffed_lem n pf.rightspc (pf.fillchar == b'0') pf p q t
        | inr e ↦
            ap (λ (b : Bool). stuffed b n pf.rightspc (pf.fillchar == b'0') pf p q t) e
            ∙ stuffed-bare n n pf.rightspc (pf.fillchar == b'0') pf p q t (ground arith)
      ]

-- A number is sent as a field too, with its sign and the prefix of its base.
pub printnum_lem :
    {C : Type 0} (sink : Sink C) (pf : Pf C) (t : List ℕ)
    → number_text pf.base pf.num ≡ ret t
    → pf_printnum (sink.sendfunc) pf
      ≡ ret (
          pf_print (sink.sendfunc) pf (
            layout pf.spacing pf.rightspc pf.fillchar
              (if pf.sign then b'-' ∷ [] else [])
              (base_prefix pf)
              t))
unfolding pf_printnum
printnum_lem sink pf t e =
    rw e (ap ret (printstuff_lem sink pf (if pf.sign then b'-' ∷ [] else []) (base_prefix pf) t))

lengths : (p q t : List ℕ) → length (p ++ (q ++ t)) ≡ length p + (length q + length t)
lengths p q t = omega (arith, length-append p (q ++ t), length-append q t)

length-laid_out :
    (n fillchar : ℕ) (rightspc zeros : Bool) (p q t : List ℕ)
    → length (laid_out n rightspc zeros fillchar p q t) ≡ n + length (p ++ (q ++ t))
length-laid_out n c true zeros p q t =
    let r = length-replicate n c in
    omega (arith, lengths p q t, lengths p q (t ++ replicate n c), length-append t (replicate n c))
length-laid_out n c false true p q t =
    let r = length-replicate n c in
    omega (arith, lengths p q t, lengths p q (replicate n c ++ t), length-append (replicate n c) t)
length-laid_out n c false false p q t =
    let r = length-replicate n c in
    omega (arith, lengths p q t, length-append (replicate n c) (p ++ (q ++ t)))

-- A field is as wide as its text or the width that was asked for, whichever is more.
pub length-layout :
    (spacing fillchar : ℕ) (rightspc : Bool) (p q t : List ℕ)
    → spacing < 2 ^ 31
    → length (layout spacing rightspc fillchar p q t) ≡ max spacing (length (p ++ (q ++ t)))
length-layout spacing fillchar rightspc p q t h =
    let n : ℕ = fill_count spacing (length p + length q + length t) in
    length-laid_out n fillchar rightspc (fillchar == b'0') p q t ∙ ground (arith, lengths p q t)
