-- ===== src/Printf.antt =====
-- lib/libc/__printf.c: the formatter behind printf, snprintf and kprintf. Texts are lists of bytes
-- without their NUL. An int or a long is its 32-bit pattern, and so is a pointer; `strings` is the
-- text at an address, and the variable arguments are the words that are left of them.
pub mod Number
pub mod Field
pub mod Sink
mod Tests
use mehrad.Base.{
  ℕ, zero, suc, ◌+◌, ◌-◌, ◌*◌, ◌/◌, ◌%◌, ◌^◌, Bool, true, false, not, ◌&&◌, ◌||◌, List, [], ◌∷◌,
  Outcome, ret, panic, ◌>>=◌, ◌>>◌, assert, fetch, ltb, leb, ◌==◌, if◌then◌else◌, get_elem?, set,
  length, drop, replicate,
}

pub data Size : Type 0 where
  intsz longsz : Size

-- `PF`, for a client whose data are a `C`.
pub record Pf (C : Type 0) : Type 0 where
  pub clientdata : C
  pub ap : List ℕ
  pub charcount : ℕ
  pub in_pct : Bool
  pub size : Size
  pub num : ℕ
  pub sign : Bool
  pub spacing : ℕ
  pub rightspc : Bool
  pub fillchar : ℕ
  pub base : ℕ
  pub baseprefix : Bool
  pub altformat : Bool

abbrev pub int_limit : ℕ
int_limit = 2 ^ 31

abbrev pub word : ℕ
word = 2 ^ 32

-- `x > 0` and `x > y` for ints, the second for a `y` that is not negative.
abbrev pub is_positive : ℕ → Bool
is_positive x = ltb 0 x && ltb x int_limit

abbrev pub exceeds : ℕ → ℕ → Bool
exceeds x y = ltb x int_limit && ltb y x

abbrev pub one_of : List ℕ → ℕ → Bool
one_of [] ch = false
one_of (c ∷ cs) ch = (c == ch) || one_of cs ch

abbrev pub modifiers : List ℕ
modifiers =
    b'#' ∷ b'-' ∷ b'q' ∷ b'l' ∷ b'0' ∷ b'1' ∷ b'2' ∷ b'3' ∷ b'4' ∷ b'5' ∷ b'6' ∷ b'7' ∷ b'8' ∷ b'9'
    ∷ []

abbrev pub integer_types : List ℕ
integer_types = b'd' ∷ b'o' ∷ b'u' ∷ b'p' ∷ b'x' ∷ []

abbrev pub digits : List ℕ
digits =
    b'0' ∷ b'1' ∷ b'2' ∷ b'3' ∷ b'4' ∷ b'5' ∷ b'6' ∷ b'7' ∷ b'8' ∷ b'9' ∷ b'a' ∷ b'b' ∷ b'c' ∷ b'd'
    ∷ b'e' ∷ b'f' ∷ []

-- `sizeof(long) * CHAR_BIT / 3 + 2`
abbrev pub number_buf_size : ℕ
number_buf_size = 4 * 8 / 3 + 2

-- The loop of __pf_printnum: `slots` is the offset of `x` in the buffer, and one more; a write
-- before the buffer is a panic, and so is a division by zero.
unfoldable pub print_digits : ℕ → ℕ → List ℕ → ℕ → Outcome (List ℕ)
print_digits base xnum buf zero = panic
print_digits base xnum buf (suc x) = do
  assert (ltb 0 base)
  c ← fetch (get_elem? digits (xnum % base))
  let buf' = set buf x c
  let more = print_digits base (xnum / base) buf' x
  (if ltb 0 (xnum / base) then more else ret (drop x buf'))

-- The text that __pf_printnum makes: what stands in the buffer from `x` on, up to the NUL in its
-- last slot.
unfoldable pub number_text : ℕ → ℕ → Outcome (List ℕ)
number_text base num =
    print_digits base num (replicate (number_buf_size - 1) 0) (number_buf_size - 1)

-- "(null)"
abbrev pub null_text : List ℕ
null_text = b'(' ∷ b'n' ∷ b'u' ∷ b'l' ∷ b'l' ∷ b')' ∷ []

-- A `char` as a text: none, if it is NUL.
abbrev pub char_text : ℕ → List ℕ
char_text c = if c % 256 == 0 then [] else c % 256 ∷ []

module _ {C : Type 0} where
  unfoldable pub pf_endfield : Pf C → Pf C
  pf_endfield pf = record pf {
    in_pct = false;
    size = intsz;
    num = 0;
    sign = false;
    spacing = 0;
    rightspc = false;
    fillchar = b' ';
    base = 0;
    baseprefix = false;
    altformat = false;
  }

  -- `pf` before its first field.
  unfoldable pub start : C → List ℕ → Pf C
  unfolding pf_endfield
  start clientdata ap = pf_endfield (record {
    clientdata = clientdata;
    ap = ap;
    charcount = 0;
    in_pct = false;
    size = intsz;
    num = 0;
    sign = false;
    spacing = 0;
    rightspc = false;
    fillchar = b' ';
    base = 0;
    baseprefix = false;
    altformat = false;
  })

  abbrev pub base_prefix : Pf C → List ℕ
  base_prefix pf =
      if pf.baseprefix && pf.base == 16
      then b'0' ∷ b'x' ∷ []
      else if pf.baseprefix && pf.base == 8
      then b'0' ∷ []
      else []

  unfoldable pub pf_modifier : Pf C → ℕ → Outcome (Pf C)
  pf_modifier pf ch =
      if ch == b'#'
      then ret (record pf { altformat = true })
      else if ch == b'-'
      then ret (record pf { rightspc = true })
      else if ch == b'l'
      then ret (record pf { size = longsz })
      else if ch == b'q'
      then ret (record pf { size = longsz })
      else if ch == b'0'
      then (if is_positive pf.spacing
          then ret (record pf { spacing = pf.spacing * 10 % word })
          else ret (record pf { fillchar = b'0' }))
      else (do
        assert (ltb b'0' ch && leb ch b'9')
        ret (record pf { spacing = (pf.spacing * 10 + (ch - b'0')) % word }))

  -- `va_arg`: the next word. To read past the last is undefined, here a panic.
  abbrev pub next_word : List ℕ → Pf C → Outcome (ℕ × Pf C)
  next_word [] pf = panic
  next_word (w ∷ ws) pf = ret (w, record pf { ap = ws })

  abbrev pub va_arg : Pf C → Outcome (ℕ × Pf C)
  va_arg pf = next_word pf.ap pf

  -- An int, a long, their unsigned kin and a pointer are one word each, whatever `size` is.
  unfoldable pub pf_getnum : Pf C → ℕ → Outcome (Pf C)
  pf_getnum pf ch = do
    (w, pf') ← va_arg pf
    (if ch == b'd'
        then (if leb int_limit w
            then ret (record pf' { sign = true; num = word - w })
            else ret (record pf' { num = w }))
        else ret (record pf' { num = w }))

  unfoldable pub pf_setbase : Pf C → ℕ → Pf C
  pf_setbase pf ch =
      let b =
        (if ch == b'd' || ch == b'u'
          then 10
          else if ch == b'x' || ch == b'p'
          then 16
          else if ch == b'o'
          then 8
          else pf.base) in
      record pf { base = b; baseprefix = pf.baseprefix || pf.altformat || ch == b'p' }

module _ {C : Type 0} (sendfunc : C → List ℕ → C) where
  unfoldable pub pf_print : Pf C → List ℕ → Pf C
  pf_print pf txt = record pf {
    clientdata = sendfunc pf.clientdata txt;
    charcount = (pf.charcount + length txt) % word;
  }

  unfoldable pub pf_fill : Pf C → ℕ → Pf C
  pf_fill pf zero = pf
  pf_fill pf (suc spc) = pf_fill (pf_print pf (pf.fillchar ∷ [])) spc

  abbrev pub fill_if : Bool → Pf C → ℕ → Pf C
  fill_if b pf spc = if b then pf_fill pf spc else pf

  unfoldable pub pf_printstuff : Pf C → List ℕ → List ℕ → List ℕ → Pf C
  pf_printstuff pf prefix prefix2 stuff =
      let len = length prefix + length prefix2 + length stuff in
      let spc = (if exceeds pf.spacing len then pf.spacing - len else 0) in
      let pf₁ = fill_if (ltb 0 spc && (not pf.rightspc && not (pf.fillchar == b'0'))) pf spc in
      let pf₂ = pf_print (pf_print pf₁ prefix) prefix2 in
      let pf₃ = fill_if (ltb 0 spc && (not pf.rightspc && pf.fillchar == b'0')) pf₂ spc in
      let pf₄ = pf_print pf₃ stuff in fill_if (ltb 0 spc && pf.rightspc) pf₄ spc

  unfoldable pub pf_printnum : Pf C → Outcome (Pf C)
  pf_printnum pf = do
    x ← number_text pf.base pf.num
    ret (pf_printstuff pf (if pf.sign then b'-' ∷ [] else []) (base_prefix pf) x)

  module _ (strings : ℕ → List ℕ) where
    unfoldable pub pf_send : Pf C → ℕ → Outcome (Pf C)
    pf_send pf ch = do
      assert (not (ch == 0))
      (if not pf.in_pct && not (ch == b'%')
          then ret (pf_print pf (ch ∷ []))
          else if not pf.in_pct
          then ret (record pf { in_pct = true })
          else if one_of modifiers ch
          then pf_modifier pf ch
          else if one_of integer_types ch
          then (do
            pf' ← pf_getnum pf ch
            pf'' ← pf_printnum (pf_setbase pf' ch)
            ret (pf_endfield pf''))
          else if ch == b's'
          then (do
            (str, pf') ← va_arg pf
            let text = (if str == 0 then null_text else strings str)
            ret (pf_endfield (pf_printstuff pf' [] [] text)))
          else if ch == b'c'
          then (do (c, pf') ← va_arg pf; ret (pf_endfield (pf_printstuff pf' [] [] (char_text c))))
          else ret (pf_endfield (pf_printstuff pf [] [] (ch ∷ []))))

    -- `for (i=0; format[i]; i++) { __pf_send(&pf, format[i]); }`
    unfoldable pub send_all : Pf C → List ℕ → Outcome (Pf C)
    send_all pf [] = ret pf
    send_all pf (ch ∷ format) = do pf' ← pf_send pf ch; send_all pf' format

    unfoldable pub vprintf : C → List ℕ → List ℕ → Outcome (ℕ × C)
    vprintf clientdata format ap = do
      pf ← send_all (start clientdata ap) format
      ret (pf.charcount, pf.clientdata)
