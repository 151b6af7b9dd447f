-- ===== src/Snprintf/Buffer.antt =====
-- What vsnprintf leaves in the buffer.
use mehrad.Base.{
  ℕ, suc, zero, ◌+◌, ◌-◌, ◌%◌, ◌^◌, ◌≤◌, ◌<◌, ◌≡◌, refl, ap, ◌∙◌, sym, Bool, true, false, List, [],
  ◌∷◌, ◌++◌, ret, ltb, ◌==◌, if◌then◌else◌, ==_refl, ==_ne, min, length, get_elem?, arith, some,
  dec_lt, subst,
}
use mehrad.Printf.Field.{Sink}
use mehrad.Printf.Sink.{text_of, vprintf_lem}
use mehrad.Snprintf.{Snp, store_char, send_char, snprintf_send, vsnprintf}

send-append :
    (xs ys : List ℕ) (snp : Snp)
    → snprintf_send (snprintf_send snp xs) ys ≡ snprintf_send snp (xs ++ ys)
unfolding snprintf_send
send-append [] ys snp = refl
send-append (c ∷ xs) ys snp = send-append xs ys (send_char snp c)

send-nil : (snp : Snp) → snprintf_send snp [] ≡ snp
unfolding snprintf_send
send-nil snp = refl

buffer : Sink Snp
buffer = record {
  sendfunc = snprintf_send;
  send-nil = send-nil;
  send-append = λ snp xs ys. send-append xs ys snp;
}

-- What sending `text` comes to.
record IsSent (snp : Snp) (text : List ℕ) (snp' : Snp) : Type 0 where
  at : snp'.bufpos ≡ min (snp.bufpos + length text) snp.buflen
  before : (i : ℕ) → i < snp.bufpos → snp'.buf i ≡ snp.buf i
  stored :
      (k : ℕ) → snp.bufpos + k < snp'.bufpos → get_elem? text k ≡ some (snp'.buf (snp.bufpos + k))
  after : (i : ℕ) → snp'.bufpos ≤ i → snp'.buf i ≡ snp.buf i

send_full : (text : List ℕ) (snp : Snp) → snp.buflen ≤ snp.bufpos → snprintf_send snp text ≡ snp
unfolding snprintf_send
send_full [] snp h = refl
send_full (c ∷ text) snp h =
    let t : ltb snp.bufpos snp.buflen ≡ false = ground arith in
    ap
      (λ (b : Bool).
        snprintf_send
          (if b
            then record snp { buf = store_char snp.buf snp.bufpos c; bufpos = snp.bufpos + 1 }
            else snp)
          text)
      t
    ∙ send_full text snp h

module _ (c : ℕ) (text : List ℕ) (snp s : Snp) (room : snp.bufpos < snp.buflen)
    (x : IsSent
      (record snp { buf = store_char snp.buf snp.bufpos c; bufpos = snp.bufpos + 1 })
      text
      s) where
  one_more-stored :
      (k : ℕ) → snp.bufpos + k < s.bufpos → get_elem? (c ∷ text) k ≡ some (s.buf (snp.bufpos + k))
  one_more-stored zero lt =
      let e : snp.bufpos + 0 ≡ snp.bufpos = omega arith in
      let own : (snp.bufpos == snp.bufpos) ≡ true = ==_refl snp.bufpos in
      sym (rw e (ap some (x.before snp.bufpos (omega arith) ∙ rw own)))
  one_more-stored (suc k) lt =
      let e : snp.bufpos + 1 + k ≡ snp.bufpos + suc k = omega arith in
      x.stored k (omega arith) ∙ ap (λ (i : ℕ). some (s.buf i)) e

  one_more : IsSent snp (c ∷ text) s
  one_more = record {
    at = omega (arith, x.at);
    before = λ i lt. x.before i (omega arith) ∙ rw (==_ne i snp.bufpos (omega arith));
    stored = one_more-stored;
    after = λ i le. x.after i le ∙ rw (==_ne i snp.bufpos (omega (arith, x.at)));
  }

send_lem :
    (text : List ℕ) (snp : Snp) → snp.bufpos ≤ snp.buflen → IsSent snp text (snprintf_send snp text)
unfolding snprintf_send
send_lem [] snp h = record {
  at = omega arith;
  before = λ i lt. refl;
  stored = λ k lt. absurd (omega arith);
  after = λ i le. refl;
}
send_lem (c ∷ text) snp h = elim (dec_lt snp.bufpos snp.buflen) [
  | no full ↦
      let e = send_full (c ∷ text) snp (omega arith) in
      subst (IsSent snp (c ∷ text)) (sym e) (record {
        at = omega arith;
        before = λ i lt. refl;
        stored = λ k lt. absurd (omega arith);
        after = λ i le. refl;
      })
  | yes room ↦
      let t : ltb snp.bufpos snp.buflen ≡ true = ground arith in
      let snp₁ : Snp = record snp {
        buf = store_char snp.buf snp.bufpos c;
        bufpos = snp.bufpos + 1;
      } in
      let e = ap (λ (b : Bool). snprintf_send (if b then snp₁ else snp) text) t in
      subst (IsSent snp (c ∷ text)) (sym e)
        (one_more c text snp _ room (send_lem text snp₁ (omega arith)))
]

-- The buffer of `len` bytes at `buf`, with as much of the text as leaves room for the NUL that ends
-- it; the rest of the memory is as it was.
pub record IsPrinted (buf : ℕ → ℕ) (len : ℕ) (text : List ℕ) (buf' : ℕ → ℕ) : Type 0 where
  pub printed : (i : ℕ) → i < min (length text) (len - 1) → get_elem? text i ≡ some (buf' i)
  pub ended : 0 < len → buf' (min (length text) (len - 1)) ≡ 0
  pub kept : (i : ℕ) → min (length text) (len - 1) + 1 ≤ i → buf' i ≡ buf i
  pub untouched : len ≡ 0 → (i : ℕ) → buf' i ≡ buf i

-- What vsnprintf does with the text that its format makes.
finished :
    (buf : ℕ → ℕ) (len : ℕ) (text : List ℕ) (snp : Snp)
    → IsSent (record { buf = buf; buflen = if len == 0 then 0 else len - 1; bufpos = 0 }) text snp
    → IsPrinted buf len text (if ltb 0 len then store_char snp.buf snp.bufpos 0 else snp.buf)
finished buf zero text snp x = record {
  printed = λ i lt. absurd (omega arith);
  ended = λ lt. absurd (omega arith);
  kept = λ i le. x.after i (omega (arith, x.at));
  untouched = λ e i. x.after i (omega (arith, x.at));
}
finished buf (suc n) text snp x =
    let nz : (suc n == 0) ≡ false = ground arith in
    let at : snp.bufpos ≡ min (length text) n = let q = x.at in ground arith in
    let pos : ltb 0 (suc n) ≡ true = ground arith in
    rw pos (record {
      printed = λ i lt.
          let e : 0 + i ≡ i = omega arith in
          let n' : suc n - 1 ≡ n = omega arith in
          let inside : i < snp.bufpos = omega arith in
          rw (==_ne i snp.bufpos (omega arith))
            (x.stored i (omega arith) ∙ ap (λ (k : ℕ). some (snp.buf k)) e);
      ended = λ lt.
          let n' : min (length text) (suc n - 1) ≡ snp.bufpos = omega arith in
          rw n' (rw (==_refl snp.bufpos));
      kept = λ i le. rw (==_ne i snp.bufpos (omega arith)) (x.after i (omega arith));
      untouched = λ e i. absurd (omega arith);
    })

-- If the format makes a text, vsnprintf leaves it in the buffer, as much of it as fits before a NUL
-- in its last byte, ends it by a NUL, changes nothing else and nothing at all if the length is 0,
-- and returns the length of the whole text, as an int.
pub vsnprintf_lem :
    (strings : ℕ → List ℕ) (buf : ℕ → ℕ) (len : ℕ) (fmt args text : List ℕ)
    → text_of strings fmt args ≡ ret text
    → (buf' : ℕ → ℕ) × (vsnprintf strings buf len fmt args ≡ ret (length text % 2 ^ 32, buf'))
      × IsPrinted buf len text buf'
unfolding vsnprintf buffer
vsnprintf_lem strings buf len fmt args text e =
    let snp : Snp = record { buf = buf; buflen = if len == 0 then 0 else len - 1; bufpos = 0 } in
    let sent = vprintf_lem buffer snp strings fmt args in
    let snp' : Snp = snprintf_send snp text in
    (
      (if ltb 0 len then store_char snp'.buf snp'.bufpos 0 else snp'.buf),
      rw sent (rw e refl),
      finished buf len text snp' (send_lem text snp (omega arith)),
    )
