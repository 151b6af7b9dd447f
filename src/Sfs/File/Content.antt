-- ===== src/Sfs/File/Content.antt =====
-- What a file of kern/fs/sfs holds, byte by byte, and what it means to have read a part of it.
use mehrad.Base.{
  ℕ, ◌+◌, ◌-◌, ◌*◌, ◌/◌, ◌%◌, ◌^◌, ◌<◌, ◌≤◌, ◌≡◌, refl, ap, ◌∙◌, List, some, ret, ◌==◌,
  if◌then◌else◌, arith, ◌⊎◌, inl, inr, length, get_elem?, dec_lt,
}
use mehrad.Uio.{uio_read, Uio, advanced}
use mehrad.Sfs.State.{Inode, ok}
use mehrad.Sfs.Bmap.{or_zero, block_at, IsSound}
use mehrad.Sfs.Io.{IoState, Io, block_bytes}

-- The byte of the file at a position: a hole reads as zeros.
unfoldable pub file_byte : Inode → (ℕ → List ℕ) → ℕ → ℕ
file_byte i disk pos =
    let b = block_at i disk (pos / 512) in
    if b == 0 then 0 else or_zero (get_elem? (block_bytes (disk b)) (pos % 512))

-- The two stretches of memory have no byte in common.
abbrev pub Apart : ℕ → ℕ → ℕ → ℕ → Type 0
Apart a n b m = (a + n ≤ b) ⊎ (b + m ≤ a)

abbrev pub Outside : ℕ → ℕ → ℕ → Type 0
Outside i a n = (i < a) ⊎ (a + n ≤ i)

module _ (iobuf blank : ℕ) where
  -- `n` bytes can be read: the file system is sound, its blocks hold 128 words, `n` bytes are left in
  -- the uio and have room, none of them is past the last block that a file can have, and the buffer,
  -- the static buffer and the zeros of the kernel do not overlap.
  pub record CanRead (n : ℕ) (w : IoState) : Type 0 where
    pub sound : IsSound w.fs
    pub formatted : (b : ℕ) → b < (w.fs).sp_nblocks → length ((w.fs).disk b) ≡ 128
    pub small : (w.fs).sp_nblocks < 2 ^ 22
    pub reads : (w.uio).uio_rw ≡ uio_read
    pub wanted : n ≤ (w.uio).uio_resid
    pub room : (w.uio).uio_resid ≤ (w.uio).iov_len
    pub resid_word : (w.uio).uio_resid < 2 ^ 31
    pub in_file : (w.uio).uio_offset + n ≤ 143 * 512
    pub buffer : (w.uio).iov_base + n ≤ length w.mem
    pub iobuf_in : iobuf + 512 ≤ length w.mem
    pub blank_in : blank + 16 ≤ length w.mem
    pub blanks : (i : ℕ) → i < 16 → get_elem? w.mem (blank + i) ≡ some 0
    pub iobuf_apart : Apart iobuf 512 (w.uio).iov_base n
    pub blank_apart : Apart blank 16 (w.uio).iov_base n
    pub iobuf_blank : Apart iobuf 512 blank 16

  -- The `n` bytes of the buffer are those of the file from the offset on, and outside the buffer and
  -- the static buffer nothing has changed.
  pub record HasRead (n : ℕ) (w : IoState) (m : List ℕ) : Type 0 where
    pub sized : length m ≡ length w.mem
    pub bytes :
        (k : ℕ)
        → k < n
        → get_elem? m ((w.uio).iov_base + k)
          ≡ some (file_byte (w.fs).sv_i (w.fs).disk ((w.uio).uio_offset + k))
    pub others :
        (i : ℕ)
        → Outside i (w.uio).iov_base n
        → Outside i iobuf 512
        → get_elem? m i ≡ get_elem? w.mem i

  abbrev pub after : ℕ → IoState → List ℕ → IoState
  after n w m = record w { mem = m; uio = advanced w.uio n }

  -- The action reads `n` bytes: it succeeds, and leaves the file system alone.
  abbrev pub Reads : ℕ → Io (Unit {0}) → IoState → Type 0
  Reads n act w = (m : List ℕ) × (act w ≡ ret (ok tt, after n w m)) × HasRead n w m

  Apart-Outside : (i a n : ℕ) (l : ℕ) → Apart i l a n → (k : ℕ) → k < l → Outside (i + k) a n
  Apart-Outside i a n l (inl e) k h = inl (omega arith)
  Apart-Outside i a n l (inr e) k h = inr (omega arith)

  Apart-shift : (i l a n k : ℕ) → k ≤ n → Apart i l a n → Apart i l (a + k) (n - k)
  Apart-shift i l a n k h (inl e) = inl (omega arith)
  Apart-shift i l a n k h (inr e) = inr (omega arith)

  Outside-less : (i a n k : ℕ) → k ≤ n → Outside i a n → Outside i a k
  Outside-less i a n k h (inl e) = inl (omega arith)
  Outside-less i a n k h (inr e) = inr (omega arith)

  Outside-rest : (i a n k : ℕ) → k ≤ n → Outside i a n → Outside i (a + k) (n - k)
  Outside-rest i a n k h (inl e) = inl (omega arith)
  Outside-rest i a n k h (inr e) = inr (omega arith)

  Outside-of_Apart : (i l a n k : ℕ) → Apart i l a n → k < n → Outside (a + k) i l
  Outside-of_Apart i l a n k (inl e) h = inr (omega arith)
  Outside-of_Apart i l a n k (inr e) h = inl (omega arith)

  Apart-less : (i l a n k : ℕ) → k ≤ n → Apart i l a n → Apart i l a k
  Apart-less i l a n k h (inl e) = inl (omega arith)
  Apart-less i l a n k h (inr e) = inr (omega arith)

  -- Fewer bytes can be read too.
  pub CanRead-less : (n k : ℕ) (w : IoState) → k ≤ n → CanRead n w → CanRead k w
  CanRead-less n k w h c =
      let wanted = c.wanted in
      let in_file = c.in_file in
      let buffer = c.buffer in
      record {
        sound = c.sound;
        formatted = c.formatted;
        small = c.small;
        reads = c.reads;
        wanted = omega arith;
        room = c.room;
        resid_word = c.resid_word;
        in_file = omega arith;
        buffer = omega arith;
        iobuf_in = c.iobuf_in;
        blank_in = c.blank_in;
        blanks = c.blanks;
        iobuf_apart = Apart-less iobuf 512 (w.uio).iov_base n k h c.iobuf_apart;
        blank_apart = Apart-less blank 16 (w.uio).iov_base n k h c.blank_apart;
        iobuf_blank = c.iobuf_blank;
      }

  -- After a part has been read the rest can be.
  pub after-CanRead :
      (n k : ℕ) (w : IoState) (m : List ℕ)
      → k ≤ n
      → CanRead n w
      → HasRead k w m
      → CanRead (n - k) (after k w m)
  after-CanRead n k w m h c r =
      let wanted = c.wanted in
      let in_file = c.in_file in
      let buffer = c.buffer in
      let room = c.room in
      let resid_word = c.resid_word in
      let sized = r.sized in
      let iobuf_in = c.iobuf_in in
      let blank_in = c.blank_in in
      record {
        sound = c.sound;
        formatted = c.formatted;
        small = c.small;
        reads = c.reads;
        wanted = omega arith;
        room = omega arith;
        resid_word = omega arith;
        in_file = omega arith;
        buffer = omega arith;
        iobuf_in = omega arith;
        blank_in = omega arith;
        blanks = λ i l.
            r.others (blank + i)
              (Outside-less (blank + i) (w.uio).iov_base n k h
                (Apart-Outside blank (w.uio).iov_base n 16 c.blank_apart i l))
              (Outside-of_Apart iobuf 512 blank 16 i c.iobuf_blank l)
            ∙ c.blanks i l;
        iobuf_apart = Apart-shift iobuf 512 (w.uio).iov_base n k h c.iobuf_apart;
        blank_apart = Apart-shift blank 16 (w.uio).iov_base n k h c.blank_apart;
        iobuf_blank = c.iobuf_blank;
      }

  advanced_on :
      (u : Uio) (n k : ℕ)
      → k ≤ n
      → n ≤ u.uio_resid
      → u.uio_resid ≤ u.iov_len
      → u.uio_resid < 2 ^ 31
      → advanced (advanced u k) (n - k) ≡ advanced u n
  advanced_on u n k h w r q =
      let e₁ : u.iov_base + k + (n - k) ≡ u.iov_base + n = omega arith in
      let e₂ : u.iov_len - k - (n - k) ≡ u.iov_len - n = omega arith in
      let e₃ : ((u.uio_offset + k) % 2 ^ 32 + (n - k)) % 2 ^ 32 ≡ (u.uio_offset + n) % 2 ^ 32 =
        omega arith in
      let e₄ : ((u.uio_resid + 2 ^ 32 - k) % 2 ^ 32 + 2 ^ 32 - (n - k)) % 2 ^ 32
          ≡ (u.uio_resid + 2 ^ 32 - n) % 2 ^ 32 =
        omega arith in
      rw (e₁, e₂, e₃, e₄) refl

  -- Two reads one after the other are one.
  pub HasRead-both :
      (n k : ℕ) (w : IoState) (m m' : List ℕ)
      → k ≤ n
      → CanRead n w
      → HasRead k w m
      → HasRead (n - k) (after k w m) m'
      → HasRead n w m'
  HasRead-both n k w m m' h c r r' =
      let in_file = c.in_file in
      record {
        sized = r'.sized ∙ r.sized;
        bytes = λ j l. elim (dec_lt j k) [
          | yes lt ↦
              r'.others ((w.uio).iov_base + j) (inl (omega arith))
                (Outside-of_Apart iobuf 512 (w.uio).iov_base n j c.iobuf_apart l)
              ∙ r.bytes j lt
          | no ge ↦
              let e : (w.uio).iov_base + j ≡ (w.uio).iov_base + k + (j - k) = omega arith in
              let p : ((w.uio).uio_offset + k) % 2 ^ 32 + (j - k) ≡ (w.uio).uio_offset + j =
                omega arith in
              ap (get_elem? m') e
              ∙ r'.bytes (j - k) (omega arith)
              ∙ ap (λ (x : ℕ). some (file_byte (w.fs).sv_i (w.fs).disk x)) p
        ];
        others = λ i o b.
            r'.others i (Outside-rest i (w.uio).iov_base n k h o) b
            ∙ r.others i (Outside-less i (w.uio).iov_base n k h o) b;
      }

  pub after_both :
      (n k : ℕ) (w : IoState) (m m' : List ℕ)
      → k ≤ n
      → CanRead n w
      → after (n - k) (after k w m) m' ≡ after n w m'
  after_both n k w m m' h c =
      ap (λ u. record w { mem = m'; uio = u })
        (advanced_on w.uio n k h c.wanted c.room c.resid_word)
