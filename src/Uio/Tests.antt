-- ===== src/Uio/Tests.antt =====
-- The theorem about kern/userprog/uio.c at a concrete transfer.
use mehrad.Base.{
  ℕ, List, [], ◌∷◌, ◌≡◌, ret, refl, arith, inl, min, get_elem?, some, ◌<◌, zero, suc, replicate,
  ◌++◌, ◌+◌,
}
use mehrad.Uio.{Uio, uio_read, uiomove, uiomovezeros, mk_kuio, advanced}
use mehrad.Uio.Zeros.{CanZero, IsZeroed, uiomovezeros_lem}
use mehrad.Uio.Transfer.{IsReady, after_move, uiomove_lem}

abbrev bytes : List ℕ
bytes = 11 ∷ 12 ∷ 13 ∷ 14 ∷ 0 ∷ 0 ∷ 0 ∷ []

-- Three bytes of room at place 4.
abbrev room : Uio
room = record { iov_base = 4; iov_len = 3; uio_offset = 512; uio_resid = 3; uio_rw = uio_read }

room-mk_kuio : mk_kuio 4 3 512 uio_read ≡ room
unfolding mk_kuio
room-mk_kuio = refl

room-IsReady : IsReady room 4
room-IsReady = inl refl

uiomove_lem_example :
    uiomove 0 4 bytes room ≡ ret (after_move uio_read bytes 4 0 (min 4 3), advanced room (min 4 3))
uiomove_lem_example =
    uiomove_lem 0 4 bytes room room-IsReady (omega arith) (omega arith) (omega arith) (omega arith)

-- Sixteen zeros and then three bytes.
abbrev blank_page : List ℕ
blank_page = replicate 16 0 ++ 7 ∷ 7 ∷ 7 ∷ []

abbrev after_zeros : Uio
after_zeros = record {
  iov_base = 16;
  iov_len = 3;
  uio_offset = 0;
  uio_resid = 3;
  uio_rw = uio_read;
}

get_elem?-replicate : (n i x : ℕ) (ys : List ℕ) → i < n → get_elem? (replicate n x ++ ys) i ≡ some x
get_elem?-replicate zero i x ys h = absurd (omega arith)
get_elem?-replicate (suc n) zero x ys h = refl
get_elem?-replicate (suc n) (suc i) x ys h = get_elem?-replicate n i x ys (omega arith)

after_zeros-CanZero : CanZero 0 2 blank_page after_zeros
after_zeros-CanZero = record {
  reads = refl;
  wanted = omega arith;
  room = omega arith;
  resid_word = omega arith;
  offset_word = omega arith;
  buffer = omega arith;
  blank_in = omega arith;
  blanks = λ i l.
      let e : 0 + i ≡ i = omega arith in rw e (get_elem?-replicate 16 i 0 (7 ∷ 7 ∷ 7 ∷ []) l);
  apart = inl (omega arith);
}

uiomovezeros_lem_example :
    (m' : List ℕ) × (uiomovezeros 0 2 blank_page after_zeros ≡ ret (m', advanced after_zeros 2))
    × IsZeroed blank_page m' 16 2
uiomovezeros_lem_example = uiomovezeros_lem 0 2 blank_page after_zeros after_zeros-CanZero
