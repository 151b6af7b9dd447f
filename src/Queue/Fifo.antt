-- ===== src/Queue/Fifo.antt =====
-- kern/lib/queue.c as a first-in first-out list.
use mathlib.Core.List.{append_assoc, append-nil}
use mathlib.Core.Option.{some-injective}
use native.Mathlib.Nat.{mod-lt}
use mehrad.Base.{
  ℕ, zero, suc, ◌+◌, ◌*◌, ◌%◌, ◌^◌, ◌≤◌, ◌<◌, ◌≡◌, ◌≢◌, refl, ap, ◌∙◌, sym, List, [], ◌∷◌, ◌++◌,
  some, none, arith, ◌⊎◌, ◌↔◌, Bool, inl, inr, true, false, length, set, get_elem?-set_self,
  length-set, length-append, length-tabulate, tabulate, Outcome, ret, panic, ◌>>=◌, Code, success,
  enomem, Block, ltb, ==_ne, ==_iff, Bool-cases, dec_lt, Option-cases, subst,
}
use mehrad.Queue.{
  ring_cells, Queue, int_limit, double_size, q_create, q_empty, copy_ring, q_grow, put, put_after,
  q_addtail, q_preallocate, q_remhead, get_head, q_destroy,
}
use mehrad.Queue.Ring.{
  Run, round-ne, Run-set, Run-snoc, Run-end, Holds, Holds-full, Holds-not_full, Holds-empty,
  Holds-cons,
}

-- The doubling loop of q_grow ends at a size that is large enough, within `target` rounds and with no
-- overflow, if the size is positive and the target at most 2^30; it is the old size or below twice the target.
pub double_size_lem :
    (rounds n target : ℕ)
    → 0 < n
    → target ≤ n + rounds
    → target ≤ 2 ^ 30
    → (m : ℕ) × (double_size rounds n target ≡ ret m)
      × (target ≤ m)
      × (n ≤ m)
      × ((m ≡ n) ⊎ (m < 2 * target))
unfolding double_size
double_size_lem zero n target h k b =
    let t : ltb n target ≡ false = ground arith in (n, rw t, omega arith, omega arith, inl refl)
double_size_lem (suc rounds) n target h k b = elim (Bool-cases (ltb n target)) [
  | inr t ↦ (n, rw t, ground arith, omega arith, inl refl)
  | inl t ↦
      let (m, r, p, q, u) = double_size_lem rounds (n * 2) target (omega arith) (omega arith) b in
      let pos : ltb 0 (n * 2) ≡ true = ground arith in
      let fits : ltb (n * 2) int_limit ≡ true = ground arith in
      (m, rw t (rw pos (rw fits r)), p, omega arith, inr (ground arith))
]

module _ {ℓ} {A : Type ℓ} where
  -- Writing into a queue with a free cell to spare.
  put_lem :
      (q : Queue A) (xs : List A) (p : A)
      → Holds q xs
      → length xs + 1 < q.size
      → (q' : Queue A) × (put q p ≡ ret (success, q'))
        × Holds q' (xs ++ p ∷ [])
        × (q'.size ≡ q.size)
  put_lem q xs p h lt =
      let w : ltb q.nextwrite (length q.cells) ≡ true = ground (arith, h.sized, h.write_in) in
      (
        record q { cells = set q.cells q.nextwrite p; nextwrite = (q.nextwrite + 1) % q.size },
        rw w,
        record {
          nonempty = h.nonempty;
          sized = length-set q.cells q.nextwrite p ∙ h.sized;
          read_in = h.read_in;
          write_in = mod-lt (q.nextwrite + 1) h.nonempty;
          room = omega (arith, length-append {ℓ} xs (p ∷ []));
          run =
              Run-snoc (set q.cells q.nextwrite p) q.size q.nextread xs q.nextwrite p
                (Run-set q.cells q.size q.nextread xs q.nextwrite p h.read_in h.room h.run)
                (get_elem?-set_self q.cells q.nextwrite p (omega (arith, h.sized, h.write_in)));
        },
        refl,
      )

  -- With a cell to spare q_addtail writes at once, at any depth of calls.
  addtail_room :
      (depth : ℕ) (mem : Block A) (q : Queue A) (xs : List A) (p : A)
      → Holds q xs
      → length xs + 1 < q.size
      → q_addtail (suc depth) mem q p ≡ put q p
  unfolding q_addtail
  addtail_room depth mem q xs p h lt =
      let pos : ltb 0 q.size ≡ true = ground (arith, h.nonempty) in
      let t = ==_ne ((q.nextwrite + 1) % q.size) q.nextread (Holds-not_full q xs h lt) in
      rw pos (rw t)

  -- The copying loop of q_grow moves a run into a queue with room for it, in order.
  copy_ring_lem :
      (depth : ℕ) (mem : Block A) (old : List A) (s i w rounds : ℕ) (xs ys : List A) (q : Queue A)
      → 0 < s
      → i < s
      → length xs < s
      → length xs ≤ rounds
      → Run old s i xs w
      → Holds q ys
      → length ys + length xs < q.size
      → (q' : Queue A) × (copy_ring (q_addtail (suc depth) mem) old s w rounds i q ≡ ret q')
        × Holds q' (ys ++ xs)
        × (q'.size ≡ q.size)
  unfolding copy_ring
  copy_ring_lem depth mem old s i w zero [] ys q pos hi hs hr run h room =
      let t = (==_iff i w).1 run.0 in (q, rw t, rw append-nil h, refl)
  copy_ring_lem depth mem old s i w (suc rounds) [] ys q pos hi hs hr run h room =
      let t = (==_iff i w).1 run.0 in (q, rw t, rw append-nil h, refl)
  copy_ring_lem depth mem old s i w zero (x ∷ xs) ys q pos hi hs hr run h room =
      absurd (omega arith)
  copy_ring_lem depth mem old s i w (suc rounds) (x ∷ xs) ys q pos hi hs hr (g, run) h room =
      let e = Run-end old s i (x ∷ xs) w hi (g, run) in
      let away : i ≢ w = λ d. round-ne s i (length (x ∷ xs)) hi (omega arith) hs (sym e ∙ sym d) in
      let t = ==_ne i w away in
      let (q1, r1, h1, s1) = put_lem q ys x h (omega arith) in
      let (q2, r2, h2, s2) =
        copy_ring_lem depth mem old s ((i + 1) % s) w rounds xs (ys ++ x ∷ []) q1 pos
          (mod-lt (i + 1) pos) (omega arith) (omega arith) run h1
          (omega (arith, length-append {ℓ} ys (x ∷ []))) in
      (
        q2,
        rw t (rw g (rw (addtail_room depth mem q ys x h (omega arith)) (rw r1 r2))),
        rw append_assoc at h2,
        s2 ∙ s1,
      )

  -- The ring that q_grow starts to fill.
  fresh-Holds :
      (n : ℕ) (junk : ℕ → A)
      → 0 < n
      → n < 2 ^ 30
      → Holds
          (record { size = n; nextwrite = 0; nextread = 0; cells = tabulate 0 (ring_cells n) junk })
          []
  fresh-Holds n junk h b = record {
    nonempty = h;
    sized = (let l = length-tabulate 0 (ring_cells n) junk in omega arith);
    read_in = h;
    write_in = h;
    room = h;
    run = (refl, tt);
  }

  -- q_grow, for a queue below 2^30 cells and a target up to 2^29, makes room for the target and keeps
  -- the elements in order.
  q_grow_lem :
      (depth : ℕ) (junk : ℕ → A) (q : Queue A) (xs : List A) (target : ℕ)
      → Holds q xs
      → q.size < 2 ^ 30
      → target ≤ 2 ^ 29
      → (q' : Queue A) × (q_grow (q_addtail (suc depth) (some junk)) (some junk) q target
          ≡ ret (success, q'))
        × Holds q' xs
        × (target ≤ q'.size)
        × (q.size ≤ q'.size)
  unfolding q_grow
  q_grow_lem depth junk q xs target h small b =
      let (m, r, big, more, top) =
        double_size_lem target q.size target h.nonempty (omega arith) (omega arith) in
      let word : m < 2 ^ 30 = ground arith in
      let (q', r', h', s') =
        copy_ring_lem depth (some junk) q.cells q.size q.nextread q.nextwrite q.size xs []
          (record { size = m; nextwrite = 0; nextread = 0; cells = tabulate 0 (ring_cells m) junk })
          h.nonempty h.read_in h.room (omega (arith, h.room)) h.run
          (fresh-Holds m junk (omega (arith, h.nonempty)) word) (omega (arith, h.room)) in
      (q', rw r (rw r'), h', omega arith, omega arith)

  q_grow-none :
      (add : Queue A → A → Outcome (Code × Queue A)) (q : Queue A) (target : ℕ)
      → 0 < q.size
      → target ≤ 2 ^ 30
      → q_grow add none q target ≡ ret (enomem, q)
  unfolding q_grow
  q_grow-none add q target h b =
      let (m, r, big, more, top) = double_size_lem target q.size target h (omega arith) b in rw r

  -- With a cell to spare, q_addtail puts the pointer behind all others in the same ring.
  pub q_addtail_room :
      (mem : Block A) (q : Queue A) (xs : List A) (p : A)
      → Holds q xs
      → length xs + 1 < q.size
      → (q' : Queue A) × (q_addtail 2 mem q p ≡ ret (success, q'))
        × Holds q' (xs ++ p ∷ [])
        × (q'.size ≡ q.size)
  q_addtail_room mem q xs p h room =
      let (q', r, h', s) = put_lem q xs p h room in
      (q', addtail_room 1 mem q xs p h room ∙ r, h', s)

  -- On a well-formed queue below 2^29 cells, so that the size of the ring that it may ask for does not wrap:
  -- q_addtail, with two calls of depth, puts the pointer behind all others, growing the ring if only
  -- one cell is free; it fails only then, if kmalloc returns NULL, and leaves the queue as it was.
  pub q_addtail_lem :
      (mem : Block A) (q : Queue A) (xs : List A) (p : A)
      → Holds q xs
      → q.size < 2 ^ 29
      → ((q' : Queue A) × (q_addtail 2 mem q p ≡ ret (success, q')) × Holds q' (xs ++ p ∷ []))
        ⊎ ((q_addtail 2 mem q p ≡ ret (enomem, q)) × (mem ≡ none) × (length xs + 1 ≡ q.size))
  unfolding q_addtail
  q_addtail_lem mem q xs p h b = elim (dec_lt (length xs + 1) q.size) [
    | yes room ↦
        let (q', r, h', s) = put_lem q xs p h room in
        inl (q', addtail_room 1 mem q xs p h room ∙ r, h')
    | no full ↦
        let e : length xs + 1 ≡ q.size = omega (arith, h.room) in
        let pos : ltb 0 q.size ≡ true = ground (arith, h.nonempty) in
        let t = (==_iff ((q.nextwrite + 1) % q.size) q.nextread).1 (Holds-full q xs h e) in
        elim (Option-cases mem) [
          | inl m ↦ inr (
            rw pos (
                rw t (
                  rw m (
                    ap (λ r. r >>= put_after p)
                      (q_grow-none (q_addtail 1 none) q (q.size + 1) h.nonempty (omega arith))))),
            m,
            e,
          )
          | inr (junk, m) ↦
              let (q1, r1, h1, b1, c1) =
                q_grow_lem 0 junk q xs (q.size + 1) h (omega arith) (omega arith) in
              let (q2, r2, h2, s2) = put_lem q1 xs p h1 (omega arith) in
              inl (q2, rw pos (rw t (rw m (rw r1 r2))), h2)
        ]
  ]

  -- q_preallocate makes room for `size` pointers and keeps the queue's contents, or fails for want of
  -- memory and changes nothing.
  pub q_preallocate_lem :
      (mem : Block A) (q : Queue A) (xs : List A) (size : ℕ)
      → Holds q xs
      → q.size < 2 ^ 30
      → size ≤ 2 ^ 29
      → ((q' : Queue A) × (q_preallocate 1 mem q size ≡ ret (success, q'))
          × Holds q' xs
          × (size ≤ q'.size))
        ⊎ ((q_preallocate 1 mem q size ≡ ret (enomem, q)) × (mem ≡ none) × (q.size < size))
  unfolding q_preallocate
  q_preallocate_lem mem q xs size h small b =
      let pos : ltb 0 q.size ≡ true = ground (arith, h.nonempty) in
      elim (Bool-cases (ltb q.size size)) [
        | inr t ↦ inl (q, rw pos (rw t), h, ground arith)
        | inl t ↦ elim (Option-cases mem) [
          | inl m ↦
              let r = q_grow-none (q_addtail 1 none) q size h.nonempty (omega arith) in
              inr (rw pos (rw t (rw m r)), m, ground arith)
          | inr (junk, m) ↦
              let (q1, r1, h1, b1, c1) = q_grow_lem 0 junk q xs size h small b in
              inl (q1, rw pos (rw t (rw m r1)), h1, b1)
        ]
      ]

  -- q_remhead hands back the oldest pointer, and leaves the others in order.
  pub q_remhead-cons :
      (q : Queue A) (x : A) (xs : List A)
      → Holds q (x ∷ xs)
      → (get_head q ≡ ret x)
        × ((q' : Queue A) × (q_remhead q ≡ ret (x, q')) × Holds q' xs × (q'.size ≡ q.size))
  unfolding q_remhead get_head q_empty
  q_remhead-cons q x xs h =
      let pos : ltb 0 q.size ≡ true = ground (arith, h.nonempty) in
      let t = ==_ne q.nextwrite q.nextread (Holds-cons q x xs h) in
      let g = h.run.0 in
      (
        rw pos (rw t (rw g)),
        (
          record q { nextread = (q.nextread + 1) % q.size },
          rw pos (rw t (rw g)),
          record {
            nonempty = h.nonempty;
            sized = h.sized;
            read_in = mod-lt (q.nextread + 1) h.nonempty;
            write_in = h.write_in;
            room = omega (arith, h.room);
            run = h.run.1;
          },
          refl,
        ),
      )

  -- q_empty tells whether the queue holds anything.
  pub q_empty_lem : (q : Queue A) (xs : List A) → Holds q xs → (q_empty q ≡ true) ↔ (xs ≡ [])
  unfolding q_empty
  q_empty_lem q [] h = (λ e. refl, λ e. (==_iff q.nextwrite q.nextread).1 (Holds-empty q h))
  q_empty_lem q (x ∷ xs) h =
      (λ e. absurd (Holds-cons q x xs h ((==_iff q.nextwrite q.nextread).0 e)), λ e. cc)

  -- Reading from an empty queue is a panic; destroying a queue is one exactly if it is not empty.
  pub q_empty_panics :
      (q : Queue A) (xs : List A)
      → Holds q xs
      → (xs ≡ [] → (q_remhead q ≡ panic) × (get_head q ≡ panic) × (q_destroy q ≡ ret tt))
        × (xs ≢ [] → q_destroy q ≡ panic)
  unfolding q_remhead get_head q_destroy
  q_empty_panics q xs h =
      let pos : ltb 0 q.size ≡ true = ground (arith, h.nonempty) in
      (
        λ e. let t = (q_empty_lem q xs h).1 e in (rw pos (rw t), rw pos (rw t), rw t),
        λ n. elim (Bool-cases (q_empty q)) [
          | inl t ↦ absurd (n ((q_empty_lem q xs h).0 t))
          | inr t ↦ rw t
        ],
      )

  -- A queue that q_create makes, of a positive size below 2^30, is well formed and empty.
  pub q_create-Holds :
      (granted : Bool) (mem : Block A) (size : ℕ) (q : Queue A)
      → 0 < size
      → size < 2 ^ 30
      → q_create granted mem size ≡ some q
      → Holds q [] × (q.size ≡ size)
  unfolding q_create
  q_create-Holds false mem size q h b e = cc
  q_create-Holds true none size q h b e = cc
  q_create-Holds true (some junk) size q h b e =
      let f = some-injective _ _ e in
      subst (λ r. Holds r [] × (r.size ≡ size)) f (fresh-Holds size junk h b, refl)
