-- ===== src/Queue.antt =====
-- kern/lib/queue.c: a queue of pointers in a ring that doubles when it is full. One cell of the ring
-- stays free, so that `nextwrite == nextread` means empty. The outcome of a kmalloc is `mem`.
pub mod Ring
pub mod Fifo
mod Tests
use mehrad.Base.{
  ℕ, zero, suc, ◌+◌, ◌-◌, ◌*◌, ◌%◌, ◌/◌, ◌^◌, Bool, true, false, not, ◌&&◌, List, [], ◌∷◌, ◌++◌,
  Option, none, some, Outcome, ret, panic, ◌>>=◌, ◌>>◌, assert, fetch, Code, success, enomem, Block,
  ltb, leb, ◌==◌, if◌then◌else◌, get_elem?, set, length, tabulate,
}
use mehrad.Base.Int.{ℤ, pos, negsuc}
use mehrad.Memory.{store}

-- `struct queue`
pub record Queue {ℓ} (A : Type ℓ) : Type ℓ where
  pub size : ℕ
  pub nextwrite : ℕ
  pub nextread : ℕ
  pub cells : List A

abbrev pub int_limit : ℕ
int_limit = 2 ^ 31

-- `while (nsize < targetsize) { nsize *= 2; assert(nsize > 0); }`: the first argument bounds the
-- rounds; running out of them is a panic too. An int above 2^31 - 1 comes out negative.
unfoldable pub double_size : ℕ → ℕ → ℕ → Outcome ℕ
double_size zero nsize target = if ltb nsize target then panic else ret nsize
double_size (suc rounds) nsize target =
    let more =
      assert (ltb 0 (nsize * 2) && ltb (nsize * 2) int_limit)
      >> double_size rounds (nsize * 2) target in
    if ltb nsize target then more else ret nsize

-- The cells of what `kmalloc(n * sizeof(void *))` asks for: the product is a word of 32 bits.
abbrev pub ring_cells : ℕ → ℕ
ring_cells n = (n * 4) % 2 ^ 32 / 4

module _ {ℓ} {A : Type ℓ} where
  -- `granted`: whether the kmalloc of the structure succeeds; `mem`: the one of the ring.
  unfoldable pub q_create : Bool → Block A → ℕ → Option (Queue A)
  q_create false mem size = none
  q_create true none size = none
  q_create true (some junk) size = some (record {
    size = size;
    nextwrite = 0;
    nextread = 0;
    cells = tabulate 0 (ring_cells size) junk;
  })

  unfoldable pub q_empty : Queue A → Bool
  q_empty q = q.nextwrite == q.nextread

  -- `assert(result==0)`
  abbrev pub succeeded : Code × Queue A → Outcome (Queue A)
  succeeded (success, q) = ret q
  succeeded (c, q) = panic

  -- `for (i=onr; i!=onw; i = (i+1)%osize) { result = q_addtail(q, olddata[i]); assert(result==0); }`
  unfoldable pub copy_ring :
      (Queue A → A → Outcome (Code × Queue A))
      → List A
      → ℕ
      → ℕ
      → ℕ
      → ℕ
      → Queue A
      → Outcome (Queue A)
  copy_ring add old osize onw zero i q = if i == onw then ret q else panic
  copy_ring add old osize onw (suc rounds) i q =
      let step = (do
        p ← fetch (get_elem? old i)
        r ← add q p
        q' ← succeeded r
        copy_ring add old osize onw rounds ((i + 1) % osize) q') in
      if i == onw then ret q else step

  -- q_grow, over the q_addtail that it calls.
  unfoldable pub q_grow :
      (Queue A → A → Outcome (Code × Queue A)) → Block A → Queue A → ℕ → Outcome (Code × Queue A)
  q_grow add mem q target = do
    nsize ← double_size target q.size target
    elim mem [
      | none ↦ ret (enomem, q)
      | some junk ↦
          copy_ring add q.cells q.size q.nextwrite q.size q.nextread (record {
            size = nsize;
            nextwrite = 0;
            nextread = 0;
            cells = tabulate 0 (ring_cells nsize) junk;
          })
          >>= λ q'. ret (success, q')
    ]

  abbrev pub put : Queue A → A → Outcome (Code × Queue A)
  put q p = do
    let nextnext = (q.nextwrite + 1) % q.size
    cells' ← store q.cells q.nextwrite p
    ret (success, record q { cells = cells'; nextwrite = nextnext })

  abbrev pub put_after : A → Code × Queue A → Outcome (Code × Queue A)
  put_after p (success, q) = put q p
  put_after p (c, q) = ret (c, q)

  -- q_addtail, and q_grow which calls it back: the first argument bounds how deep the calls go.
  unfoldable pub q_addtail : ℕ → Block A → Queue A → A → Outcome (Code × Queue A)
  q_addtail zero mem q p = panic
  q_addtail (suc depth) mem q p = do
    assert (ltb 0 q.size)
    let grown = q_grow (q_addtail depth mem) mem q (q.size + 1)
    (if (q.nextwrite + 1) % q.size == q.nextread then grown >>= put_after p else put q p)

  unfoldable pub q_preallocate : ℕ → Block A → Queue A → ℕ → Outcome (Code × Queue A)
  q_preallocate depth mem q size = do
    assert (ltb 0 q.size)
    (if ltb q.size size then q_grow (q_addtail depth mem) mem q size else ret (success, q))

  unfoldable pub q_remhead : Queue A → Outcome (A × Queue A)
  q_remhead q = do
    assert (ltb 0 q.size)
    assert (not (q_empty q))
    p ← fetch (get_elem? q.cells q.nextread)
    ret (p, record q { nextread = (q.nextread + 1) % q.size })

  unfoldable pub get_head : Queue A → Outcome A
  get_head q = do
    assert (ltb 0 q.size)
    assert (not (q_empty q))
    fetch (get_elem? q.cells q.nextread)

  unfoldable pub q_destroy : Queue A → Outcome (Unit {0})
  q_destroy q = assert (q_empty q)

  unfoldable pub q_getstart : Queue A → ℕ
  q_getstart q = q.nextread

  unfoldable pub q_getend : Queue A → ℕ
  q_getend q = q.nextwrite

  unfoldable pub q_getsize : Queue A → ℕ
  q_getsize q = q.size

  -- `assert(index>=0 && index<q->size)`
  unfoldable pub q_getguy : Queue A → ℤ → Outcome A
  q_getguy q (pos i) = do assert (ltb i q.size); fetch (get_elem? q.cells i)
  q_getguy q (negsuc i) = panic
