-- ===== src/Kheap/Sizes.antt =====
-- The sizes of the blocks of kern/lib/kheap.c.
use mehrad.Base.{ℕ, zero, suc, ◌+◌, ◌*◌, ◌/◌, ◌<◌, ◌≤◌, ◌≡◌, ◌≢◌, refl, ◌⊎◌, arith}
use mehrad.Kheap.{sizes}
use mehrad.Kheap.Page.{IsBlock}

-- What holds of each of the eight sizes.
pub by_size :
    (P : ℕ → Type 0)
    → P 16
    → P 32
    → P 64
    → P 128
    → P 256
    → P 512
    → P 1024
    → P 2048
    → (k : ℕ) → k < 8
    → P (sizes k)
unfolding sizes
by_size P a b c d e f g h zero l = a
by_size P a b c d e f g h (suc zero) l = b
by_size P a b c d e f g h (suc (suc zero)) l = c
by_size P a b c d e f g h (suc (suc (suc zero))) l = d
by_size P a b c d e f g h (suc (suc (suc (suc zero)))) l = e
by_size P a b c d e f g h (suc (suc (suc (suc (suc zero))))) l = f
by_size P a b c d e f g h (suc (suc (suc (suc (suc (suc zero)))))) l = g
by_size P a b c d e f g h (suc (suc (suc (suc (suc (suc (suc zero))))))) l = h
by_size P a b c d e f g h (suc (suc (suc (suc (suc (suc (suc (suc k)))))))) l = absurd (omega arith)

pub record IsSize (s : ℕ) : Type 0 where
  pub wide : 16 ≤ s
  pub words : s / 4 * 4 ≡ s
  pub several : 2 ≤ 4096 / s
  pub few : 4096 / s ≤ 256
  pub whole : 4096 / s * s ≡ 4096

pub sizes-IsSize : (k : ℕ) → k < 8 → IsSize (sizes k)
sizes-IsSize =
    by_size IsSize
      (record {
        wide = omega arith;
        words = refl;
        several = omega arith;
        few = omega arith;
        whole = refl;
      })
      (record {
        wide = omega arith;
        words = refl;
        several = omega arith;
        few = omega arith;
        whole = refl;
      })
      (record {
        wide = omega arith;
        words = refl;
        several = omega arith;
        few = omega arith;
        whole = refl;
      })
      (record {
        wide = omega arith;
        words = refl;
        several = omega arith;
        few = omega arith;
        whole = refl;
      })
      (record {
        wide = omega arith;
        words = refl;
        several = omega arith;
        few = omega arith;
        whole = refl;
      })
      (record {
        wide = omega arith;
        words = refl;
        several = omega arith;
        few = omega arith;
        whole = refl;
      })
      (record {
        wide = omega arith;
        words = refl;
        several = omega arith;
        few = omega arith;
        whole = refl;
      })
      (record {
        wide = omega arith;
        words = refl;
        several = omega arith;
        few = omega arith;
        whole = refl;
      })

-- The block `n` of a page.
pub block_at :
    (page n k : ℕ) → k < 8 → n < 4096 / sizes k → IsBlock page (sizes k) (page + n * sizes k)
block_at page n =
    by_size (λ s. n < 4096 / s → IsBlock page s (page + n * s))
      (λ l. record { from = omega arith; to = omega arith; stride = omega arith })
      (λ l. record { from = omega arith; to = omega arith; stride = omega arith })
      (λ l. record { from = omega arith; to = omega arith; stride = omega arith })
      (λ l. record { from = omega arith; to = omega arith; stride = omega arith })
      (λ l. record { from = omega arith; to = omega arith; stride = omega arith })
      (λ l. record { from = omega arith; to = omega arith; stride = omega arith })
      (λ l. record { from = omega arith; to = omega arith; stride = omega arith })
      (λ l. record { from = omega arith; to = omega arith; stride = omega arith })

-- Two blocks of a page are the same or do not overlap.
pub blocks_apart :
    (page x y k : ℕ)
    → k < 8
    → IsBlock page (sizes k) x
    → IsBlock page (sizes k) y
    → x ≢ y
    → (x + sizes k ≤ y) ⊎ (y + sizes k ≤ x)
blocks_apart page x y =
    by_size (λ s. IsBlock page s x → IsBlock page s y → x ≢ y → (x + s ≤ y) ⊎ (y + s ≤ x))
      (λ a b n.
        (let p = a.stride in let q = b.stride in let l = a.from in let m = b.from in ground arith))
      (λ a b n.
        (let p = a.stride in let q = b.stride in let l = a.from in let m = b.from in ground arith))
      (λ a b n.
        (let p = a.stride in let q = b.stride in let l = a.from in let m = b.from in ground arith))
      (λ a b n.
        (let p = a.stride in let q = b.stride in let l = a.from in let m = b.from in ground arith))
      (λ a b n.
        (let p = a.stride in let q = b.stride in let l = a.from in let m = b.from in ground arith))
      (λ a b n.
        (let p = a.stride in let q = b.stride in let l = a.from in let m = b.from in ground arith))
      (λ a b n.
        (let p = a.stride in let q = b.stride in let l = a.from in let m = b.from in ground arith))
      (λ a b n.
        (let p = a.stride in let q = b.stride in let l = a.from in let m = b.from in ground arith))

-- A block ends within its page.
pub block_end : (page x k : ℕ) → k < 8 → IsBlock page (sizes k) x → x + sizes k ≤ page + 4096
block_end page x =
    by_size (λ s. IsBlock page s x → x + s ≤ page + 4096)
      (λ b. (let q = b.stride in let l = b.from in let u = b.to in omega arith))
      (λ b. (let q = b.stride in let l = b.from in let u = b.to in omega arith))
      (λ b. (let q = b.stride in let l = b.from in let u = b.to in omega arith))
      (λ b. (let q = b.stride in let l = b.from in let u = b.to in omega arith))
      (λ b. (let q = b.stride in let l = b.from in let u = b.to in omega arith))
      (λ b. (let q = b.stride in let l = b.from in let u = b.to in omega arith))
      (λ b. (let q = b.stride in let l = b.from in let u = b.to in omega arith))
      (λ b. (let q = b.stride in let l = b.from in let u = b.to in omega arith))
