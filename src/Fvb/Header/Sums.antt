-- ===== src/Fvb/Header/Sums.antt =====
-- The sum of a header's words, and what the checksum does to it.
use native.Mathlib.Nat.{add-zero}
use odp_platform_radxa_orion.Common.{
  ℕ, zero, suc, ◌+◌, ◌*◌, ◌/◌, ◌%◌, ◌^◌, ◌<◌, ◌≤◌, ◌≡◌, ◌⊎◌, inl, inr, arith, refl, dec_lt, le→leb,
  lt→ltb, add-sub_left,
}
use odp_platform_radxa_orion.Flash.{Buffer}
use odp_platform_radxa_orion.Fvb.Header.Memory.{load, store}
use odp_platform_radxa_orion.Fvb.Header.Environment.{word_sum}

pub word_sum-cong :
    (n : ℕ) (a b : Buffer) → ((i : ℕ) → i < 2 * n → a i ≡ b i) → word_sum a n ≡ word_sum b n
unfolding word_sum
word_sum-cong zero a b h = refl
word_sum-cong (suc n) a b h = omega (
  arith,
  word_sum-cong n a b (λ i k. h i (omega arith)),
  h (2 * n) (omega arith),
  h (2 * n + 1) (omega arith),
)

-- A byte that an assignment does not reach.
store-ne :
    (b : Buffer) (offset width value x : ℕ)
    → (x < offset) ⊎ (offset + width ≤ x)
    → store b offset width value x ≡ b x
store-ne b offset width value x h = ground arith

-- The bytes of a field after an assignment to it.
store-at :
    (b : Buffer) (offset width value k : ℕ)
    → k < width
    → store b offset width value (offset + k) ≡ value / 256 ^ k % 256
store-at b offset width value k h = rw (
  le→leb offset (offset + k) (omega arith),
  lt→ltb (offset + k) (offset + width) (omega arith),
  add-sub_left offset k,
)

word_bytes :
    (value low high : ℕ)
    → value < 2 ^ 16
    → low ≡ value / 256 ^ 0 % 256
    → high ≡ value / 256 ^ 1 % 256
    → low + 256 * (high + 256 * 0) ≡ value
word_bytes value low high h e f = omega arith

-- A 16-bit field is read as it was assigned.
load-store16 :
    (b : Buffer) (offset value : ℕ)
    → value < 2 ^ 16
    → load (store b offset 2 value) offset 2 ≡ value
load-store16 b offset value h =
    word_bytes value _ _ h (rw add-zero at (store-at b offset 2 value 0 (omega arith)))
      (store-at b offset 2 value 1 (omega arith))

-- Assigning a word that was zero adds it to the sum.
pub word_sum-store :
    (b : Buffer) (k n value : ℕ)
    → k < n
    → b (2 * k) ≡ 0
    → b (2 * k + 1) ≡ 0
    → value < 2 ^ 16
    → word_sum (store b (2 * k) 2 value) n ≡ word_sum b n + value
unfolding word_sum
word_sum-store b k zero value h e f v = elim h [ ]
word_sum-store b k (suc n) value h e f v = elim (dec_lt k n) [
  | yes p ↦ omega (
    arith,
    word_sum-store b k n value p e f v,
    store-ne b (2 * k) 2 value (2 * n) (inr (omega arith)),
    store-ne b (2 * k) 2 value (2 * n + 1) (inr (omega arith)),
  )
  | no p ↦
      let same : n ≡ k = omega arith in
      rw same (
        omega (
          arith,
          e,
          f,
          load-store16 b (2 * k) value v,
          word_sum-cong k (store b (2 * k) 2 value) b
              (λ i h'. store-ne b (2 * k) 2 value i (inl h')),
        ))
]
