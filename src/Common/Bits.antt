-- ===== src/Common/Bits.antt =====
-- The binary digits of a number, and what `&`, `|` and `^` of C do to each of them.
use Prim.Native.Nat.{
  ℕ, zero, suc, ◌+◌, ◌*◌, ◌/◌, ◌%◌, ◌^◌, ◌<◌, ◌≤◌, min, max, digits, differ, bit_and, bit_or,
  bit_xor, bit_and-bitwise, bit_or-bitwise, bit_xor-bitwise,
}
use mathlib.Core.Path.{◌≡◌, refl, ◌∙◌, ap}
use mathlib.Core.Logic.{◌≢◌, ◌↔◌}
use mathlib.Core.Bool.{Bool, true, ◌&&◌}
use native.Mathlib.Nat.{pow-suc}
use native.Mathlib.Omega.{arith}
use native.Mathlib.Decide.{ℕ_discrete}

-- The digit of weight 2^i.
unfoldable pub bit : ℕ → ℕ → ℕ
bit x zero = x % 2
bit x (suc i) = bit (x / 2) i

pub bit-lt : (x i : ℕ) → bit x i < 2
unfolding bit
bit-lt x zero = omega arith
bit-lt x (suc i) = bit-lt (x / 2) i

bit-zero : (i : ℕ) → bit 0 i ≡ 0
unfolding bit
bit-zero zero = refl
bit-zero (suc i) = bit-zero i

-- A number whose digits are all zero is zero.
zero_of_bits : (n x : ℕ) → x ≤ n → ((i : ℕ) → bit x i ≡ 0) → x ≡ 0
unfolding bit
zero_of_bits zero x h d = omega arith
zero_of_bits (suc n) zero h d = refl
zero_of_bits (suc n) (suc x) h d =
    omega (arith, d 0, zero_of_bits n (suc x / 2) (omega arith) (λ i. d (suc i)))

low_digit : (q r : ℕ) → r < 2 → (q * 2 + r) % 2 ≡ r
low_digit q r h = omega arith

high_digits : (q r : ℕ) → r < 2 → (q * 2 + r) / 2 ≡ q
high_digits q r h = omega arith

module _ (z : ℕ → ℕ) (f : ℕ → ℕ → ℕ) (rest : (b i : ℕ) → bit (z b) i ≡ f 0 (bit b i))
    (small : (x y : ℕ) → x < 2 → y < 2 → f x y < 2) where
  -- An operation digit by digit is that operation at each digit.
  bit-digits : (n a b i : ℕ) → a ≤ n → bit (digits z f n a b) i ≡ f (bit a i) (bit b i)
  unfolding bit
  bit-digits zero zero b i h = rest b i ∙ rw bit-zero
  bit-digits zero (suc a) b i h = absurd (omega arith)
  bit-digits (suc n) zero b i h = rest b i ∙ rw bit-zero
  bit-digits (suc n) (suc a) b zero h =
      low_digit _ (f (suc a % 2) (b % 2)) (small (suc a % 2) (b % 2) (omega arith) (omega arith))
  bit-digits (suc n) (suc a) b (suc i) h =
      rw
        (high_digits (digits z f n (suc a / 2) (b / 2)) (f (suc a % 2) (b % 2))
          (small (suc a % 2) (b % 2) (omega arith) (omega arith)))
        (bit-digits n (suc a / 2) (b / 2) i (omega arith))

min-lt_two : (x y : ℕ) → x < 2 → y < 2 → min x y < 2
min-lt_two x y h k = omega arith

max-lt_two : (x y : ℕ) → x < 2 → y < 2 → max x y < 2
max-lt_two x y h k = omega arith

differ-lt_two : (x y : ℕ) → x < 2 → y < 2 → differ x y < 2
differ-lt_two zero y h k = k
differ-lt_two (suc x) zero h k = h
differ-lt_two (suc x) (suc y) h k = differ-lt_two x y (omega arith) (omega arith)

pub bit-bit_and : (a b i : ℕ) → bit (bit_and a b) i ≡ min (bit a i) (bit b i)
bit-bit_and a b i =
    rw bit_and-bitwise
      (bit-digits (λ _. 0) min (λ _ j. bit-zero j ∙ omega arith) min-lt_two a a b i (omega arith))

pub bit-bit_or : (a b i : ℕ) → bit (bit_or a b) i ≡ max (bit a i) (bit b i)
bit-bit_or a b i =
    rw bit_or-bitwise
      (bit-digits (λ c. c) max (λ c j. omega arith) max-lt_two a a b i (omega arith))

pub bit-bit_xor : (a b i : ℕ) → bit (bit_xor a b) i ≡ differ (bit a i) (bit b i)
bit-bit_xor a b i =
    rw bit_xor-bitwise
      (bit-digits (λ c. c) differ (λ c j. refl) differ-lt_two a a b i (omega arith))

half-pow : (k : ℕ) → 2 ^ suc k / 2 ≡ 2 ^ k
half-pow k = omega (arith, pow-suc 2 k)

bit-pow_self : (i : ℕ) → bit (2 ^ i) i ≡ 1
unfolding bit
bit-pow_self zero = refl
bit-pow_self (suc i) = rw (half-pow i) (bit-pow_self i)

bit-pow_ne : (i j : ℕ) → i ≢ j → bit (2 ^ i) j ≡ 0
unfolding bit
bit-pow_ne zero zero h = absurd (h refl)
bit-pow_ne zero (suc j) h = bit-zero j
bit-pow_ne (suc i) zero h = omega (arith, pow-suc 2 i)
bit-pow_ne (suc i) (suc j) h = rw (half-pow i) (bit-pow_ne i j (λ e. h (ap suc e)))

-- `(x & BIT (i)) == 0` tests the digit of weight 2^i.
pub bit_and-pow-eq-zero : (x i : ℕ) → (bit_and x (2 ^ i) ≡ 0) ↔ (bit x i ≡ 0)
bit_and-pow-eq-zero x i = (
  λ h. omega (
    arith,
    bit-bit_and x (2 ^ i) i,
    bit-pow_self i,
    bit-lt x i,
    ap (λ (t : ℕ). bit t i) h,
    bit-zero i,
  ),
  λ h. zero_of_bits (bit_and x (2 ^ i)) _ (omega arith) (λ j. elim (ℕ_discrete i j) [
    | yes e ↦ bit-bit_and x (2 ^ i) j ∙ rw (← e, h) (omega arith)
    | no ne ↦ bit-bit_and x (2 ^ i) j ∙ rw (bit-pow_ne i j ne) (omega arith)
  ]),
)

below_one : (x : ℕ) → x < 1 → x ≡ 0
below_one x h = omega arith

-- A number has no digits from the width of its bound on.
pub bit-high : (k x i : ℕ) → x < 2 ^ k → k ≤ i → bit x i ≡ 0
unfolding bit
bit-high zero x i h k = rw (below_one x h) (bit-zero i)
bit-high (suc k) x zero h le = absurd (omega arith)
bit-high (suc k) x (suc i) h le = bit-high k (x / 2) i (omega (arith, pow-suc 2 k)) (omega arith)

-- A test that all numbers below a bound pass.
unfoldable pub passes_below : ℕ → (ℕ → Bool) → Bool
passes_below zero test = true
passes_below (suc n) test = test n && passes_below n test

pub passes_at :
    (n : ℕ) (test : ℕ → Bool) (x : ℕ) → passes_below n test ≡ true → x < n → test x ≡ true
unfolding passes_below
passes_at zero test x h below = absurd (omega arith)
passes_at (suc n) test x h below = ground (arith, passes_at n test x)
