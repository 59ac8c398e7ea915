-- ===== src/Passthrough/Flags.antt =====
-- The tests of a packet's flags in send_cmd, against their binary digits.
use native.Mathlib.Decide.{ℕ_discrete}
use odp_platform_radxa_orion.Common.{
  ℕ, ◌≡◌, ◌≢◌, ◌<◌, ◌^◌, refl, not, ◌==◌, bit_and, arith, eq→==, ne→==,
}
use odp_platform_radxa_orion.Common.Bits.{bit, bit-lt, bit_and-pow-eq-zero}
use odp_platform_radxa_orion.Passthrough.{is_start, is_end}
use odp_platform_radxa_orion.Passthrough.Packets.{starts_message, ends_message}

digit_one : (d : ℕ) → d < 2 → d ≢ 0 → d ≡ 1
digit_one d h k = omega arith

module _ (flags : ℕ) where
  digit_test : (i : ℕ) → not (bit_and flags (2 ^ i) == 0) ≡ (bit flags i == 1)
  digit_test i = elim (ℕ_discrete (bit flags i) 0) [
    | yes e ↦ rw (eq→== (bit_and flags (2 ^ i)) 0 ((bit_and-pow-eq-zero flags i).1 e), e) refl
    | no ne ↦
        rw
          (
            ne→== (bit_and flags (2 ^ i)) 0 (λ e. ne ((bit_and-pow-eq-zero flags i).0 e)),
            digit_one (bit flags i) (bit-lt flags i) ne,
          )
          refl
  ]

  pub is_start_lem : is_start flags ≡ starts_message flags
  is_start_lem = digit_test 7

  pub is_end_lem : is_end flags ≡ ends_message flags
  is_end_lem = digit_test 6
