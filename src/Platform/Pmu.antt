-- ===== src/Platform/Pmu.antt =====
-- SetPmuCounter of ArmPlatformLib.c, against the binary digits of the register.
use odp_platform_radxa_orion.Common.{
  ℕ, ◌<◌, ◌≡◌, ◌^◌, ◌∙◌, true, arith, ltb, ◌==◌, if◌then◌else◌, refl, ==→eq,
}
use odp_platform_radxa_orion.Common.Bits.{
  bit, bit-bit_and, bit-bit_or, bit-high, bit-lt, passes_below, passes_at,
}
use odp_platform_radxa_orion.Platform.{set_pmu_counter}

-- The digits of the mask ~0x1F, of 32 bits.
mask_table : passes_below 32 (λ i. bit 0xFFFFFFE0 i == (if ltb i 5 then 0 else 1)) ≡ true
unfolding passes_below bit
mask_table = refl

mask_bit : (i : ℕ) → i < 32 → bit 0xFFFFFFE0 i ≡ (if ltb i 5 then 0 else 1)
mask_bit i h = ==→eq _ _ (passes_at 32 _ i mask_table h)

-- If the PCD's number of counters is below 32, SetPmuCounter puts it into the five low bits of the
-- register and leaves the other bits of the 32 as they were.
pub set_pmu_counter_bits :
    (num mdcr i : ℕ)
    → num < 2 ^ 5
    → i < 32
    → bit (set_pmu_counter num mdcr).1 i ≡ (if ltb i 5 then bit num i else bit mdcr i)
unfolding set_pmu_counter
set_pmu_counter_bits num mdcr i fits h =
    bit-bit_or _ num i
    ∙ rw (bit-bit_and mdcr 0xFFFFFFE0 i, mask_bit i h)
        (ground (arith, bit-high 5 num i fits, bit-lt mdcr i))
