-- ===== src/Platform/Cores.antt =====
-- GetArmCoreInfoFromReg and PrePeiCoreGetMpCoreInfo of ArmPlatformLib.c, against the binary digits
-- of the register.
use Prim.Native.Nat.{differ}
use mathlib.Core.List.{append-nil, append_assoc}
use native.Mathlib.Nat.{zero-add}
use odp_platform_radxa_orion.Common.{
  ℕ, zero, suc, ◌+◌, ◌-◌, ◌*◌, ◌<◌, ◌≤◌, ◌≡◌, ◌∙◌, Bool, true, arith, ◌==◌, if◌then◌else◌, refl,
  ==→eq, List, [], ◌∷◌, ◌++◌, some, none, min,
}
use odp_platform_radxa_orion.Common.Lists.{length}
use odp_platform_radxa_orion.Common.Bits.{
  bit, bit-bit_and, bit-bit_xor, bit-lt, bit_and-pow-eq-zero, passes_below, passes_at,
}
use odp_platform_radxa_orion.Platform.{
  core_bit_mask, in_mask, count_cores, fill_table, get_arm_core_info_from_reg,
  pre_pei_core_get_mp_core_info,
}
use odp_platform_radxa_orion.Efi.{success}

-- The cores from `index` on, for so many rounds, whose digit of the register is zero: the MPIDR
-- of a core has its number in the second byte.
unfoldable pub living_cores : ℕ → ℕ → ℕ → List ℕ
living_cores reg zero index = []
living_cores reg (suc rounds) index =
    if bit reg index == 0
    then index * 256 ∷ living_cores reg rounds (index + 1)
    else living_cores reg rounds (index + 1)

ones_table : passes_below 12 (λ i. bit 0xFFF i == 1) ≡ true
unfolding passes_below bit
ones_table = refl

ones_bit : (i : ℕ) → i < 12 → bit 0xFFF i ≡ 1
ones_bit i h = ==→eq _ _ (passes_at 12 _ i ones_table h)

flipped : (b : ℕ) → b < 2 → min (differ b 1) 1 ≡ 1 - b
flipped zero h = refl
flipped (suc zero) h = refl
flipped (suc (suc b)) h = absurd (omega arith)

mask_bit : (reg i : ℕ) → i < 12 → bit (core_bit_mask reg) i ≡ 1 - bit reg i
mask_bit reg i h =
    bit-bit_and _ 0xFFF i
    ∙ rw (bit-bit_xor reg 0xFFF i, ones_bit i h) (flipped (bit reg i) (bit-lt reg i))

-- The test of the loops is that of the register's digit.
in_mask-core_bit_mask : (reg i : ℕ) → i < 12 → in_mask (core_bit_mask reg) i ≡ (bit reg i == 0)
in_mask-core_bit_mask reg i h =
    ground (arith, mask_bit reg i h, bit-lt reg i, bit_and-pow-eq-zero (core_bit_mask reg) i)

module _ (reg : ℕ) where
  count_cores_lem :
      (rounds index count : ℕ)
      → index + rounds ≤ 12
      → count_cores (core_bit_mask reg) rounds index count
        ≡ count + length (living_cores reg rounds index)
  unfolding count_cores living_cores
  count_cores_lem zero index count h = omega arith
  count_cores_lem (suc rounds) index count h =
      rw
        (
          in_mask-core_bit_mask reg index (omega arith),
          count_cores_lem rounds (index + 1) (if bit reg index == 0 then count + 1 else count)
              (omega arith),
        )
        (ground arith)

  fill_table_lem :
      (rounds index : ℕ) (table : List ℕ)
      → index + rounds ≤ 12
      → fill_table (core_bit_mask reg) rounds index table ≡ table ++ living_cores reg rounds index
  unfolding fill_table living_cores
  fill_table_lem zero index table h = rw append-nil
  fill_table_lem (suc rounds) index table h =
      rw
        (
          in_mask-core_bit_mask reg index (omega arith),
          fill_table_lem rounds (index + 1)
              (if bit reg index == 0 then table ++ (index * 256 ∷ []) else table) (omega arith),
        )
        (ground
          (arith, append_assoc table (index * 256 ∷ []) (living_cores reg rounds (index + 1))))

  get_arm_core_info_from_reg_lem :
      (allocated : Bool)
      → let cores = living_cores reg 12 0 in
        get_arm_core_info_from_reg allocated reg ≡ (
          length cores,
          if allocated then some cores else if length cores == 0 then some [] else none,
        )
  unfolding get_arm_core_info_from_reg
  get_arm_core_info_from_reg_lem allocated =
      rw (count_cores_lem 12 0 0 (omega arith), fill_table_lem 12 0 [] (omega arith), zero-add) refl

  -- PrePeiCoreGetMpCoreInfo succeeds and counts the cores among the twelve whose digit of the
  -- register is zero. An allocated table holds the MPIDRs of exactly these cores in order; if the
  -- table was not allocated there was a write through NULL, unless there is no such core.
  pub pre_pei_core_get_mp_core_info_lem :
      (allocated : Bool)
      → let cores = living_cores reg 12 0 in
        pre_pei_core_get_mp_core_info allocated reg ≡ (
          success,
          length cores,
          if allocated then some cores else if length cores == 0 then some [] else none,
        )
  unfolding pre_pei_core_get_mp_core_info
  pre_pei_core_get_mp_core_info_lem allocated = rw (get_arm_core_info_from_reg_lem allocated) refl
