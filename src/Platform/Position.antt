-- ===== src/Platform/Position.antt =====
-- ArmPlatformGetCorePosition of ArmPlatformHelper.S on the table of PrePeiCoreGetMpCoreInfo.
use mathlib.Core.Path.{subst}
use odp_platform_radxa_orion.Common.{
  ℕ, zero, suc, ◌+◌, ◌*◌, ◌<◌, ◌≤◌, ◌≡◌, refl, ap, ap₂, Bool, true, Bool-cases, inl, inr, arith,
  ◌==◌, if◌then◌else◌, ==→eq, List, [], ◌∷◌, map, some, none,
}
use odp_platform_radxa_orion.Common.Lists.{length, All}
use odp_platform_radxa_orion.Common.Bits.{bit, passes_below, passes_at}
use odp_platform_radxa_orion.Efi.{success}
use odp_platform_radxa_orion.Platform.{
  arm_platform_get_core_position, arm_platform_get_platform_ppi_list, pre_pei_core_get_mp_core_info,
}
use odp_platform_radxa_orion.Platform.Cores.{living_cores, pre_pei_core_get_mp_core_info_lem}

-- The numbers from `index` on, for so many rounds, of the cores whose digit is zero.
unfoldable pub zero_digits : ℕ → ℕ → ℕ → List ℕ
zero_digits reg zero index = []
zero_digits reg (suc rounds) index =
    let rest = zero_digits reg rounds (index + 1) in
    if bit reg index == 0 then index ∷ rest else rest

-- The MPIDR of a core has its number in the second byte.
abbrev pub mpidr : ℕ → ℕ
mpidr core = core * 256

living_cores-zero_digits :
    (reg rounds index : ℕ)
    → living_cores reg rounds index ≡ map mpidr (zero_digits reg rounds index)
unfolding living_cores zero_digits
living_cores-zero_digits reg zero index = refl
living_cores-zero_digits reg (suc rounds) index = elim (Bool-cases (bit reg index == 0)) [
  | inl e ↦ rw e (ap (λ t. mpidr index ∷ t) (living_cores-zero_digits reg rounds (index + 1)))
  | inr e ↦ rw e (living_cores-zero_digits reg rounds (index + 1))
]

positions_table : passes_below 12 (λ i. arm_platform_get_core_position 0xFF00 (mpidr i) == i) ≡ true
unfolding passes_below arm_platform_get_core_position
positions_table = refl

position_lem : (i : ℕ) → i < 12 → arm_platform_get_core_position 0xFF00 (mpidr i) ≡ i
position_lem i h =
    ==→eq _ _
      (passes_at 12 (λ j. arm_platform_get_core_position 0xFF00 (mpidr j) == j) i positions_table h)

positions :
    (reg rounds index : ℕ)
    → index + rounds ≤ 12
    → map (arm_platform_get_core_position 0xFF00) (map mpidr (zero_digits reg rounds index))
      ≡ zero_digits reg rounds index
unfolding zero_digits
positions reg zero index h = refl
positions reg (suc rounds) index h = elim (Bool-cases (bit reg index == 0)) [
  | inl e ↦ rw e (
      ap₂ (λ x xs. x ∷ xs) (position_lem index (omega arith))
        (positions reg rounds (index + 1) (omega arith)))
  | inr e ↦ rw e (positions reg rounds (index + 1) (omega arith))
]

-- ArmPlatformGetPlatformPpiList gives a list of 24 bytes, each PPI of which has the GUID of the
-- core information and the function PrePeiCoreGetMpCoreInfo. This succeeds and counts the cores
-- among the twelve whose digit of the register is zero. An allocated table holds the MPIDRs of
-- exactly these cores in order, with the core's number in the second byte, and
-- ArmPlatformGetCorePosition gives each core's number back, if ARM_CLUSTER_MASK is 0xFF00. If the
-- table was not allocated there was a write through NULL, unless there is no such core.
pub core_positions :
    (allocated : Bool) (reg arm_cluster_mask guid : ℕ)
    → arm_cluster_mask ≡ 0xFF00
    → let cores = zero_digits reg 12 0 in
      let table = map mpidr cores in
      let (ppi_list_size, ppi_list) = arm_platform_get_platform_ppi_list guid in
      (ppi_list_size ≡ 24)
      × All
          (λ d.
            (d.guid ≡ guid)
            × (d.ppi allocated reg ≡ (
              success,
              length table,
              if allocated then some table else if length table == 0 then some [] else none,
            )))
          ppi_list
      × (map (arm_platform_get_core_position arm_cluster_mask) table ≡ cores)
core_positions allocated reg arm_cluster_mask guid mask = (
  refl,
  (
    (
      refl,
      subst
          (λ table. pre_pei_core_get_mp_core_info allocated reg ≡ (
            success,
            length table,
            if allocated then some table else if length table == 0 then some [] else none,
          ))
          (living_cores-zero_digits reg 12 0) (pre_pei_core_get_mp_core_info_lem reg allocated),
    ),
    tt,
  ),
  rw mask (positions reg 12 0 (omega arith)),
)
