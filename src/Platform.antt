-- ===== src/Platform.antt =====
-- ArmPlatformLib.c: the boot mode, the PMU counters and the table of the cores.
pub mod Pmu
pub mod Cores
pub mod Position
use odp_platform_radxa_orion.Common.{
  ℕ, zero, suc, ◌+◌, ◌*◌, ◌/◌, ◌%◌, ◌^◌, Bool, not, Option, none, some, List, [], ◌∷◌, ◌++◌, ◌==◌,
  if◌then◌else◌, bit_and, bit_or, bit_xor,
}
use odp_platform_radxa_orion.Common.Lists.{length}
use odp_platform_radxa_orion.Efi.{Status, success}

pub data BootMode : Type 0 where
  boot_with_full_configuration boot_with_default_settings : BootMode
  other_boot_mode : ℕ → BootMode

abbrev pub arm_platform_get_boot_mode : BootMode
arm_platform_get_boot_mode = boot_with_full_configuration

-- The register MDCR, of 32 bits, behind SetPmuCounter: the PCD is an UINT8.
pub set_pmu_counter : ℕ → ℕ → Status × ℕ
set_pmu_counter boot_core_pmu_counter_num mdcr =
    (success, bit_or (bit_and mdcr 0xFFFFFFE0) boot_core_pmu_counter_num)

-- The cores that live, as a mask: the register has a zero for each.
abbrev pub core_bit_mask : ℕ → ℕ
core_bit_mask reg = bit_and (bit_xor reg 0xFFF) 0xFFF

-- `CoreBitMask & BIT(Index)`
abbrev pub in_mask : ℕ → ℕ → Bool
in_mask mask index = not (bit_and mask (2 ^ index) == 0)

-- The first loop, with the rounds that are left.
pub count_cores : ℕ → ℕ → ℕ → ℕ → ℕ
count_cores mask zero index core_count = core_count
count_cores mask (suc rounds) index core_count =
    count_cores mask rounds (index + 1) (if in_mask mask index then core_count + 1 else core_count)

-- The second loop: the entries that were written, each by its Mpidr.
pub fill_table : ℕ → ℕ → ℕ → List ℕ → List ℕ
fill_table mask zero index table = table
fill_table mask (suc rounds) index table =
    fill_table mask rounds (index + 1)
      (if in_mask mask index then table ++ (index * 256 ∷ []) else table)

-- *AvlCoreCount, and the entries of the table. The table has room for as many entries as were
-- counted; `none` is a write through the NULL that AllocateZeroPool returned, which is not tested.
pub get_arm_core_info_from_reg : Bool → ℕ → ℕ × Option (List ℕ)
get_arm_core_info_from_reg allocated reg =
    let mask = core_bit_mask reg in
    let core_count = count_cores mask 12 0 0 in
    (
      core_count,
      if allocated
          then some (fill_table mask 12 0 [])
          else if core_count == 0
          then some []
          else none,
    )

-- PrePeiCoreGetMpCoreInfo, of the register of the core information.
pub pre_pei_core_get_mp_core_info : Bool → ℕ → Status × ℕ × Option (List ℕ)
pre_pei_core_get_mp_core_info allocated reg =
    let (core_count, table) = get_arm_core_info_from_reg allocated reg in
    (success, core_count, table)

-- EFI_PEI_PPI_DESCRIPTOR, of which `ppi` is the one function of ARM_MP_CORE_INFO_PPI. A GUID is the
-- address of its variable.
pub record PpiDescriptor : Type 0 where
  pub flags : ℕ
  pub guid : ℕ
  pub ppi : Bool → ℕ → Status × ℕ × Option (List ℕ)

-- mPlatformPpiTable; EFI_PEI_PPI_DESCRIPTOR_PPI is 0x10.
abbrev pub platform_ppi_table : ℕ → List PpiDescriptor
platform_ppi_table arm_mp_core_info_ppi_guid =
    record { flags = 0x10; guid = arm_mp_core_info_ppi_guid; ppi = pre_pei_core_get_mp_core_info }
    ∷ []

-- ArmPlatformGetPlatformPpiList: *PpiListSize and *PpiList. A descriptor has three words of eight
-- bytes.
abbrev pub arm_platform_get_platform_ppi_list : ℕ → ℕ × List PpiDescriptor
arm_platform_get_platform_ppi_list arm_mp_core_info_ppi_guid = (
  length (platform_ppi_table arm_mp_core_info_ppi_guid) * (3 * 8),
  platform_ppi_table arm_mp_core_info_ppi_guid,
)

-- ArmPlatformInitializeSystemMemory
abbrev pub arm_platform_initialize_system_memory : {W : Type 0} → W → W
arm_platform_initialize_system_memory w = w

-- ArmPlatformInitialize without CONFIG_RLOG_ENABLE: the register MDCR, and the world that
-- SetSocFchIpClockAndReset changes.
abbrev pub arm_platform_initialize : {W : Type 0} → (W → W) → ℕ → ℕ → W → Status × ℕ × W
arm_platform_initialize set_soc_fch_ip_clock_and_reset boot_core_pmu_counter_num mdcr w =
    (success, (set_pmu_counter boot_core_pmu_counter_num mdcr).1, set_soc_fch_ip_clock_and_reset w)

-- ArmPlatformPeiBootAction, ArmPlatformGetPrimaryCoreMpId and ArmPlatformIsPrimaryCore of
-- ArmPlatformHelper.S; MOV32 moves 32 bits.
abbrev pub arm_platform_pei_boot_action : {W : Type 0} → W → W
arm_platform_pei_boot_action w = w

abbrev pub arm_platform_get_primary_core_mp_id : ℕ → ℕ
arm_platform_get_primary_core_mp_id arm_primary_core = arm_primary_core % 2 ^ 32

abbrev pub arm_platform_is_primary_core : ℕ → ℕ
arm_platform_is_primary_core mpid = 1

-- ArmPlatformGetCorePosition of ArmPlatformHelper.S, with ARM_CLUSTER_MASK.
unfoldable pub arm_platform_get_core_position : ℕ → ℕ → ℕ
arm_platform_get_core_position arm_cluster_mask mpid = bit_and mpid arm_cluster_mask / 2 ^ 8
