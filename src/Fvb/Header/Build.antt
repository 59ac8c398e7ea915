-- ===== src/Fvb/Header/Build.antt =====
-- InitializeFvAndVariableStoreHeaders: the checks of the layout, the headers, and their write.
use odp_platform_radxa_orion.Common.{
  ℕ, ◌+◌, ◌/◌, ◌%◌, Bool, ◌||◌, not, Option, none, some, leb, ◌==◌, if◌then◌else◌, add64, add32,
  sub32, bit_or,
}
use odp_platform_radxa_orion.Efi.{Status, error}
use odp_platform_radxa_orion.Efi.{invalid_parameter}
use odp_platform_radxa_orion.Flash.{Buffer, NorFlashInstance, NorFlashLib}
use odp_platform_radxa_orion.Fvb.Attributes.{
  read_enabled_cap, read_status, sticky_write, erase_polarity, write_status, write_enabled_cap,
}
use odp_platform_radxa_orion.Fvb.Header.Memory.{store, zeros}
use odp_platform_radxa_orion.Fvb.Header.Environment.{Pcds, Guids, BaseLib, PoolLib}

-- sizeof (EFI_FIRMWARE_VOLUME_HEADER) + sizeof (EFI_FV_BLOCK_MAP_ENTRY)
abbrev pub header_length : ℕ
header_length = 72

-- ... + sizeof (VARIABLE_STORE_HEADER)
abbrev pub headers_length : ℕ
headers_length = 100

abbrev pub fvh_signature : ℕ
fvh_signature = 0x4856465F

abbrev pub fvh_revision : ℕ
fvh_revision = 2

-- PcdGet64 (...Base64) if it is not zero, and PcdGet32 (...Base) if it is
abbrev pub base_pcd : ℕ → ℕ → ℕ
base_pcd base64 base = if base64 == 0 then base else base64

abbrev pub variable_base : Pcds → ℕ
variable_base pcds = base_pcd pcds.variable_base64 pcds.variable_base

abbrev pub ftw_working_base : Pcds → ℕ
ftw_working_base pcds = base_pcd pcds.ftw_working_base64 pcds.ftw_working_base

abbrev pub ftw_spare_base : Pcds → ℕ
ftw_spare_base pcds = base_pcd pcds.ftw_spare_base64 pcds.ftw_spare_base

-- The sum of the three sizes, of 32 bits.
abbrev pub fv_length : Pcds → ℕ
fv_length pcds = add32 (add32 pcds.variable_size pcds.ftw_working_size) pcds.ftw_spare_size

-- `(Size <= 0) || (Size / BlockSize <= 0)`
abbrev pub too_small : ℕ → ℕ → Bool
too_small size block_size = leb size 0 || leb (size / block_size) 0

-- Whether one of the checks of the layout refuses it.
unfoldable pub layout_refused : Pcds → ℕ → Bool
layout_refused pcds block_size =
    not (add64 (variable_base pcds) pcds.variable_size == ftw_working_base pcds)
    || (not (add64 (ftw_working_base pcds) pcds.ftw_working_size == ftw_spare_base pcds)
        || (too_small pcds.variable_size block_size
            || (too_small pcds.ftw_working_size block_size
                || (too_small pcds.ftw_spare_size block_size
                    || (not (variable_base pcds % block_size == 0)
                        || (not (ftw_working_base pcds % block_size == 0)
                            || not (ftw_spare_base pcds % block_size == 0)))))))

module _ (base : BaseLib) (guids : Guids) (pcds : Pcds) (inst : NorFlashInstance) where
  -- The volume header before its checksum is assigned.
  unfoldable pub unsummed_header : Buffer
  unsummed_header =
      let guid = base.copy_guid zeros 16 guids.system_nv_data_fv in
      let fv_length = store guid 32 8 (fv_length pcds) in
      let signature = store fv_length 40 4 fvh_signature in
      let attributes = store signature 44 4 (
        bit_or
          (bit_or
            (bit_or (bit_or (bit_or read_enabled_cap read_status) sticky_write) erase_polarity)
            write_status)
          write_enabled_cap) in
      let length = store attributes 48 2 header_length in
      let revision = store length 55 1 fvh_revision in
      let blocks0 = store revision 56 4 inst.blocks in
      let length0 = store blocks0 60 4 inst.media.block_size in
      let blocks1 = store length0 64 4 0 in store blocks1 68 4 0

  unfoldable pub summed_header : Buffer
  summed_header =
      store unsummed_header 50 2 (base.calculate_check_sum16 unsummed_header header_length)

  -- Both headers, the variable store's at the end of the volume's.
  unfoldable pub combined_headers : Buffer
  combined_headers =
      let signature = base.copy_guid summed_header header_length guids.authenticated_variable in
      let size = store signature (header_length + 16) 4 (sub32 pcds.variable_size header_length) in
      let format = store size (header_length + 20) 1 0x5a in
      store format (header_length + 21) 1 0xfe

module _ {W : Type 0} (lib : NorFlashLib W) (pool : PoolLib W) (base : BaseLib) (guids : Guids)
    (pcds : Pcds) where
  -- `none` is a write through the NULL that AllocateZeroPool returned, which is not tested. A
  -- refused layout leaves the buffer allocated.
  unfoldable pub initialize_fv_and_variable_store_headers :
      NorFlashInstance → W → Option (Status × W)
  initialize_fv_and_variable_store_headers inst w =
      let (allocated, w1) = pool.allocate_zero_pool headers_length w in
      let (status, w2) =
        lib.nor_flash_write inst inst.start_lba 0 headers_length
          (combined_headers base guids pcds inst) w1 in
      if layout_refused pcds inst.media.block_size
      then some (error invalid_parameter, w1)
      else if allocated
      then some (status, pool.free_pool w2)
      else none
