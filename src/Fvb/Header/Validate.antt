-- ===== src/Fvb/Header/Validate.antt =====
-- ValidateFvHeader.
use odp_platform_radxa_orion.Common.{
  ℕ, ◌+◌, ◌||◌, ◌&&◌, not, Option, none, some, ltb, ◌==◌, if◌then◌else◌, sub32,
}
use odp_platform_radxa_orion.Efi.{Status, success, error, efi_error}
use odp_platform_radxa_orion.Efi.{out_of_resources, not_found}
use odp_platform_radxa_orion.Flash.{Buffer, NorFlashInstance, NorFlashLib}
use odp_platform_radxa_orion.Fvb.Header.Memory.{load, zeros, from}
use odp_platform_radxa_orion.Fvb.Header.Environment.{Pcds, Guids, BaseLib, PoolLib}
use odp_platform_radxa_orion.Fvb.Header.Build.{
  headers_length, fvh_signature, fvh_revision, fv_length,
}

module _ (base : BaseLib) (guids : Guids) (pcds : Pcds) where
  -- The tests of the variable store header, which starts where the volume header says it ends.
  unfoldable pub validate_store : Buffer → ℕ → Option Status
  validate_store headers length =
      if ltb headers_length (length + 16)
      then none
      else if not (base.compare_guid (from headers length) guids.variable)
          && not (base.compare_guid (from headers length) guids.authenticated_variable)
      then some (error not_found)
      else if ltb headers_length (length + 20)
      then none
      else if not (load headers (length + 16) 4 == sub32 pcds.variable_size length)
      then some (error not_found)
      else some success

  -- The tests of the 100 bytes that were read. `none` is a read behind their end: the header's
  -- own length, a 16-bit field, says how many bytes are summed, and it is not tested.
  unfoldable pub validate_headers : Buffer → Option Status
  validate_headers headers =
      let length = load headers 48 2 in
      if not (load headers 55 1 == fvh_revision)
        || (not (load headers 40 4 == fvh_signature) || not (load headers 32 8 == fv_length pcds))
      then some (error not_found)
      else if not (base.compare_guid (from headers 16) guids.system_nv_data_fv)
      then some (error not_found)
      else if ltb headers_length length
      then none
      else if not (base.calculate_sum16 headers length == 0)
      then some (error not_found)
      else validate_store headers length

module _ {W : Type 0} (lib : NorFlashLib W) (pool : PoolLib W) (base : BaseLib) (guids : Guids)
    (pcds : Pcds) where
  abbrev pub with_status : W → Option Status → Option (Status × W)
  with_status w none = none
  with_status w (some status) = some (status, w)

  -- The buffer is not freed on any path.
  unfoldable pub validate_fv_header : NorFlashInstance → W → Option (Status × W)
  validate_fv_header inst w =
      let (allocated, w1) = pool.allocate_zero_pool headers_length w in
      let (status, headers, w2) =
        lib.nor_flash_read inst inst.start_lba 0 headers_length zeros w1 in
      if not allocated
      then some (error out_of_resources, w1)
      else if efi_error status
      then some (status, w2)
      else with_status w2 (validate_headers base guids pcds headers)
