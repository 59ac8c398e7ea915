-- ===== src/Fvb/Header/Holds.antt =====
-- The headers on the device: written by InitializeFvAndVariableStoreHeaders, and accepted by
-- ValidateFvHeader.

use odp_platform_radxa_orion.Common.{
  ℕ, ◌+◌, ◌<◌, ◌≡◌, ◌∙◌, refl, ap, fun_ext, true, false, Bool-cases, inl, inr, some, ltb,
  if◌then◌else◌, ltb→lt,
}
use odp_platform_radxa_orion.Efi.{Status, success, efi_error}
use odp_platform_radxa_orion.Flash.{Buffer, NorFlashInstance, NorFlashLib}
use odp_platform_radxa_orion.Flash.Laws.{IsNorFlash, IsErased, block_start, copied_inside}
use odp_platform_radxa_orion.Fvb.Header.Memory.{zeros}
use odp_platform_radxa_orion.Fvb.Header.Environment.{
  Pcds, Guids, BaseLib, IsBaseLib, PoolLib, IsPoolLib,
}
use odp_platform_radxa_orion.Fvb.Header.Build.{
  headers_length, combined_headers, initialize_fv_and_variable_store_headers,
}
use odp_platform_radxa_orion.Fvb.Header.Validate.{validate_fv_header}
use odp_platform_radxa_orion.Fvb.Header.Formatted.{headers_of, validate_headers-combined_headers}
use odp_platform_radxa_orion.Fvb.Header.RoundTrip.{initialized, written_contents}

module _ {W : Type 0} (contents : W → Buffer) (base : BaseLib) (guids : Guids) (pcds : Pcds) where
  -- The device holds the headers at the start of the instance's volume.
  abbrev pub HoldsHeaders : NorFlashInstance → W → Type 0
  HoldsHeaders inst w =
      (i : ℕ)
      → i < headers_length
      → contents w (block_start inst inst.start_lba + 0 + i)
        ≡ combined_headers base guids pcds inst i

module _ {W : Type 0} (lib : NorFlashLib W) (contents : W → Buffer)
    (flash : IsNorFlash lib contents) (pool : PoolLib W) (separate : IsPoolLib pool contents)
    (base : BaseLib) (laws : IsBaseLib base) (guids : Guids) (pcds : Pcds) where
  pub initialize-HoldsHeaders :
      (inst : NorFlashInstance) (w v : W) (s : Status)
      → IsErased (contents w) (block_start inst inst.start_lba + 0) headers_length
      → initialize_fv_and_variable_store_headers lib pool base guids pcds inst w ≡ some (s, v)
      → efi_error s ≡ false
      → HoldsHeaders contents base guids pcds inst v
  initialize-HoldsHeaders inst w v s blank done ok i h =
      let (clean, state) =
        initialized lib contents flash pool separate base laws guids pcds inst w s v done ok in
      ap (λ u. contents u (block_start inst inst.start_lba + 0 + i)) state
      ∙ written_contents lib contents flash pool separate base laws guids pcds inst w blank clean _
      ∙ copied_inside (block_start inst inst.start_lba + 0) headers_length i
          (combined_headers base guids pcds inst) (contents w) h

  held :
      (inst : NorFlashInstance) (w : W) (i : ℕ)
      → HoldsHeaders contents base guids pcds inst w
      → (if ltb i headers_length then contents w (block_start inst inst.start_lba + 0 + i) else 0)
        ≡ headers_of (combined_headers base guids pcds inst) i
  held inst w i holds = elim (Bool-cases (ltb i headers_length)) [
    | inl e ↦ rw e (holds i (ltb→lt i headers_length e))
    | inr e ↦ rw e refl
  ]

  -- A world that holds the headers passes their tests, if the buffer is allocated and the device
  -- is read.
  pub validate-HoldsHeaders :
      (inst : NorFlashInstance) (w : W)
      → HoldsHeaders contents base guids pcds inst w
      → (pool.allocate_zero_pool headers_length w).0 ≡ true
      → efi_error
          (lib.nor_flash_read inst inst.start_lba 0 headers_length zeros
            (pool.allocate_zero_pool headers_length w).1).0
        ≡ false
      → validate_fv_header lib pool base guids pcds inst w
        ≡ some (
          success,
          (lib.nor_flash_read inst inst.start_lba 0 headers_length zeros
              (pool.allocate_zero_pool headers_length w).1).2,
        )
  unfolding validate_fv_header
  validate-HoldsHeaders inst w holds got read =
      let bytes : (lib.nor_flash_read inst inst.start_lba 0 headers_length zeros
            (pool.allocate_zero_pool headers_length w).1).1
          ≡ headers_of (combined_headers base guids pcds inst) =
        fun_ext (λ i.
          flash.read_ok inst inst.start_lba 0 headers_length zeros _ read i
          ∙ rw (separate.allocate_keeps headers_length w) (held inst w i holds)) in
      rw (got, read, bytes, validate_headers-combined_headers base laws guids pcds inst) refl
