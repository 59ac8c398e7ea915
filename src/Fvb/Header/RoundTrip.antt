-- ===== src/Fvb/Header/RoundTrip.antt =====
-- InitializeFvAndVariableStoreHeaders followed by ValidateFvHeader on the same device.

use odp_platform_radxa_orion.Common.{
  ℕ, ◌+◌, ◌≡◌, inl, inr, true, false, arith, ltb, if◌then◌else◌, refl, fun_ext, some, ◌∙◌,
  Bool-cases, le→leb, lt→ltb, add-sub_left, tests,
}
use odp_platform_radxa_orion.Efi.{Status, success, efi_error}
use odp_platform_radxa_orion.Flash.{Buffer, NorFlashInstance, NorFlashLib}
use odp_platform_radxa_orion.Flash.Laws.{copied, IsNorFlash, IsErased, block_start}
use odp_platform_radxa_orion.Fvb.Header.Memory.{zeros}
use odp_platform_radxa_orion.Fvb.Header.Environment.{
  Pcds, Guids, BaseLib, IsBaseLib, PoolLib, IsPoolLib,
}
use odp_platform_radxa_orion.Fvb.Header.Build.{
  headers_length, combined_headers, initialize_fv_and_variable_store_headers,
}
use odp_platform_radxa_orion.Fvb.Header.Validate.{validate_fv_header}
use odp_platform_radxa_orion.Fvb.Header.Formatted.{headers_of, validate_headers-combined_headers}

copied_prefix :
    (a n i : ℕ) (src dst : Buffer)
    → (if ltb i n then copied (a + 0) n src dst (a + 0 + i) else 0) ≡ (if ltb i n then src i else 0)
copied_prefix a n i src dst = elim (Bool-cases (ltb i n)) [
  | inl h ↦
      rw
        (
          h,
          le→leb (a + 0) (a + 0 + i) (omega arith),
          lt→ltb (a + 0 + i) (a + 0 + n) (omega tests),
          add-sub_left (a + 0) i,
        )
        refl
  | inr h ↦ rw h refl
]

module _ {W : Type 0} (lib : NorFlashLib W) (contents : W → Buffer)
    (flash : IsNorFlash lib contents) (pool : PoolLib W) (separate : IsPoolLib pool contents)
    (base : BaseLib) (laws : IsBaseLib base) (guids : Guids) (pcds : Pcds) (inst : NorFlashInstance)
    (w : W) where
  abbrev pub allocated : W
  allocated = (pool.allocate_zero_pool headers_length w).1

  abbrev pub written : Status × W
  written =
      lib.nor_flash_write inst inst.start_lba 0 headers_length
        (combined_headers base guids pcds inst) allocated

  -- The bytes of the device behind an initialization.
  pub written_contents :
      IsErased (contents w) (block_start inst inst.start_lba + 0) headers_length
      → efi_error written.0 ≡ false
      → (x : ℕ)
      → contents (pool.free_pool written.1) x
        ≡ copied
            (block_start inst inst.start_lba + 0)
            headers_length
            (combined_headers base guids pcds inst)
            (contents w)
            x
  written_contents blank ok =
      rw (separate.free_keeps, ← separate.allocate_keeps headers_length w)
        (flash.write_ok inst inst.start_lba 0 headers_length _ allocated ok
          (rw (separate.allocate_keeps headers_length w) blank))

  pub initialized :
      (s : Status) (v : W)
      → initialize_fv_and_variable_store_headers lib pool base guids pcds inst w ≡ some (s, v)
      → efi_error s ≡ false
      → (efi_error written.0 ≡ false) × (v ≡ pool.free_pool written.1)
  unfolding initialize_fv_and_variable_store_headers
  initialized s v h ok = ground arith

  -- The headers that are read back.
  read_back :
      (s : Status) (v : W)
      → IsErased (contents w) (block_start inst inst.start_lba + 0) headers_length
      → initialize_fv_and_variable_store_headers lib pool base guids pcds inst w ≡ some (s, v)
      → efi_error s ≡ false
      → efi_error
          (lib.nor_flash_read inst inst.start_lba 0 headers_length zeros
            (pool.allocate_zero_pool headers_length v).1).0
        ≡ false
      → (lib.nor_flash_read inst inst.start_lba 0 headers_length zeros
          (pool.allocate_zero_pool headers_length v).1).1
        ≡ headers_of (combined_headers base guids pcds inst)
  read_back s v blank done ok read = fun_ext λ i.
      let (clean, state) = initialized s v done ok in
      flash.read_ok inst inst.start_lba 0 headers_length zeros _ read i
      ∙ rw (separate.allocate_keeps headers_length v, state, fun_ext (written_contents blank clean))
          (copied_prefix _ _ i (combined_headers base guids pcds inst) (contents w))

  -- Over a flash, a pool and a BaseLib that keep their laws: if the headers' place on the device
  -- is erased and InitializeFvAndVariableStoreHeaders returns without an error, a ValidateFvHeader
  -- that follows returns EFI_SUCCESS, provided that its buffer is allocated and its read of the
  -- device reports no error.
  pub validate-initialize :
      (s : Status) (v : W)
      → IsErased (contents w) (block_start inst inst.start_lba + 0) headers_length
      → initialize_fv_and_variable_store_headers lib pool base guids pcds inst w ≡ some (s, v)
      → efi_error s ≡ false
      → let (got, v1) = pool.allocate_zero_pool headers_length v in
        let (status, headers, v2) =
          lib.nor_flash_read inst inst.start_lba 0 headers_length zeros v1 in
        got ≡ true
        → efi_error status ≡ false
        → validate_fv_header lib pool base guids pcds inst v ≡ some (success, v2)
  unfolding validate_fv_header
  validate-initialize s v blank done ok got read = rw (
    got,
    read,
    read_back s v blank done ok read,
    validate_headers-combined_headers base laws guids pcds inst,
  )
