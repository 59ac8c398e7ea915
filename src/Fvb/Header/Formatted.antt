-- ===== src/Fvb/Header/Formatted.antt =====
-- ValidateFvHeader on the headers that InitializeFvAndVariableStoreHeaders builds.
use odp_platform_radxa_orion.Common.{
  ℕ, ◌+◌, ◌-◌, ◌*◌, ◌%◌, ◌^◌, ◌<◌, ◌≡◌, arith, ltb, if◌then◌else◌, refl, fun_ext, sub32, ◌∙◌, some,
}
use odp_platform_radxa_orion.Flash.{Buffer, NorFlashInstance}
use odp_platform_radxa_orion.Flash.Laws.{copied}
use odp_platform_radxa_orion.Fvb.Header.Memory.{load, from}
use odp_platform_radxa_orion.Fvb.Header.Environment.{word_sum, Pcds, Guids, BaseLib, IsBaseLib}
use odp_platform_radxa_orion.Fvb.Header.Build.{
  headers_length, header_length, fvh_signature, fv_length, unsummed_header, summed_header,
  combined_headers,
}
use odp_platform_radxa_orion.Efi.{success}
use odp_platform_radxa_orion.Fvb.Header.Validate.{validate_headers, validate_store}
use odp_platform_radxa_orion.Fvb.Header.Sums.{word_sum-cong, word_sum-store}

-- The first 100 bytes, as they are read into a buffer of zeros.
abbrev pub headers_of : Buffer → Buffer
headers_of bytes i = if ltb i headers_length then bytes i else 0

copy_guid-eq :
    (base : BaseLib)
    → IsBaseLib base
    → base.copy_guid ≡ (λ buffer offset guid. copied offset 16 guid buffer)
copy_guid-eq base laws =
    fun_ext λ buffer. fun_ext λ offset. fun_ext λ guid. fun_ext λ x. laws.copy buffer offset guid x

module _ (base : BaseLib) (laws : IsBaseLib base) (guids : Guids) (pcds : Pcds)
    (inst : NorFlashInstance) where
  abbrev formatted : Buffer
  formatted = headers_of (combined_headers base guids pcds inst)

  load_revision : load formatted 55 1 ≡ 2
  unfolding combined_headers summed_header unsummed_header
  load_revision = rw (copy_guid-eq base laws) refl

  load_length : load formatted 48 2 ≡ header_length
  unfolding combined_headers summed_header unsummed_header
  load_length = rw (copy_guid-eq base laws) refl

  load_signature : load formatted 40 4 ≡ fvh_signature
  unfolding combined_headers summed_header unsummed_header
  load_signature = rw (copy_guid-eq base laws) refl

  volume_length : load formatted 32 8 ≡ fv_length pcds
  unfolding combined_headers summed_header unsummed_header
  volume_length = rw (copy_guid-eq base laws) (omega arith)

  load_store_size : load formatted (header_length + 16) 4 ≡ sub32 pcds.variable_size header_length
  unfolding combined_headers
  load_store_size = omega arith

  store_guid : (i : ℕ) → i < 16 → from formatted header_length i ≡ guids.authenticated_variable i
  unfolding combined_headers
  store_guid i h = rw (copy_guid-eq base laws) (ground arith)

  volume_guid : (i : ℕ) → i < 16 → from formatted 16 i ≡ guids.system_nv_data_fv i
  unfolding combined_headers summed_header unsummed_header
  volume_guid i h = rw (copy_guid-eq base laws) (ground arith)

  zero_checksum :
      (unsummed_header base guids pcds inst 50 ≡ 0) × (unsummed_header base guids pcds inst 51 ≡ 0)
  unfolding unsummed_header
  zero_checksum = rw (copy_guid-eq base laws) (refl, refl)

  header_bytes : (i : ℕ) → i < 2 * 36 → formatted i ≡ summed_header base guids pcds inst i
  unfolding combined_headers
  header_bytes i h = rw (copy_guid-eq base laws) (ground arith)

  checksum : ℕ
  checksum = base.calculate_check_sum16 (unsummed_header base guids pcds inst) header_length

  checksum_lem :
      checksum ≡ (2 ^ 16 - word_sum (unsummed_header base guids pcds inst) 36 % 2 ^ 16) % 2 ^ 16
  unfolding checksum
  checksum_lem =
      rw (← laws.sum16 (unsummed_header base guids pcds inst) 36)
        (laws.check_sum16 (unsummed_header base guids pcds inst) header_length)

  summed-word_sum :
      word_sum (summed_header base guids pcds inst) 36
      ≡ word_sum (unsummed_header base guids pcds inst) 36 + checksum
  unfolding checksum summed_header
  summed-word_sum =
      word_sum-store (unsummed_header base guids pcds inst) 25 36 _ (omega arith) zero_checksum.0
        zero_checksum.1 (unfold checksum in omega (arith, checksum_lem))

  zero_sum : base.calculate_sum16 formatted header_length ≡ 0
  zero_sum =
      laws.sum16 formatted 36
      ∙ rw (word_sum-cong 36 formatted _ header_bytes, summed-word_sum, checksum_lem) (omega arith)

  -- With a BaseLib that keeps its laws, the tests of ValidateFvHeader accept the headers that
  -- InitializeFvAndVariableStoreHeaders builds, for all PCDs, GUIDs and instances.
  pub validate_headers-combined_headers : validate_headers base guids pcds formatted ≡ some success
  unfolding validate_headers validate_store
  validate_headers-combined_headers =
      rw
        (
          load_revision,
          load_signature,
          volume_length,
          load_length,
          zero_sum,
          (laws.compare (from formatted 16) guids.system_nv_data_fv).1 volume_guid,
          (laws.compare (from formatted header_length) guids.authenticated_variable).1 store_guid,
          load_store_size,
        )
        (ground arith)
