-- ===== src/Driver/Created.antt =====
-- What NorFlashCreateInstance stores, on each of its paths.

use odp_platform_radxa_orion.Common.{
  ℕ, ◌+◌, ◌/◌, ◌≤◌, ◌<◌, ◌≡◌, ◌≢◌, ◌⊎◌, inl, inr, arith, sub64, u64, refl, sym, ◌∙◌, ap, Bool, true,
  false, Option, none, some, Bool-cases,
}
use odp_platform_radxa_orion.Efi.{Status, efi_error}
use odp_platform_radxa_orion.Flash.{NorFlashInstance, NorFlashLib, media_at}
use odp_platform_radxa_orion.Fvb.Header.Environment.{Pcds, Guids, BaseLib, PoolLib}
use odp_platform_radxa_orion.Fvb.Header.Validate.{validate_fv_header}
use odp_platform_radxa_orion.Platform.{
  BootMode, boot_with_full_configuration, boot_with_default_settings, other_boot_mode,
}
use odp_platform_radxa_orion.Driver.Services.{Services}
use odp_platform_radxa_orion.Driver.Template.{Addresses, template_copy}
use odp_platform_radxa_orion.Driver.Create.{
  FvbState, Creation, header_status, published, place_volume, fill_instance,
  nor_flash_fvb_initialize, nor_flash_create_instance, with_shadow_buffer, with_instance,
  publish_instance, announce_volume,
}
use odp_platform_radxa_orion.Driver.Geometry.{IsPlaced, Fits, place_volume-IsPlaced}

-- An instance that the protocols can work with: its media is present, writable and its own, its
-- blocks are those of the device, it has a shadow buffer, and its volume is placed.
pub record IsInstance (device_base size index block_size : ℕ) (inst : NorFlashInstance)
    : Type 0 where
  pub media_pointer : inst.block_io_protocol.media ≡ media_at inst.media_address
  pub present : inst.media.media_present ≡ true
  pub writable : inst.media.read_only ≡ false
  pub id : inst.media.media_id ≡ index
  pub block : inst.media.block_size ≡ block_size
  pub last : inst.media.last_block + 1 ≡ size / block_size
  pub shadow : inst.shadow_buffer ≢ none
  pub device : inst.device_base_address ≡ device_base
  pub extent : inst.size ≡ size
  pub placed : IsPlaced inst

-- A creation either fails and stores nothing, or succeeds and stores such an instance, at whose
-- volume mFlashNvStorageVariableBase then points.
abbrev pub Stored : {W : Type 0} → (device_base size index block_size : ℕ) → Creation W → Type 0
Stored device_base size index block_size c =
    ((efi_error c.status ≡ true) × (c.stored ≡ none))
    ⊎ ((efi_error c.status ≡ false)
        × (inst : NorFlashInstance) × (c.stored ≡ some inst)
        × IsInstance device_base size index block_size inst
        × (c.nv_storage_variable_base ≡ inst.region_base_address))

module _ {W : Type 0} (lib : NorFlashLib W) (pool : PoolLib W) (base : BaseLib) (guids : Guids)
    (pcds : Pcds) where
  -- ValidateFvHeader on the instance runs into the fault of an overlong header.
  abbrev pub HeaderFault : NorFlashInstance → Type 0
  HeaderFault inst = (v : W) × (validate_fv_header lib pool base guids pcds inst v ≡ none)

  -- What became of a creation: it returned, or it met that fault on such an instance.
  abbrev pub Outcome : (device_base size index block_size : ℕ) → Option (Creation W) → Type 0
  Outcome device_base size index block_size none =
      (inst : NorFlashInstance) × IsInstance device_base size index block_size inst
      × HeaderFault inst
  Outcome device_base size index block_size (some c) = Stored device_base size index block_size c

  -- The volume of an instance was set up, if the header could be tested.
  abbrev SetUp : NorFlashInstance → Option (FvbState W) → Type 0
  SetUp inst none = HeaderFault inst
  SetUp inst (some st) =
      (st.instance_after ≡ inst) × (st.nv_storage_variable_base ≡ inst.region_base_address)

module _ {W : Type 0} (lib : NorFlashLib W) (pool : PoolLib W) (base : BaseLib) (guids : Guids)
    (pcds : Pcds) (services : Services W) where
  header_status-HeaderFault :
      (mode : BootMode) (inst : NorFlashInstance) (w : W)
      → header_status lib pool base guids pcds services mode inst w ≡ none
      → HeaderFault lib pool base guids pcds inst
  unfolding header_status
  header_status-HeaderFault boot_with_default_settings inst w e = absurd (ground arith)
  header_status-HeaderFault boot_with_full_configuration inst w e = (w, e)
  header_status-HeaderFault (other_boot_mode n) inst w e = (w, e)

  announce_volume-SetUp :
      (inst : NorFlashInstance) (header : Option (Status × W))
      → (header ≡ none → HeaderFault lib pool base guids pcds inst)
      → SetUp lib pool base guids pcds inst
          (announce_volume lib pool base guids pcds services inst header)
  unfolding announce_volume
  announce_volume-SetUp inst none fault = fault refl
  announce_volume-SetUp inst (some (s, w)) fault = elim (Bool-cases (efi_error s)) [
    | inl bad ↦ rw bad (refl, refl)
    | inr fine ↦ rw fine (refl, refl)
  ]

  nor_flash_fvb_initialize-SetUp :
      (inst : NorFlashInstance) (w : W)
      → SetUp lib pool base guids pcds
          (place_volume pcds inst)
          (nor_flash_fvb_initialize lib pool base guids pcds services inst w)
  unfolding nor_flash_fvb_initialize
  nor_flash_fvb_initialize-SetUp inst w =
      announce_volume-SetUp (place_volume pcds inst) _ (header_status-HeaderFault _ _ _)

module _ {W : Type 0} (lib : NorFlashLib W) (pool : PoolLib W) (base : BaseLib) (guids : Guids)
    (pcds : Pcds) (services : Services W) (addresses : Addresses)
    (device_base size index block_size : ℕ) where
  publish_instance-Outcome :
      (address : ℕ) (fvb : Option (FvbState W)) (inst : NorFlashInstance)
      → IsInstance device_base size index block_size inst
      → SetUp lib pool base guids pcds inst fvb
      → Outcome lib pool base guids pcds device_base size index block_size
          (publish_instance lib pool base guids pcds services addresses address fvb)
  unfolding publish_instance
  publish_instance-Outcome address none inst good set = (inst, good, set)
  publish_instance-Outcome address (some st) inst good set =
      elim (Bool-cases (
        efi_error
          (services.install_multiple_protocol_interfaces st.instance_after (published st.status)
            st.world).0)) [
              | inl bad ↦ rw bad (inl (bad, refl))
              | inr fine ↦ rw fine (
                  inr (
                    fine,
                    st.instance_after,
                    refl,
                    rw (set.0) good,
                    set.1 ∙ ap (λ i. i.region_base_address) (sym (set.0)),
                  ))
            ]

  quotient_le : (a b : ℕ) → 0 < b → a / b ≤ a
  quotient_le a b pos = grind arith

  last_block_lem :
      0 < size / block_size
      → size < u64
      → 0 < block_size
      → sub64 (size / block_size) 1 + 1 ≡ size / block_size
  last_block_lem some_block small pos = omega (arith, quotient_le size block_size pos)

  -- The instance that is placed behind both allocations.
  filled_IsInstance :
      (address shadow : ℕ)
      → 0 < size / block_size
      → Fits pcds device_base size block_size
      → IsInstance device_base size index block_size (
          place_volume pcds
            (record (fill_instance addresses device_base size index block_size
              (template_copy addresses address)) { shadow_buffer = some shadow }))
  unfolding place_volume fill_instance template_copy
  filled_IsInstance address shadow some_block fits = record {
    media_pointer = refl;
    present = refl;
    writable = refl;
    id = refl;
    block = refl;
    last = last_block_lem some_block (omega (arith, fits.addresses)) fits.positive;
    shadow = λ e. ground arith;
    device = refl;
    extent = refl;
    placed =
        place_volume-IsPlaced pcds
          (record (fill_instance addresses device_base size index block_size
            (template_copy addresses address)) { shadow_buffer = some shadow })
          fits;
  }

  with_shadow_buffer-Outcome :
      (address nv_base : ℕ) (shadow : Option ℕ) (w : W)
      → 0 < size / block_size
      → Fits pcds device_base size block_size
      → Outcome lib pool base guids pcds device_base size index block_size (
          with_shadow_buffer lib pool base guids pcds services addresses address
            (fill_instance addresses device_base size index block_size
              (template_copy addresses address))
            nv_base
            (shadow, w))
  unfolding with_shadow_buffer
  with_shadow_buffer-Outcome address nv_base none w some_block fits = inl (refl, refl)
  with_shadow_buffer-Outcome address nv_base (some shadow) w some_block fits =
      publish_instance-Outcome address _ _ (filled_IsInstance address shadow some_block fits)
        (nor_flash_fvb_initialize-SetUp lib pool base guids pcds services _ w)

  with_instance-Outcome :
      (nv_base : ℕ) (address : Option ℕ) (w : W)
      → 0 < size / block_size
      → Fits pcds device_base size block_size
      → Outcome lib pool base guids pcds device_base size index block_size (
          with_instance lib pool base guids pcds services addresses device_base size index
            block_size nv_base
            (address, w))
  unfolding with_instance
  with_instance-Outcome nv_base none w some_block fits = inl (refl, refl)
  with_instance-Outcome nv_base (some address) w some_block fits =
      with_shadow_buffer-Outcome address nv_base _ _ some_block fits

  -- If the device has a block at least and the variable store fits it, NorFlashCreateInstance
  -- returns an error status and stores nothing, or no error and stores an instance with its own
  -- media, present and writable, the device's blocks, the index as media id, a shadow buffer and a
  -- volume placed on blocks of the device, mFlashNvStorageVariableBase being the start of that
  -- volume; or it does not return, and then there is such an instance for which ValidateFvHeader
  -- reads behind its buffer.
  pub nor_flash_create_instance-Outcome :
      (given : Bool) (region_base nv_base : ℕ) (w : W)
      → 0 < size / block_size
      → Fits pcds device_base size block_size
      → Outcome lib pool base guids pcds device_base size index block_size (
          nor_flash_create_instance lib pool base guids pcds services addresses given device_base
            region_base size index block_size nv_base w)
  unfolding nor_flash_create_instance
  nor_flash_create_instance-Outcome false region_base nv_base w some_block fits = inl (refl, refl)
  nor_flash_create_instance-Outcome true region_base nv_base w some_block fits =
      with_instance-Outcome nv_base _ _ some_block fits
