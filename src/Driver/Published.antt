-- ===== src/Driver/Published.antt =====
-- From the headers that the driver writes to the protocol that it publishes at the next start.

use odp_platform_radxa_orion.Common.{
  ℕ, ◌+◌, ◌≡◌, ◌∙◌, refl, ap, true, false, Option, none, some, List, [], ◌∷◌,
}
use odp_platform_radxa_orion.Efi.{Status, success, efi_error}
use odp_platform_radxa_orion.Flash.{Buffer, NorFlashInstance, NorFlashLib}
use odp_platform_radxa_orion.Flash.Laws.{IsNorFlash, IsErased, block_start}
use odp_platform_radxa_orion.Platform.{boot_with_full_configuration}
use odp_platform_radxa_orion.Fvb.Header.Memory.{zeros}
use odp_platform_radxa_orion.Fvb.Header.Environment.{
  Pcds, Guids, BaseLib, IsBaseLib, PoolLib, IsPoolLib,
}
use odp_platform_radxa_orion.Fvb.Header.Build.{
  headers_length, combined_headers, summed_header, unsummed_header,
  initialize_fv_and_variable_store_headers,
}
use odp_platform_radxa_orion.Fvb.Header.Validate.{validate_fv_header}
use odp_platform_radxa_orion.Fvb.Header.Holds.{
  HoldsHeaders, initialize-HoldsHeaders, validate-HoldsHeaders,
}
use odp_platform_radxa_orion.Driver.Services.{
  Services, Protocol, Handler, device_path, flash_block_io, disk_io, firmware_volume_block,
  xspi_info, fvb_virtual_notify,
}
use odp_platform_radxa_orion.Driver.Template.{Addresses, template_copy}
use odp_platform_radxa_orion.Driver.Create.{
  FvbState, Creation, header_status, published, place_volume, fill_instance,
  nor_flash_fvb_initialize, nor_flash_create_instance, with_shadow_buffer, with_instance,
  publish_instance, announce_volume,
}

-- A start on which nothing fails: the allocations give addresses and leave the device as it is,
-- the device is read, the boot is one with full configuration, and the events are created and the
-- protocols installed without an error.
pub record IsHealthy {W : Type 0} (lib : NorFlashLib W) (contents : W → Buffer) (pool : PoolLib W)
    (services : Services W) : Type 0 where
  pub copies :
      (w : W)
      → (a : ℕ) × (w' : W) × (services.allocate_runtime_copy_pool w ≡ (some a, w'))
        × (contents w' ≡ contents w)
  pub zeroes :
      (n : ℕ) (w : W)
      → (a : ℕ) × (w' : W) × (services.allocate_runtime_zero_pool n w ≡ (some a, w'))
        × (contents w' ≡ contents w)
  pub headers : (n : ℕ) (w : W) → (pool.allocate_zero_pool n w).0 ≡ true
  pub reads :
      (inst : NorFlashInstance) (lba offset n : ℕ) (buffer : Buffer) (w : W)
      → efi_error (lib.nor_flash_read inst lba offset n buffer w).0 ≡ false
  pub boots : (w : W) → services.get_boot_mode_hob w ≡ boot_with_full_configuration
  pub events :
      (handler : Handler) (w : W) → efi_error (services.create_event_ex handler w).0 ≡ false
  pub installs :
      (inst : NorFlashInstance) (protocols : List Protocol) (w : W)
      → efi_error (services.install_multiple_protocol_interfaces inst protocols w).0 ≡ false

-- Without an error an instance was stored and its protocols were installed, with that of the
-- firmware volume block among them.
abbrev pub IsPublished : {W : Type 0} → Services W → Option (Creation W) → Type 0
IsPublished services none = ⊥
IsPublished {W} services (some c) =
    (efi_error c.status ≡ false)
    × (inst : NorFlashInstance) × (c.stored ≡ some inst)
    × (before : W) × (services.install_multiple_protocol_interfaces inst
          (device_path ∷ flash_block_io ∷ disk_io ∷ firmware_volume_block ∷ xspi_info ∷ []) before
        ≡ (c.status, c.world))

module _ {W : Type 0} (lib : NorFlashLib W) (contents : W → Buffer)
    (flash : IsNorFlash lib contents) (pool : PoolLib W) (separate : IsPoolLib pool contents)
    (base : BaseLib) (laws : IsBaseLib base) (guids : Guids) (pcds : Pcds) where
  module _ (services : Services W) (healthy : IsHealthy lib contents pool services) where
    validated :
        (inst : NorFlashInstance) (w : W)
        → HoldsHeaders contents base guids pcds inst w
        → (u : W) × (validate_fv_header lib pool base guids pcds inst w ≡ some (success, u))
    validated inst w holds = (
      _,
      validate-HoldsHeaders lib contents flash pool separate base laws guids pcds inst w holds
          (healthy.headers headers_length w)
          (healthy.reads inst inst.start_lba 0 headers_length zeros _),
    )

    publish_instance-IsPublished :
        (addresses : Addresses) (address : ℕ) (fvb : FvbState W)
        → efi_error fvb.status ≡ false
        → IsPublished services
            (publish_instance lib pool base guids pcds services addresses address (some fvb))
    unfolding publish_instance published
    publish_instance-IsPublished addresses address fvb fine =
        let ok =
          healthy.installs fvb.instance_after
            (device_path ∷ flash_block_io ∷ disk_io ∷ firmware_volume_block ∷ xspi_info ∷ [])
            fvb.world in
        rw (publish_instance, published, fine, ok) (ok, fvb.instance_after, refl, fvb.world, refl)

    -- The volume of an instance whose headers the device holds is announced.
    nor_flash_fvb_initialize-HoldsHeaders :
        (inst : NorFlashInstance) (w : W)
        → HoldsHeaders contents base guids pcds (place_volume pcds inst) w
        → (fvb : FvbState W) × (nor_flash_fvb_initialize lib pool base guids pcds services inst w
            ≡ some fvb)
          × (efi_error fvb.status ≡ false)
    unfolding nor_flash_fvb_initialize header_status announce_volume
    nor_flash_fvb_initialize-HoldsHeaders inst w holds =
        let (u, valid) = validated (place_volume pcds inst) w holds in
        let created =
          services.create_event_ex fvb_virtual_notify
            (services.install_nv_var_store_formatted u).1 in
        (
          record {
            status = created.0;
            instance_after = place_volume pcds inst;
            nv_storage_variable_base = (place_volume pcds inst).region_base_address;
            world = created.1;
          },
          rw (nor_flash_fvb_initialize, healthy.boots w, header_status, valid) refl,
          healthy.events _ _,
        )

    module _ (addresses : Addresses) (device_base size index block_size copied_at : ℕ) where
      -- The instance that the driver fills, copied to some address, with its volume placed.
      abbrev pub placed_instance : NorFlashInstance
      placed_instance = place_volume pcds (
          fill_instance addresses device_base size index block_size
            (template_copy addresses copied_at))

      -- The addresses of the copy and of the shadow buffer make no difference to the headers.
      shadowed :
          (address shadow : ℕ) (w w' : W)
          → contents w' ≡ contents w
          → HoldsHeaders contents base guids pcds placed_instance w
          → HoldsHeaders contents base guids pcds
              (place_volume pcds
                (record (fill_instance addresses device_base size index block_size
                  (template_copy addresses address)) { shadow_buffer = some shadow }))
              w'
      unfolding place_volume fill_instance template_copy combined_headers summed_header
          unsummed_header
      shadowed address shadow w w' same holds i h =
          ap
            (λ (bytes : Buffer).
              bytes (block_start placed_instance placed_instance.start_lba + 0 + i))
            same
          ∙ holds i h

      create-HoldsHeaders :
          (region_base nv_base : ℕ) (w : W)
          → HoldsHeaders contents base guids pcds placed_instance w
          → IsPublished services (
              nor_flash_create_instance lib pool base guids pcds services addresses true device_base
                region_base size index block_size nv_base w)
      unfolding nor_flash_create_instance with_instance with_shadow_buffer
      create-HoldsHeaders region_base nv_base w holds =
          let (address, w1, copied, same1) = healthy.copies w in
          let (shadow, w2, zeroed, same2) = healthy.zeroes block_size w1 in
          let (fvb, announced, fine) =
            nor_flash_fvb_initialize-HoldsHeaders _ w2
              (shadowed address shadow w w2 (same2 ∙ same1) holds) in
          rw
            (
              nor_flash_create_instance, copied, with_instance, zeroed, with_shadow_buffer,
              announced,
            )
            (publish_instance-IsPublished addresses address fvb fine)

      -- Over a flash, a pool and a BaseLib that keep their laws: if the headers' place on the
      -- device is erased and InitializeFvAndVariableStoreHeaders, for the instance that the driver
      -- fills and places, returns without an error, a NorFlashCreateInstance that follows returns
      -- without an error, stores an instance, and has installed its protocols with that of the
      -- firmware volume block among them, provided that nothing fails on this start, which is one
      -- with full configuration.
      pub create_instance-initialize :
          (region_base nv_base : ℕ) (w v : W) (s : Status)
          → IsErased
              (contents w)
              (block_start placed_instance placed_instance.start_lba + 0)
              headers_length
          → initialize_fv_and_variable_store_headers lib pool base guids pcds placed_instance w
            ≡ some (s, v)
          → efi_error s ≡ false
          → IsPublished services (
              nor_flash_create_instance lib pool base guids pcds services addresses true device_base
                region_base size index block_size nv_base v)
      create_instance-initialize region_base nv_base w v s blank done ok =
          create-HoldsHeaders region_base nv_base v (
            initialize-HoldsHeaders lib contents flash pool separate base laws guids pcds
              placed_instance w v s blank done ok)
