-- ===== src/Driver/Create.antt =====
-- NorFlashFvbInitialize and NorFlashCreateInstance. ASSERT is taken as in a release build, where
-- it does nothing.
use odp_platform_radxa_orion.Common.{
  ℕ, ◌/◌, ◌%◌, ◌^◌, Bool, Option, none, some, List, [], ◌∷◌, if◌then◌else◌, add64, sub64,
}
use odp_platform_radxa_orion.Efi.{Status, error, efi_error}
use odp_platform_radxa_orion.Efi.{invalid_parameter, out_of_resources}
use odp_platform_radxa_orion.Flash.{NorFlashInstance, NorFlashLib, media_at}
use odp_platform_radxa_orion.Platform.{
  BootMode, boot_with_full_configuration, boot_with_default_settings, other_boot_mode,
}
use odp_platform_radxa_orion.Fvb.Header.Environment.{Pcds, Guids, BaseLib, PoolLib}
use odp_platform_radxa_orion.Fvb.Header.Build.{variable_base, fv_length}
use odp_platform_radxa_orion.Fvb.Header.Validate.{validate_fv_header}
use odp_platform_radxa_orion.Driver.Services.{
  Services, Protocol, device_path, flash_block_io, disk_io, firmware_volume_block, xspi_info,
  fvb_virtual_notify,
}
use odp_platform_radxa_orion.Driver.Template.{Addresses, template_copy, size_64mb}

-- What NorFlashFvbInitialize leaves behind: its status, the instance, mFlashNvStorageVariableBase
-- and the world.
pub record FvbState (W : Type 0) : Type 0 where
  pub status : Status
  pub instance_after : NorFlashInstance
  pub nv_storage_variable_base : ℕ
  pub world : W

-- What NorFlashCreateInstance leaves behind: its status, what it stored through its last
-- argument, mFlashNvStorageVariableBase and the world.
pub record Creation (W : Type 0) : Type 0 where
  pub status : Status
  pub stored : Option NorFlashInstance
  pub nv_storage_variable_base : ℕ
  pub world : W

-- The place of the volume on the device, from the PCDs of the variable store.
unfoldable pub place_volume : Pcds → NorFlashInstance → NorFlashInstance
place_volume pcds inst =
    let base = add64 (variable_base pcds) inst.device_base_address in
    record inst {
      region_base_address = base;
      start_lba = sub64 base inst.device_base_address / inst.media.block_size;
      blocks = fv_length pcds / inst.media.block_size;
    }

module _ {W : Type 0} (lib : NorFlashLib W) (pool : PoolLib W) (base : BaseLib) (guids : Guids)
    (pcds : Pcds) (services : Services W) where
  -- The status of the header: a boot with default settings takes it as invalid.
  unfoldable pub header_status : BootMode → NorFlashInstance → W → Option (Status × W)
  header_status boot_with_default_settings inst w = some (error invalid_parameter, w)
  header_status boot_with_full_configuration inst w =
      validate_fv_header lib pool base guids pcds inst w
  header_status (other_boot_mode n) inst w = validate_fv_header lib pool base guids pcds inst w

  -- The rest, behind the test of the header.
  unfoldable pub announce_volume : NorFlashInstance → Option (Status × W) → Option (FvbState W)
  announce_volume inst none = none
  announce_volume inst (some (status, w)) =
      let (_, w1) = services.install_nv_var_store_formatted w in
      let (status', w2) = services.create_event_ex fvb_virtual_notify w1 in
      if efi_error status
      then some (record {
        status = status;
        instance_after = inst;
        nv_storage_variable_base = inst.region_base_address;
        world = w;
      })
      else some (record {
        status = status';
        instance_after = inst;
        nv_storage_variable_base = inst.region_base_address;
        world = w2;
      })

  -- `none` is the fault that ValidateFvHeader may meet.
  unfoldable pub nor_flash_fvb_initialize : NorFlashInstance → W → Option (FvbState W)
  unfolding announce_volume header_status
  nor_flash_fvb_initialize inst w =
      let inst' = place_volume pcds inst in
      announce_volume inst' (header_status (services.get_boot_mode_hob w) inst' w)

-- The assignments of NorFlashCreateInstance to the copy of the template.
unfoldable pub fill_instance : Addresses → ℕ → ℕ → ℕ → ℕ → NorFlashInstance → NorFlashInstance
fill_instance a device_base size index block_size inst = record inst {
  device_base_address = device_base;
  size = size;
  block_io_protocol = record inst.block_io_protocol { media = media_at inst.media_address };
  media = record inst.media {
    media_id = index;
    block_size = block_size;
    last_block = sub64 (size / block_size) 1;
  };
  device_path_guid = a.nor_flash_device_path_guid;
  device_path_index = index % 2 ^ 8;
  access_info = record {
    base_address = a.xspi_flash_direct_mmio_addr;
    dma_base_address = a.xspi_flash_dma_mmio_addr;
    size = size_64mb;
    remapped_offset = 0;
  };
}

-- The protocols that are published with an instance: without the volume's where it is not valid.
unfoldable pub published : Status → List Protocol
published status =
    if efi_error status
    then device_path ∷ flash_block_io ∷ disk_io ∷ xspi_info ∷ []
    else device_path ∷ flash_block_io ∷ disk_io ∷ firmware_volume_block ∷ xspi_info ∷ []

module _ {W : Type 0} (lib : NorFlashLib W) (pool : PoolLib W) (base : BaseLib) (guids : Guids)
    (pcds : Pcds) (services : Services W) (addresses : Addresses) where
  -- Behind NorFlashFvbInitialize, with the address that the instance was allocated at.
  unfoldable pub publish_instance : ℕ → Option (FvbState W) → Option (Creation W)
  publish_instance address none = none
  publish_instance address (some fvb) =
      let (status, w) =
        services.install_multiple_protocol_interfaces fvb.instance_after (published fvb.status)
          fvb.world in
      if efi_error status
      then some (record {
        status = status;
        stored = none;
        nv_storage_variable_base = fvb.nv_storage_variable_base;
        world = services.free_pool address w;
      })
      else some (record {
        status = status;
        stored = some fvb.instance_after;
        nv_storage_variable_base = fvb.nv_storage_variable_base;
        world = w;
      })

  -- Behind the allocation of the shadow buffer.
  unfoldable pub with_shadow_buffer : ℕ → NorFlashInstance → ℕ → Option ℕ × W → Option (Creation W)
  with_shadow_buffer address inst nv_base (none, w) = some (record {
    status = error out_of_resources;
    stored = none;
    nv_storage_variable_base = nv_base;
    world = w;
  })
  with_shadow_buffer address inst nv_base (some shadow, w) = publish_instance address (
      nor_flash_fvb_initialize lib pool base guids pcds services
        (record inst { shadow_buffer = some shadow }) w)

  -- Behind the copy of the template.
  unfoldable pub with_instance : ℕ → ℕ → ℕ → ℕ → ℕ → Option ℕ × W → Option (Creation W)
  with_instance device_base size index block_size nv_base (none, w) = some (record {
    status = error out_of_resources;
    stored = none;
    nv_storage_variable_base = nv_base;
    world = w;
  })
  with_instance device_base size index block_size nv_base (some address, w) =
      with_shadow_buffer address
        (fill_instance addresses device_base size index block_size
          (template_copy addresses address))
        nv_base (services.allocate_runtime_zero_pool block_size w)

  -- `given` tells whether the last argument is a pointer and not NULL, and `nv_base` is
  -- mFlashNvStorageVariableBase before the call. The region's base is not used.
  unfoldable pub nor_flash_create_instance : Bool → ℕ → ℕ → ℕ → ℕ → ℕ → ℕ → W → Option (Creation W)
  unfolding with_instance with_shadow_buffer publish_instance
  nor_flash_create_instance given device_base region_base size index block_size nv_base w =
      if given
      then with_instance device_base size index block_size nv_base
          (services.allocate_runtime_copy_pool w)
      else some (record {
        status = error invalid_parameter;
        stored = none;
        nv_storage_variable_base = nv_base;
        world = w;
      })
