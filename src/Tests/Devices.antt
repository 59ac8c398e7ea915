-- ===== src/Tests/Devices.antt =====
-- The driver on the table of its one device.
use odp_platform_radxa_orion.Common.{ℕ, ◌+◌, ◌^◌, ◌≡◌, true, none, some, [], ◌∷◌, refl, arith}
use odp_platform_radxa_orion.Efi.{success, error}
use odp_platform_radxa_orion.Efi.{out_of_resources}
use odp_platform_radxa_orion.Flash.{Buffer, NorFlashInstance}
use odp_platform_radxa_orion.Tests.Data.{flash, base, pool, guids, pcds, volume, blank}
use odp_platform_radxa_orion.Platform.{boot_with_default_settings}
use odp_platform_radxa_orion.Driver.Published.{IsHealthy, IsPublished, create_instance-initialize}
use odp_platform_radxa_orion.Flash.Laws.{copied}
use odp_platform_radxa_orion.Fvb.Header.Build.{
  combined_headers, initialize_fv_and_variable_store_headers, layout_refused,
}
use odp_platform_radxa_orion.Platform.{boot_with_full_configuration}
use odp_platform_radxa_orion.Tests.Data.{contents, flash-IsNorFlash, pool-IsPoolLib, base-IsBaseLib}
use odp_platform_radxa_orion.Driver.Services.{Services}
use odp_platform_radxa_orion.Driver.Template.{Addresses, RegionDescription, template_copy}
use odp_platform_radxa_orion.Driver.Create.{
  Creation, place_volume, header_status, announce_volume, nor_flash_fvb_initialize, fill_instance,
  published, publish_instance, with_shadow_buffer, with_instance, nor_flash_create_instance,
}
use odp_platform_radxa_orion.Driver.Start.{
  keep, create_instances, nor_flash_initialise, convert_instance, fvb_virtual_notify_event,
}
use odp_platform_radxa_orion.Driver.Geometry.{
  IsPlaced, Fits, Translates, place_volume-IsPlaced, convert_instance-IsPlaced,
}
use odp_platform_radxa_orion.Driver.Created.{Stored, nor_flash_create_instance-Outcome}
use odp_platform_radxa_orion.Driver.Start.{nor_flash_virtual_notify_event}
use odp_platform_radxa_orion.Driver.Protocols.Stale.{Serves, Faults, create_instance-Faults}
use odp_platform_radxa_orion.Driver.Ready.{Ready, nor_flash_create_instance-Ready}
use odp_platform_radxa_orion.Driver.Devices.{EntriesFor, nor_flash_initialise-Initialised}

-- Services that succeed, at a boot with default settings.
abbrev services : Services Buffer
services = record {
  allocate_runtime_copy_pool = λ w. (some 0x1000, w);
  allocate_runtime_zero_pool = λ n w. (some 0x2000, w);
  allocate_runtime_pool = λ n w. (some 0x3000, w);
  free_pool = λ address w. w;
  get_boot_mode_hob = λ w. boot_with_default_settings;
  install_nv_var_store_formatted = λ w. (success, w);
  install_multiple_protocol_interfaces = λ inst protocols w. (success, w);
  create_event_ex = λ handler w. (success, w);
  create_protocol_notify_event = λ index w. w;
  nor_flash_platform_initialization = λ w. (success, w);
  set_memory_space_attributes = λ start size w. (success, w);
  remove_memory_space = λ start size w. w;
}

-- Services without memory for the shadow buffer.
abbrev scarce : Services Buffer
scarce = record services { allocate_runtime_zero_pool = λ n w. (none, w) }

abbrev addresses : Addresses
addresses = record {
  xspi_flash_direct_mmio_addr = 0x10000000;
  xspi_flash_dma_mmio_addr = 0x20000000;
  nor_flash_device_path_guid = 7;
  zero_guid = 0;
  media_offset = 0x18;
  template_address = 0x40000;
  block_io = volume.block_io_protocol;
  disk_io = volume.disk_io_protocol;
  fvb = volume.fvb_protocol;
}

abbrev device : RegionDescription
device = record {
  device_base_address = 0x10000000;
  device_size = 0x800000;
  region_base_address = 0x10380000;
  region_size = 0x78000;
  block_size = 0x1000;
}

pcds-Fits : Fits pcds 0x10000000 0x800000 0x1000
pcds-Fits = record {
  positive = omega arith;
  aligned = refl;
  ends = omega arith;
  addresses = omega arith;
}

-- The instance of the device, before and behind NorFlashFvbInitialize.
abbrev filled : NorFlashInstance
filled =
    record (fill_instance addresses 0x10000000 0x800000 0 0x1000 (template_copy addresses 0x1000)) {
      shadow_buffer = some 0x2000;
    }

abbrev created : Creation Buffer
created = record {
  status = success;
  stored = some (place_volume pcds filled);
  nv_storage_variable_base = 0x10380000;
  world = blank;
}

abbrev starved : Creation Buffer
starved = record {
  status = error out_of_resources;
  stored = none;
  nv_storage_variable_base = 0;
  world = blank;
}

-- The virtual map, 2 ^ 40 above.
abbrev convert : ℕ → ℕ
convert x = 2 ^ 40 + x

convert-Translates : (start size : ℕ) → Translates convert start size
convert-Translates start size x h = omega arith

volume-IsPlaced : IsPlaced (place_volume pcds volume)
volume-IsPlaced =
    place_volume-IsPlaced pcds volume (record {
      positive = omega arith;
      aligned = refl;
      ends = omega arith;
      addresses = omega arith;
    })

nor_flash_create_instance-Outcome_example : Stored 0x10000000 0x800000 0 0x1000 created
unfolding nor_flash_create_instance with_instance with_shadow_buffer publish_instance published
    nor_flash_fvb_initialize announce_volume header_status place_volume fill_instance template_copy
nor_flash_create_instance-Outcome_example =
    nor_flash_create_instance-Outcome flash pool base guids pcds services addresses 0x10000000
      0x800000 0 0x1000 true 0x10380000 0 blank (omega arith) pcds-Fits

nor_flash_initialise-Initialised_example :
    EntriesFor (device ∷ []) 0 (some (place_volume pcds filled) ∷ [])
unfolding nor_flash_initialise create_instances keep nor_flash_create_instance with_instance
    with_shadow_buffer publish_instance published nor_flash_fvb_initialize announce_volume
    header_status place_volume fill_instance template_copy
nor_flash_initialise-Initialised_example =
    nor_flash_initialise-Initialised flash pool base guids pcds services addresses (device ∷ []) 0
      blank ((omega arith, pcds-Fits), tt)

nor_flash_create_instance-Ready_example : Ready 0 (place_volume pcds filled)
unfolding nor_flash_create_instance with_instance with_shadow_buffer publish_instance published
    nor_flash_fvb_initialize announce_volume header_status place_volume fill_instance template_copy
nor_flash_create_instance-Ready_example =
    nor_flash_create_instance-Ready flash pool base guids pcds services addresses device 0 true 0
      blank (omega arith, pcds-Fits) (omega arith) created (place_volume pcds filled) refl refl

-- A map that moves the memory of the instance by 64 KB.
abbrev moved_memory : ℕ → ℕ
moved_memory a = a + 0x10000

create_instance-Faults_example :
    Serves flash (place_volume pcds filled)
    × (inst' : NorFlashInstance) × (nor_flash_virtual_notify_event moved_memory
          (created.stored ∷ [])
        ≡ some (inst' ∷ []))
    × Faults flash inst'
unfolding nor_flash_create_instance with_instance with_shadow_buffer publish_instance published
    nor_flash_fvb_initialize announce_volume header_status place_volume fill_instance template_copy
create_instance-Faults_example =
    create_instance-Faults flash pool base guids pcds services addresses device 0 true 0 blank
      (omega arith, pcds-Fits) (omega arith) created (place_volume pcds filled) refl refl
      moved_memory (λ e. omega (arith, e))

convert_instance-IsPlaced_example :
    IsPlaced (convert_instance convert (place_volume pcds volume))
    × (fvb_virtual_notify_event convert 0x380000
        ≡ (convert_instance convert (place_volume pcds volume)).region_base_address)
unfolding place_volume
convert_instance-IsPlaced_example =
    convert_instance-IsPlaced convert (place_volume pcds volume) 0x380000
      (convert-Translates 0 0x800000) volume-IsPlaced refl

-- A start with full configuration on which nothing fails.
abbrev started : Services Buffer
started = record services { get_boot_mode_hob = λ w. boot_with_full_configuration }

started-IsHealthy : IsHealthy flash contents pool started
started-IsHealthy = record {
  copies = λ w. (0x1000, w, refl, refl);
  zeroes = λ n w. (0x2000, w, refl, refl);
  headers = λ n w. refl;
  reads = λ inst lba offset n buffer w. refl;
  boots = λ w. refl;
  events = λ handler w. refl;
  installs = λ inst protocols w. refl;
}

abbrev placed : NorFlashInstance
placed =
    place_volume pcds
      (fill_instance addresses 0x10000000 0x800000 0 0x1000 (template_copy addresses 0x1000))

abbrev formatted : Buffer
formatted = copied 0x380000 100 (combined_headers base guids pcds placed) blank

placed_formatted :
    initialize_fv_and_variable_store_headers flash pool base guids pcds placed blank
    ≡ some (success, formatted)
unfolding initialize_fv_and_variable_store_headers layout_refused place_volume fill_instance
    template_copy
placed_formatted = refl

create_instance-initialize_example : IsPublished started (
    nor_flash_create_instance flash pool base guids pcds started addresses true 0x10000000
      0x10380000 0x800000 0 0x1000 0 formatted)
create_instance-initialize_example =
    create_instance-initialize flash contents flash-IsNorFlash pool pool-IsPoolLib base
      base-IsBaseLib guids pcds started started-IsHealthy addresses 0x10000000 0x800000 0 0x1000
      0x1000 0x10380000 0 blank formatted success (λ i h. refl) placed_formatted refl
