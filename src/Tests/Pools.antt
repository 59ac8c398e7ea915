-- ===== src/Tests/Pools.antt =====
-- The driver over a world that counts the blocks of the pools.
use odp_platform_radxa_orion.Common.{ℕ, suc, ◌-◌, true, some, refl, arith}
use odp_platform_radxa_orion.Efi.{success, error, out_of_resources}
use odp_platform_radxa_orion.Flash.{NorFlashLib}
use odp_platform_radxa_orion.Fvb.Header.Environment.{PoolLib}
use odp_platform_radxa_orion.Platform.{boot_with_full_configuration}
use odp_platform_radxa_orion.Tests.Data.{base, guids, pcds, volume}
use odp_platform_radxa_orion.Driver.Services.{Services}
use odp_platform_radxa_orion.Driver.Template.{Addresses}
use odp_platform_radxa_orion.Driver.Create.{nor_flash_create_instance}
use odp_platform_radxa_orion.Driver.Ledger.{
  IsLedger, LeavesFor, nor_flash_create_instance-LeavesFor,
}

-- A flash that answers each call without an error and holds nothing.
abbrev silent : NorFlashLib ℕ
silent = record {
  nor_flash_read = λ inst lba offset n buffer w. (success, buffer, w);
  nor_flash_write = λ inst lba offset n buffer w. (success, w);
  nor_flash_read_blocks = λ inst lba n buffer w. (success, buffer, w);
  nor_flash_write_blocks = λ inst lba n buffer w. (success, w);
  nor_flash_erase = λ inst lba n w. (success, w);
  nor_flash_reset = λ inst w. (success, w);
}

abbrev counting_pool : PoolLib ℕ
counting_pool = record { allocate_zero_pool = λ n w. (true, suc w); free_pool = λ w. w - 1 }

-- Services that cannot install the protocols.
abbrev counting : Services ℕ
counting = record {
  allocate_runtime_copy_pool = λ w. (some 0x1000, suc w);
  allocate_runtime_zero_pool = λ n w. (some 0x2000, suc w);
  allocate_runtime_pool = λ n w. (some 0x3000, suc w);
  free_pool = λ address w. w - 1;
  get_boot_mode_hob = λ w. boot_with_full_configuration;
  install_nv_var_store_formatted = λ w. (success, w);
  install_multiple_protocol_interfaces = λ inst protocols w. (error out_of_resources, w);
  create_event_ex = λ handler w. (success, w);
  create_protocol_notify_event = λ index w. w;
  nor_flash_platform_initialization = λ w. (success, w);
  set_memory_space_attributes = λ start size w. (success, w);
  remove_memory_space = λ start size w. w;
}

counting-IsLedger : IsLedger silent counting_pool counting (λ w. w)
counting-IsLedger = record {
  copy_pool = λ w. refl;
  zero_pool = λ n w. refl;
  header_pool = λ n w. refl;
  freed = λ address w h. omega arith;
  reads = λ inst lba offset n buffer w. refl;
  formatted = λ w. refl;
  events = λ handler w. refl;
  installs = λ inst protocols w. refl;
}

abbrev places : Addresses
places = record {
  xspi_flash_direct_mmio_addr = 0x10000000;
  xspi_flash_dma_mmio_addr = 0x20000000;
  nor_flash_device_path_guid = 7;
  zero_guid = 0;
  media_offset = 0x18;
  template_address = 0x40000;
  block_io = volume.block_io_protocol;
  disk_io = volume.disk_io_protocol;
  fvb = volume.fvb_protocol;
}

nor_flash_create_instance-LeavesFor_example :
    LeavesFor {W = ℕ}
      (λ w. w)
      5
      (some 0x1000)
      (nor_flash_create_instance silent counting_pool base guids pcds counting places true
        0x10000000 0x10383000 0x1000000 0 0x1000 0 5)
nor_flash_create_instance-LeavesFor_example =
    nor_flash_create_instance-LeavesFor silent counting_pool base guids pcds counting (λ w. w)
      counting-IsLedger places 0x10000000 0x10383000 0x1000000 0 0x1000 0 5
