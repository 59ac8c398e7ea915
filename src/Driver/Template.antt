-- ===== src/Driver/Template.antt =====
-- The template of the instances and the table of the devices.
use odp_platform_radxa_orion.Common.{ℕ, ◌+◌, ◌*◌, ◌^◌, true, false, none, List, [], ◌∷◌}
use odp_platform_radxa_orion.Flash.{
  NorFlashInstance, BlockIoProtocol, DiskIoProtocol, FvbProtocol, null,
}

-- The addresses of the controller's windows, the GUID of the device path, the place of
-- Media in NOR_FLASH_INSTANCE, and the addresses of the template and of the protocols' functions,
-- which the build fixes.
pub record Addresses : Type 0 where
  pub xspi_flash_direct_mmio_addr : ℕ
  pub xspi_flash_dma_mmio_addr : ℕ
  pub nor_flash_device_path_guid : ℕ
  pub zero_guid : ℕ
  pub media_offset : ℕ
  pub template_address : ℕ
  pub block_io : BlockIoProtocol
  pub disk_io : DiskIoProtocol
  pub fvb : FvbProtocol

-- NOR_FLASH_REGION_DESCRIPTION
pub record RegionDescription : Type 0 where
  pub device_base_address : ℕ
  pub device_size : ℕ
  pub region_base_address : ℕ
  pub region_size : ℕ
  pub block_size : ℕ

abbrev pub size_4kb : ℕ
size_4kb = 4 * 2 ^ 10

abbrev pub size_8mb : ℕ
size_8mb = 8 * 2 ^ 20

abbrev pub size_16mb : ℕ
size_16mb = 16 * 2 ^ 20

abbrev pub size_64mb : ℕ
size_64mb = 64 * 2 ^ 20

-- mNorFlashInstanceTemplate
unfoldable pub nor_flash_instance_template : Addresses → NorFlashInstance
nor_flash_instance_template a = record {
  media_address = a.template_address + a.media_offset;
  device_base_address = a.xspi_flash_direct_mmio_addr;
  size = size_16mb;
  shadow_buffer = none;
  media = record {
    media_id = 0;
    removable_media = false;
    media_present = true;
    logical_partition = false;
    read_only = false;
    write_caching = false;
    block_size = size_4kb;
    io_align = 4;
    last_block = 0xFFF;
    lowest_aligned_lba = 0;
    logical_blocks_per_physical_block = 1;
  };
  block_io_protocol = record a.block_io { media = null };
  disk_io_protocol = a.disk_io;
  device_path_guid = a.zero_guid;
  device_path_index = 0;
  access_info = record {
    base_address = a.xspi_flash_direct_mmio_addr;
    dma_base_address = a.xspi_flash_dma_mmio_addr;
    size = size_64mb;
    remapped_offset = 0;
  };
  region_base_address = a.xspi_flash_direct_mmio_addr;
  blocks = 0;
  start_lba = 0;
  fvb_protocol = a.fvb;
}

-- What AllocateRuntimeCopyPool puts at an address.
unfoldable pub template_copy : Addresses → ℕ → NorFlashInstance
unfolding nor_flash_instance_template
template_copy a address = record (nor_flash_instance_template a) {
  media_address = address + a.media_offset;
}

-- mNorFlashDevices, by the PCDs of the region's address and size
unfoldable pub nor_flash_devices : Addresses → ℕ → ℕ → List RegionDescription
nor_flash_devices a nvram_addr nvram_size =
    record {
      device_base_address = a.xspi_flash_direct_mmio_addr;
      device_size = size_8mb;
      region_base_address = nvram_addr;
      region_size = nvram_size;
      block_size = size_4kb;
    }
    ∷ []
