-- ===== src/Flash.antt =====
-- The NOR flash instance that the protocols of the driver share, and what the driver calls of
-- NorFlashLib, whose source is not in the repository.
pub mod Laws
use odp_platform_radxa_orion.Common.{ℕ, Bool, Option}
use odp_platform_radxa_orion.Efi.{Status}

-- A buffer in memory, by byte offset. Its length is passed beside it, as in the source.
abbrev pub Buffer : Type 0
Buffer = ℕ → ℕ

-- EFI_BLOCK_IO_MEDIA
pub record Media : Type 0 where
  pub media_id : ℕ
  pub removable_media : Bool
  pub media_present : Bool
  pub logical_partition : Bool
  pub read_only : Bool
  pub write_caching : Bool
  pub block_size : ℕ
  pub io_align : ℕ
  pub last_block : ℕ
  pub lowest_aligned_lba : ℕ
  pub logical_blocks_per_physical_block : ℕ

-- The pointer BlockIoProtocol.Media: NULL in the template, and then an address.
pub data MediaPointer : Type 0 where
  null : MediaPointer
  media_at : ℕ → MediaPointer

-- The protocols hold function pointers, which are addresses.
pub record BlockIoProtocol : Type 0 where
  pub media : MediaPointer
  pub reset : ℕ
  pub read_blocks : ℕ
  pub write_blocks : ℕ
  pub flush_blocks : ℕ

pub record DiskIoProtocol : Type 0 where
  pub read_disk : ℕ
  pub write_disk : ℕ

pub record FvbProtocol : Type 0 where
  pub get_attributes : ℕ
  pub set_attributes : ℕ
  pub get_physical_address : ℕ
  pub get_block_size : ℕ
  pub read : ℕ
  pub write : ℕ
  pub erase_blocks : ℕ

-- CIX_XSPI_INFO: what the driver publishes of the controller's address windows.
pub record AccessInfo : Type 0 where
  pub base_address : ℕ
  pub dma_base_address : ℕ
  pub size : ℕ
  pub remapped_offset : ℕ

-- `media_address` is no field of the source's: it is &Instance->Media, the address at which the
-- processor finds the field `media` of this instance. The memory of the instance has another address
-- behind SetVirtualAddressMap, while a pointer keeps its value unless the driver converts it.
pub record NorFlashInstance : Type 0 where
  pub media_address : ℕ
  pub device_base_address : ℕ
  pub size : ℕ
  pub shadow_buffer : Option ℕ
  pub media : Media
  pub block_io_protocol : BlockIoProtocol
  pub disk_io_protocol : DiskIoProtocol
  pub device_path_guid : ℕ
  pub device_path_index : ℕ
  pub access_info : AccessInfo
  pub region_base_address : ℕ
  pub blocks : ℕ
  pub start_lba : ℕ
  pub fvb_protocol : FvbProtocol

-- The calls of NorFlashLib. `W` is all that they can change: the device and the memory behind
-- pointers. They take the instance as it is and do not change its fields.
pub record NorFlashLib (W : Type 0) : Type 0 where
  pub nor_flash_read : NorFlashInstance → ℕ → ℕ → ℕ → Buffer → W → Status × Buffer × W
  pub nor_flash_write : NorFlashInstance → ℕ → ℕ → ℕ → Buffer → W → Status × W
  pub nor_flash_read_blocks : NorFlashInstance → ℕ → ℕ → Buffer → W → Status × Buffer × W
  pub nor_flash_write_blocks : NorFlashInstance → ℕ → ℕ → Buffer → W → Status × W
  pub nor_flash_erase : NorFlashInstance → ℕ → ℕ → W → Status × W
  pub nor_flash_reset : NorFlashInstance → W → Status × W
