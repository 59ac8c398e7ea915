-- ===== src/Fvb/Attributes.antt =====
-- FvbGetAttributes, FvbSetAttributes, FvbGetPhysicalAddress and FvbGetBlockSize of NorFlashFvb.c.
-- The values of the EFI_FVB2 flags are those of the PI specification.
pub mod Laws
use odp_platform_radxa_orion.Common.{ℕ, ◌-◌, leb, if◌then◌else◌, bit_or}
use odp_platform_radxa_orion.Efi.{Status, success, error, invalid_parameter, unsupported}
use odp_platform_radxa_orion.Flash.{NorFlashInstance}

abbrev pub read_enabled_cap : ℕ
read_enabled_cap = 0x2

abbrev pub read_status : ℕ
read_status = 0x4

abbrev pub write_enabled_cap : ℕ
write_enabled_cap = 0x10

abbrev pub write_status : ℕ
write_status = 0x20

abbrev pub sticky_write : ℕ
sticky_write = 0x200

abbrev pub erase_polarity : ℕ
erase_polarity = 0x800

-- The status, and *Attributes.
unfoldable pub fvb_get_attributes : NorFlashInstance → Status × ℕ
fvb_get_attributes inst =
    let attributes =
      bit_or (bit_or (bit_or read_enabled_cap read_status) sticky_write) erase_polarity in
    (
      success,
      if inst.media.read_only
          then attributes
          else bit_or (bit_or attributes write_status) write_enabled_cap,
    )

-- The status, and *Attributes, which is not changed.
abbrev pub fvb_set_attributes : NorFlashInstance → ℕ → Status × ℕ
fvb_set_attributes inst attributes = (error unsupported, attributes)

-- The status, and *Address, which is not changed.
abbrev pub fvb_get_physical_address : NorFlashInstance → ℕ → Status × ℕ
fvb_get_physical_address inst address = (error unsupported, address)

-- What FvbGetBlockSize leaves behind: its status, *BlockSize and *NumberOfBlocks.
pub record BlockSizes : Type 0 where
  pub status : Status
  pub block_size : ℕ
  pub number_of_blocks : ℕ

unfoldable pub fvb_get_block_size : NorFlashInstance → ℕ → ℕ → ℕ → BlockSizes
fvb_get_block_size inst lba block_size number_of_blocks =
    if leb inst.blocks lba
    then record {
      status = error invalid_parameter;
      block_size = block_size;
      number_of_blocks = number_of_blocks;
    }
    else record {
      status = success;
      block_size = inst.media.block_size;
      number_of_blocks = inst.blocks - lba;
    }
