-- ===== src/Tests/Disks.antt =====
-- The block I/O and disk I/O protocols of the board's volume.
use odp_platform_radxa_orion.Common.{◌≡◌, some, none, refl}
use odp_platform_radxa_orion.Efi.{error}
use odp_platform_radxa_orion.Efi.{invalid_parameter}
use odp_platform_radxa_orion.Flash.{NorFlashInstance, null}
use odp_platform_radxa_orion.Tests.Data.{flash, divide, volume, blank, text}
use odp_platform_radxa_orion.BlockIo.{
  nor_flash_block_io_read_blocks, nor_flash_block_io_write_blocks, read_guarded, write_guarded,
}
use odp_platform_radxa_orion.DiskIo.{nor_flash_disk_io_read_disk, nor_flash_disk_io_write_disk}

-- The volume before its media pointer was set.
abbrev unset : NorFlashInstance
unset = record volume { block_io_protocol = record volume.block_io_protocol { media = null } }

-- A read at a disk offset gives what was written there.
read_back :
    (nor_flash_disk_io_read_disk flash divide volume 0 0x1010 20 blank
        (nor_flash_disk_io_write_disk flash divide volume 0 0x1010 20 text blank).1).1
      5
    ≡ 0x46
unfolding nor_flash_disk_io_read_disk nor_flash_disk_io_write_disk
read_back = refl

-- A read of blocks tests the media pointer; a write of blocks reads through it.
without_media :
    (nor_flash_block_io_read_blocks flash (some unset) 0 3 0x1000 0x4000 text blank
      ≡ some (error invalid_parameter, text, blank))
    × (nor_flash_block_io_write_blocks flash (some unset) 0 3 0x1000 text blank ≡ none)
unfolding nor_flash_block_io_read_blocks read_guarded nor_flash_block_io_write_blocks write_guarded
without_media = (refl, refl)
