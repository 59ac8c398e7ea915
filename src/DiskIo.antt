-- ===== src/DiskIo.antt =====
-- NorFlashDiskIoDxe.c: the disk I/O protocol.
pub mod Contents
use odp_platform_radxa_orion.Common.{ℕ, ◌+◌, ◌*◌, ◌<◌, ◌≡◌, not, ◌==◌, if◌then◌else◌}
use odp_platform_radxa_orion.Efi.{Status, error, media_changed}
use odp_platform_radxa_orion.Flash.{Buffer, NorFlashInstance, NorFlashLib}

-- DivU64x32Remainder of BaseLib gives the quotient and the remainder.
abbrev pub Division : Type 0
Division = ℕ → ℕ → ℕ × ℕ

-- What BaseLib documents of it.
pub record IsDivision (divide : Division) : Type 0 where
  pub parts : (n d : ℕ) → 0 < d → (divide n d).0 * d + (divide n d).1 ≡ n
  pub remainder : (n d : ℕ) → 0 < d → (divide n d).1 < d

module _ {W : Type 0} (lib : NorFlashLib W) (divide : Division) where
  unfoldable pub nor_flash_disk_io_read_disk :
      NorFlashInstance → ℕ → ℕ → ℕ → Buffer → W → Status × Buffer × W
  nor_flash_disk_io_read_disk inst media_id disk_offset size buffer w =
      let (lba, block_offset) = divide disk_offset inst.media.block_size in
      if not (media_id == inst.media.media_id)
      then (error media_changed, buffer, w)
      else lib.nor_flash_read inst lba block_offset size buffer w

  unfoldable pub nor_flash_disk_io_write_disk :
      NorFlashInstance → ℕ → ℕ → ℕ → Buffer → W → Status × W
  nor_flash_disk_io_write_disk inst media_id disk_offset size buffer w =
      let (lba, block_offset) = divide disk_offset inst.media.block_size in
      if not (media_id == inst.media.media_id)
      then (error media_changed, w)
      else lib.nor_flash_write inst lba block_offset size buffer w
