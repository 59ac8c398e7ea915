-- ===== src/BlockIo.antt =====
-- NorFlashBlockIoDxe.c: the block I/O protocol. `this` is the instance that the protocol pointer
-- belongs to, `none` for NULL. `none` as a result is a read through NULL, or through a media pointer
-- that does not lead to the media of the instance.
pub mod Contents
use odp_platform_radxa_orion.Common.{
  ℕ, ◌-◌, Bool, not, ◌&&◌, Option, none, some, ltb, ◌==◌, if◌then◌else◌, bit_and,
}
use odp_platform_radxa_orion.Efi.{Status, success, error}
use odp_platform_radxa_orion.Efi.{invalid_parameter, no_media, media_changed, write_protected}
use odp_platform_radxa_orion.Flash.{
  Buffer, MediaPointer, null, media_at, NorFlashInstance, NorFlashLib,
}

-- `(Media->IoAlign > 2) && (((UINTN)Buffer & (Media->IoAlign - 1)) != 0)`
abbrev pub misaligned : ℕ → ℕ → Bool
misaligned io_align address = ltb 2 io_align && not (bit_and address (io_align - 1) == 0)

-- NorFlashBlockIoFlushBlocks
abbrev pub nor_flash_block_io_flush_blocks : NorFlashInstance → Status
nor_flash_block_io_flush_blocks inst = success

module _ {W : Type 0} (lib : NorFlashLib W) where
  abbrev pub nor_flash_block_io_reset : NorFlashInstance → Bool → W → Status × W
  nor_flash_block_io_reset inst extended_verification w = lib.nor_flash_reset inst w

  -- The guards of NorFlashBlockIoReadBlocks behind its test of `This`.
  unfoldable pub read_guarded :
      MediaPointer → NorFlashInstance → ℕ → ℕ → ℕ → ℕ → Buffer → W → Option (Status × Buffer × W)
  read_guarded null inst media_id lba size address buffer w =
      some (error invalid_parameter, buffer, w)
  read_guarded (media_at pointer) inst media_id lba size address buffer w =
      if not (pointer == inst.media_address)
      then none
      else if not inst.media.media_present
      then some (error no_media, buffer, w)
      else if not (inst.media.media_id == media_id)
      then some (error media_changed, buffer, w)
      else if misaligned inst.media.io_align address
      then some (error invalid_parameter, buffer, w)
      else some (lib.nor_flash_read_blocks inst lba size buffer w)

  -- The buffer is given by its address and its bytes.
  unfoldable pub nor_flash_block_io_read_blocks :
      Option NorFlashInstance → ℕ → ℕ → ℕ → ℕ → Buffer → W → Option (Status × Buffer × W)
  unfolding read_guarded
  nor_flash_block_io_read_blocks none media_id lba size address buffer w =
      some (error invalid_parameter, buffer, w)
  nor_flash_block_io_read_blocks (some inst) media_id lba size address buffer w =
      read_guarded inst.block_io_protocol.media inst media_id lba size address buffer w

  unfoldable pub write_guarded :
      MediaPointer → NorFlashInstance → ℕ → ℕ → ℕ → Buffer → W → Option (Status × W)
  write_guarded null inst media_id lba size buffer w = none
  write_guarded (media_at pointer) inst media_id lba size buffer w =
      if not (pointer == inst.media_address)
      then none
      else if not inst.media.media_present
      then some (error no_media, w)
      else if not (inst.media.media_id == media_id)
      then some (error media_changed, w)
      else if inst.media.read_only
      then some (error write_protected, w)
      else some (lib.nor_flash_write_blocks inst lba size buffer w)

  unfoldable pub nor_flash_block_io_write_blocks :
      Option NorFlashInstance → ℕ → ℕ → ℕ → Buffer → W → Option (Status × W)
  unfolding write_guarded
  nor_flash_block_io_write_blocks none media_id lba size buffer w = none
  nor_flash_block_io_write_blocks (some inst) media_id lba size buffer w =
      write_guarded inst.block_io_protocol.media inst media_id lba size buffer w
