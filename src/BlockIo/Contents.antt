-- ===== src/BlockIo/Contents.antt =====
-- What the guards of the block I/O protocol let through, and what then happens to the bytes.
use odp_platform_radxa_orion.Common.{
  ℕ, ◌+◌, ◌≡◌, true, false, arith, ltb, if◌then◌else◌, some, none, ap,
}
use odp_platform_radxa_orion.Efi.{Status, error, efi_error}
use odp_platform_radxa_orion.Efi.{invalid_parameter}
use odp_platform_radxa_orion.Flash.{Buffer, null, media_at, NorFlashInstance, NorFlashLib}
use odp_platform_radxa_orion.Flash.Laws.{IsNorFlash, IsErased, copied, block_start}
use odp_platform_radxa_orion.BlockIo.{
  misaligned, nor_flash_block_io_read_blocks, nor_flash_block_io_write_blocks,
}

-- The caller's media is the one that is present.
pub record IsMedia (inst : NorFlashInstance) (media_id : ℕ) : Type 0 where
  pub pointer : inst.block_io_protocol.media ≡ media_at inst.media_address
  pub present : inst.media.media_present ≡ true
  pub same : inst.media.media_id ≡ media_id

module _ {W : Type 0} (lib : NorFlashLib W) (inst : NorFlashInstance)
    (media_id lba size address : ℕ) (buffer : Buffer) (w : W) where
  read_accepted :
      (s : Status) (out : Buffer) (v : W)
      → nor_flash_block_io_read_blocks lib (some inst) media_id lba size address buffer w
        ≡ some (s, out, v)
      → efi_error s ≡ false
      → IsMedia inst media_id
        × (misaligned inst.media.io_align address ≡ false)
        × (lib.nor_flash_read_blocks inst lba size buffer w ≡ (s, out, v))
  unfolding nor_flash_block_io_read_blocks
  read_accepted s out v h ok = ground arith

  write_accepted :
      (s : Status) (v : W)
      → nor_flash_block_io_write_blocks lib (some inst) media_id lba size buffer w ≡ some (s, v)
      → efi_error s ≡ false
      → IsMedia inst media_id
        × (inst.media.read_only ≡ false)
        × (lib.nor_flash_write_blocks inst lba size buffer w ≡ (s, v))
  unfolding nor_flash_block_io_write_blocks
  write_accepted s v h ok = ground arith

  -- If the media pointer is NULL, NorFlashBlockIoReadBlocks returns EFI_INVALID_PARAMETER and
  -- leaves the buffer and the device as they are, while NorFlashBlockIoWriteBlocks reads through
  -- NULL.
  pub null_media :
      inst.block_io_protocol.media ≡ null
      → (nor_flash_block_io_read_blocks lib (some inst) media_id lba size address buffer w
          ≡ some (error invalid_parameter, buffer, w))
        × (nor_flash_block_io_write_blocks lib (some inst) media_id lba size buffer w ≡ none)
  unfolding nor_flash_block_io_read_blocks nor_flash_block_io_write_blocks
  null_media h = (rw h, rw h)

module _ {W : Type 0} (lib : NorFlashLib W) (contents : W → Buffer) (laws : IsNorFlash lib contents)
    (inst : NorFlashInstance) (media_id lba size address : ℕ) (buffer : Buffer) (w : W) where
  -- Over a flash that keeps its laws: a NorFlashBlockIoReadBlocks that reports no error was called
  -- for the media that is present and with an aligned buffer. The buffer holds the device's bytes
  -- from the start of the block on and is unchanged behind them, and the device is unchanged.
  pub read_blocks_lem :
      (s : Status) (out : Buffer) (v : W)
      → nor_flash_block_io_read_blocks lib (some inst) media_id lba size address buffer w
        ≡ some (s, out, v)
      → efi_error s ≡ false
      → IsMedia inst media_id
        × (misaligned inst.media.io_align address ≡ false)
        × ((i : ℕ)
            → out i ≡ (if ltb i size then contents w (block_start inst lba + i) else buffer i))
        × (contents v ≡ contents w)
  read_blocks_lem s out v h ok =
      let (media, aligned, e) =
        read_accepted lib inst media_id lba size address buffer w s out v h ok in
      (
        media,
        aligned,
        rw e at (laws.read_blocks_ok inst lba size buffer w (rw e ok)),
        rw e at (laws.read_blocks_keeps inst lba size buffer w),
      )

  -- Over a flash that keeps its laws: a NorFlashBlockIoWriteBlocks to erased bytes that returns
  -- without an error was called for the media that is present, and which is writable. The device
  -- holds the buffer's bytes from the start of the block on, and its other bytes are as before.
  pub write_blocks_lem :
      (s : Status) (v : W)
      → nor_flash_block_io_write_blocks lib (some inst) media_id lba size buffer w ≡ some (s, v)
      → efi_error s ≡ false
      → IsErased (contents w) (block_start inst lba) size
      → IsMedia inst media_id
        × (inst.media.read_only ≡ false)
        × ((x : ℕ) → contents v x ≡ copied (block_start inst lba) size buffer (contents w) x)
  write_blocks_lem s v h ok blank =
      let (media, writable, e) =
        write_accepted lib inst media_id lba size address buffer w s v h ok in
      (
        media,
        writable,
        rw e at (
            laws.write_blocks_ok inst lba size buffer w (rw (ap (λ (r : Status × W). r.0) e) ok)
              blank),
      )
