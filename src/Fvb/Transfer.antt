-- ===== src/Fvb/Transfer.antt =====
-- FvbRead and FvbWrite of NorFlashFvb.c.
pub mod Branches
pub mod Contents
pub mod Bounds
pub mod Statuses
pub mod RoundTrip
use odp_platform_radxa_orion.Common.{
  ℕ, ◌-◌, ◌%◌, Bool, not, ◌||◌, ltb, leb, ◌==◌, if◌then◌else◌, add64, u32,
}
use odp_platform_radxa_orion.Efi.{Status, success, error, efi_error}
use odp_platform_radxa_orion.Efi.{bad_buffer_size, device_error, access_denied}
use odp_platform_radxa_orion.Flash.{Buffer, NorFlashInstance, NorFlashLib}

-- What FvbRead leaves behind: its status, *NumBytes, the buffer and the world.
pub record Reading (W : Type 0) : Type 0 where
  pub status : Status
  pub num_bytes : ℕ
  pub buffer : Buffer
  pub world : W

-- What FvbWrite leaves behind.
pub record Writing (W : Type 0) : Type 0 where
  pub status : Status
  pub num_bytes : ℕ
  pub world : W

-- `if (Spaned) *NumBytes = (UINT32)(BlockSize - Offset)`
abbrev pub clip : Bool → ℕ → ℕ → ℕ → ℕ
clip spaned block_size offset num_bytes = if spaned then (block_size - offset) % u32 else num_bytes

module _ {W : Type 0} (lib : NorFlashLib W) where
  -- The branch of FvbRead that reads a part of a block. A clipped read sets Status to
  -- EFI_BAD_BUFFER_SIZE, and the function then returns EFI_SUCCESS all the same.
  abbrev pub read_part : NorFlashInstance → ℕ → ℕ → ℕ → Buffer → W → Reading W
  read_part inst lba offset n buffer w =
      let (status, buffer', w') = lib.nor_flash_read inst lba offset n buffer w in
      record {
        status = if efi_error status then error device_error else success;
        num_bytes = n;
        buffer = buffer';
        world = w';
      }

  -- The branch that reads the whole block.
  abbrev pub read_block : NorFlashInstance → ℕ → ℕ → ℕ → Buffer → W → Reading W
  read_block inst lba block_size n buffer w =
      let (status, buffer', w') = lib.nor_flash_read_blocks inst lba block_size buffer w in
      record {
        status = if efi_error status then error device_error else success;
        num_bytes = n;
        buffer = buffer';
        world = w';
      }

  unfoldable pub fvb_read : NorFlashInstance → ℕ → ℕ → ℕ → Buffer → W → Reading W
  fvb_read inst lba offset num_bytes buffer w =
      let block_size = inst.media.block_size in
      let spaned = ltb block_size (add64 offset num_bytes) in
      if leb block_size offset || ltb block_size num_bytes
      then (record { status = error bad_buffer_size; num_bytes = 0; buffer = buffer; world = w })
      else if num_bytes == 0
      then (record {
        status = error bad_buffer_size;
        num_bytes = num_bytes;
        buffer = buffer;
        world = w;
      })
      else if not (num_bytes % block_size == 0)
      then read_part inst (add64 inst.start_lba lba) offset
          (clip spaned block_size offset num_bytes) buffer w
      else read_block inst (add64 inst.start_lba lba) block_size num_bytes buffer w

  -- The branch of FvbWrite that writes a part of a block.
  abbrev pub write_part : NorFlashInstance → ℕ → ℕ → ℕ → Bool → Buffer → W → Writing W
  write_part inst lba offset n spaned buffer w =
      let (status, w') = lib.nor_flash_write inst lba offset n buffer w in
      record {
        status =
            if efi_error status then status else if spaned then error bad_buffer_size else status;
        num_bytes = n;
        world = w';
      }

  -- The branch that writes the whole block.
  abbrev pub write_block : NorFlashInstance → ℕ → ℕ → ℕ → Buffer → W → Writing W
  write_block inst lba block_size n buffer w =
      let (status, w') = lib.nor_flash_write_blocks inst lba block_size buffer w in
      record {
        status = if efi_error status then error device_error else status;
        num_bytes = n;
        world = w';
      }

  unfoldable pub fvb_write : NorFlashInstance → ℕ → ℕ → ℕ → Buffer → W → Writing W
  fvb_write inst lba offset num_bytes buffer w =
      let block_size = inst.media.block_size in
      let spaned = ltb block_size (add64 num_bytes offset) in
      if inst.media.read_only
      then record { status = error access_denied; num_bytes = num_bytes; world = w }
      else if leb block_size offset || ltb block_size num_bytes
      then record { status = error bad_buffer_size; num_bytes = 0; world = w }
      else if num_bytes == 0
      then record { status = error bad_buffer_size; num_bytes = num_bytes; world = w }
      else if not (num_bytes % block_size == 0)
      then write_part inst (add64 inst.start_lba lba) offset
          (clip spaned block_size offset num_bytes) spaned buffer w
      else write_block inst (add64 inst.start_lba lba) block_size num_bytes buffer w
