-- ===== src/Fvb/Transfer/Branches.antt =====
-- Which branch FvbRead and FvbWrite take, by the request.
use native.Mathlib.Nat.{mod-eq_of_lt}
use odp_platform_radxa_orion.Common.{
  ℕ, ◌+◌, ◌-◌, ◌^◌, ◌<◌, ◌≤◌, ◌≡◌, ◌↔◌, ◌⊎◌, min, true, false, arith, mod_self_of_eq, ltb, add64,
  if◌then◌else◌,
}
use odp_platform_radxa_orion.Efi.{error}
use odp_platform_radxa_orion.Efi.{bad_buffer_size, access_denied}
use odp_platform_radxa_orion.Flash.{Buffer, NorFlashInstance, NorFlashLib}
use odp_platform_radxa_orion.Fvb.Transfer.{
  fvb_read, fvb_write, read_part, read_block, write_part, write_block,
}

-- The driver's BlockSize is a UINT32 and not zero.
abbrev pub IsBlockSize : ℕ → Type 0
IsBlockSize bs = (0 < bs) × (bs < 2 ^ 32)

module _ {W : Type 0} (lib : NorFlashLib W) (inst : NorFlashInstance) (lba offset n : ℕ)
    (buffer : Buffer) (w : W) (size : IsBlockSize inst.media.block_size) where
  -- A request for less than a block is clipped to the end of the block.
  pub fvb_read-part :
      offset < inst.media.block_size
      → 0 < n
      → n < inst.media.block_size
      → fvb_read lib inst lba offset n buffer w
        ≡ read_part lib inst
            (add64 inst.start_lba lba)
            offset
            (min n (inst.media.block_size - offset))
            buffer
            w
  unfolding fvb_read
  fvb_read-part ho hn hb = ground (arith, mod-eq_of_lt hb)

  -- A request for the size of a block reads the block from its start, whatever the offset.
  pub fvb_read-block :
      offset < inst.media.block_size
      → n ≡ inst.media.block_size
      → fvb_read lib inst lba offset n buffer w
        ≡ read_block lib inst (add64 inst.start_lba lba) inst.media.block_size n buffer w
  unfolding fvb_read
  fvb_read-block ho hn = ground (arith, mod_self_of_eq n inst.media.block_size size.0)

  -- With blocks of 1 to 2^32 - 1 bytes, FvbRead returns EFI_BAD_BUFFER_SIZE exactly if the offset
  -- is not in the block, or more than a block is asked for, or nothing.
  pub fvb_read_refusal :
      ((fvb_read lib inst lba offset n buffer w).status ≡ error bad_buffer_size)
      ↔ ((inst.media.block_size ≤ offset) ⊎ ((inst.media.block_size < n) ⊎ (n ≡ 0)))
  unfolding fvb_read
  fvb_read_refusal = ground arith

  pub fvb_read-refused :
      ((inst.media.block_size ≤ offset) ⊎ ((inst.media.block_size < n) ⊎ (n ≡ 0)))
      → fvb_read lib inst lba offset n buffer w
        ≡ record { status = error bad_buffer_size; num_bytes = 0; buffer = buffer; world = w }
  unfolding fvb_read
  fvb_read-refused h = ground arith

  pub fvb_write-part :
      inst.media.read_only ≡ false
      → offset < inst.media.block_size
      → 0 < n
      → n < inst.media.block_size
      → fvb_write lib inst lba offset n buffer w
        ≡ write_part lib inst
            (add64 inst.start_lba lba)
            offset
            (min n (inst.media.block_size - offset))
            (ltb inst.media.block_size (offset + n))
            buffer
            w
  unfolding fvb_write
  fvb_write-part hr ho hn hb = ground (arith, mod-eq_of_lt hb)

  pub fvb_write-block :
      inst.media.read_only ≡ false
      → offset < inst.media.block_size
      → n ≡ inst.media.block_size
      → fvb_write lib inst lba offset n buffer w
        ≡ write_block lib inst (add64 inst.start_lba lba) inst.media.block_size n buffer w
  unfolding fvb_write
  fvb_write-block hr ho hn = ground (arith, mod_self_of_eq n inst.media.block_size size.0)

  -- With blocks of 1 to 2^32 - 1 bytes: if the volume is read-only, or the offset is not in the
  -- block, or more than a block is to be written, or nothing, FvbWrite leaves the device as it is,
  -- and returns EFI_ACCESS_DENIED on a read-only volume and EFI_BAD_BUFFER_SIZE on another.
  pub fvb_write-refused :
      (inst.media.read_only ≡ true)
        ⊎ ((inst.media.block_size ≤ offset) ⊎ ((inst.media.block_size < n) ⊎ (n ≡ 0)))
      → ((fvb_write lib inst lba offset n buffer w).world ≡ w)
        × ((fvb_write lib inst lba offset n buffer w).status
            ≡ error (if inst.media.read_only then access_denied else bad_buffer_size))
  unfolding fvb_write
  fvb_write-refused h = ground arith

pub fvb_write-read_only :
    {W : Type 0} (lib : NorFlashLib W) (inst : NorFlashInstance) (lba offset n : ℕ)
    (buffer : Buffer) (w : W)
    → inst.media.read_only ≡ true
    → fvb_write lib inst lba offset n buffer w
      ≡ record { status = error access_denied; num_bytes = n; world = w }
unfolding fvb_write
fvb_write-read_only lib inst lba offset n buffer w h = rw h
