-- ===== src/Fvb/Attributes/Laws.antt =====
-- What the volume reports of itself, against what its operations do.
use odp_platform_radxa_orion.Common.{ℕ, ◌≤◌, ◌≡◌, ◌↔◌, true, bit_and, arith, List, some}
use odp_platform_radxa_orion.Efi.{success, error, access_denied}
use odp_platform_radxa_orion.Flash.{Buffer, NorFlashInstance, NorFlashLib}
use odp_platform_radxa_orion.Fvb.Attributes.{write_status, fvb_get_attributes, fvb_get_block_size}
use odp_platform_radxa_orion.Fvb.Erase.Ranges.{in_volume, fvb_erase_blocks-read_only}
use odp_platform_radxa_orion.Fvb.Transfer.{fvb_write}
use odp_platform_radxa_orion.Fvb.Transfer.Branches.{fvb_write-read_only}
use odp_platform_radxa_orion.Fvb.Erase.{fvb_erase_blocks}

denied :
    (inst : NorFlashInstance)
    → bit_and (fvb_get_attributes inst).1 write_status ≡ 0
    → inst.media.read_only ≡ true
unfolding fvb_get_attributes
denied inst h = ground arith

-- If FvbGetAttributes does not report EFI_FVB2_WRITE_STATUS, FvbWrite and FvbEraseBlocks answer
-- every call with EFI_ACCESS_DENIED and leave the device and *NumBytes as they are.
pub write_status_denies :
    {W : Type 0} (lib : NorFlashLib W) (inst : NorFlashInstance) (lba offset n : ℕ)
    (buffer : Buffer) (args : List ℕ) (w : W)
    → bit_and (fvb_get_attributes inst).1 write_status ≡ 0
    → (fvb_write lib inst lba offset n buffer w
        ≡ record { status = error access_denied; num_bytes = n; world = w })
      × (fvb_erase_blocks lib inst args w ≡ some (error access_denied, w))
write_status_denies lib inst lba offset n buffer args w h = (
  fvb_write-read_only lib inst lba offset n buffer w (denied inst h),
  fvb_erase_blocks-read_only lib inst args w (denied inst h),
)

-- If FvbGetBlockSize returns EFI_SUCCESS for a block, *BlockSize is the size of the blocks, and
-- *NumberOfBlocks is the length of the longest range from that block on that lies in the volume,
-- all shorter ranges that are not empty lying in it too.
pub fvb_get_block_size_lem :
    (inst : NorFlashInstance) (lba size count : ℕ)
    → ((fvb_get_block_size inst lba size count).status ≡ success)
    → let out = fvb_get_block_size inst lba size count in
      (out.block_size ≡ inst.media.block_size)
      × ((n : ℕ)
          → (in_volume inst.blocks (record { starting_lba = lba; num_of_lba = n }) ≡ true)
            ↔ ((1 ≤ n) × (n ≤ out.number_of_blocks)))
unfolding fvb_get_block_size
fvb_get_block_size_lem inst lba size count ok = (ground arith, λ n. ground arith)
