-- ===== src/Driver/Protocols.antt =====
-- The three protocols of an instance over the one device that they share: a client of the volume, a
-- client of the blocks and a client of the disk call them in any order, also behind
-- NorFlashVirtualNotifyEvent.
pub mod Keeps
pub mod Stale
pub mod Refine
use odp_platform_radxa_orion.Common.{
  ℕ, ◌-◌, ◌+◌, ◌*◌, ◌<◌, ◌≤◌, ◌≡◌, false, some, List, [], ◌∷◌, leb, if◌then◌else◌,
}
use odp_platform_radxa_orion.Efi.{Status, success, efi_error}
use odp_platform_radxa_orion.Flash.{Buffer, NorFlashInstance, NorFlashLib}
use odp_platform_radxa_orion.Flash.Laws.{IsErased, block_start, copied}
use odp_platform_radxa_orion.Fvb.Transfer.{fvb_read}
use odp_platform_radxa_orion.Fvb.Transfer.Contents.{IsRequest}
use odp_platform_radxa_orion.Fvb.Volume.{Op, apply, Step}
use odp_platform_radxa_orion.BlockIo.{
  nor_flash_block_io_read_blocks, nor_flash_block_io_write_blocks,
}
use odp_platform_radxa_orion.DiskIo.{
  Division, nor_flash_disk_io_read_disk, nor_flash_disk_io_write_disk,
}
use odp_platform_radxa_orion.Driver.Start.{convert_instance}

-- The calls of the three protocols, and the conversion of the instance.
pub data Request : Type 0 where
  volume_op : Op → Request
  read_blocks : (media_id lba size address : ℕ) → Buffer → Request
  write_blocks : (media_id lba size : ℕ) → Buffer → Request
  read_disk : (media_id disk_offset size : ℕ) → Buffer → Request
  write_disk : (media_id disk_offset size : ℕ) → Buffer → Request
  set_virtual_map : (ℕ → ℕ) → Request

-- What a call does to the bytes of a device with blocks of so many bytes, on which the volume
-- starts at the block `start`.
abbrev pub apply_request : ℕ → ℕ → Request → Buffer → Buffer
apply_request block_size start (volume_op op) bytes x =
    if leb (start * block_size) x
    then apply block_size op (λ y. bytes (start * block_size + y)) (x - start * block_size)
    else bytes x
apply_request block_size start (read_blocks media_id lba size address into) bytes x = bytes x
apply_request block_size start (write_blocks media_id lba size buffer) bytes x =
    copied (lba * block_size) size buffer bytes x
apply_request block_size start (read_disk media_id disk_offset size into) bytes x = bytes x
apply_request block_size start (write_disk media_id disk_offset size buffer) bytes x =
    copied disk_offset size buffer bytes x
apply_request block_size start (set_virtual_map convert) bytes x = bytes x

abbrev pub apply_requests : ℕ → ℕ → List Request → Buffer → Buffer
apply_requests block_size start [] bytes = bytes
apply_requests block_size start (r ∷ rs) bytes =
    apply_requests block_size start rs (apply_request block_size start r bytes)

module _ {W : Type 0} (lib : NorFlashLib W) (contents : W → Buffer) (divide : Division) where
  -- A call: an operation of the volume; a read of blocks or of the disk, whatever it returns; a
  -- write of blocks or of the disk to erased bytes that reports no error; or a conversion.
  pub data Turn : NorFlashInstance → W → Request → NorFlashInstance → W → Type 0 where
    on_volume :
        (inst : NorFlashInstance) (w w' : W) (op : Op)
        → Step lib contents inst w op w'
        → Turn inst w (volume_op op) inst w'
    reads_blocks :
        (inst : NorFlashInstance) (w w' : W) (media_id lba size address : ℕ) (into out : Buffer)
        (status : Status)
        → nor_flash_block_io_read_blocks lib (some inst) media_id lba size address into w
          ≡ some (status, out, w')
        → Turn inst w (read_blocks media_id lba size address into) inst w'
    writes_blocks :
        (inst : NorFlashInstance) (w w' : W) (media_id lba size : ℕ) (buffer : Buffer)
        (status : Status)
        → nor_flash_block_io_write_blocks lib (some inst) media_id lba size buffer w
          ≡ some (status, w')
        → efi_error status ≡ false
        → IsErased (contents w) (block_start inst lba) size
        → Turn inst w (write_blocks media_id lba size buffer) inst w'
    reads_disk :
        (inst : NorFlashInstance) (w : W) (media_id disk_offset size : ℕ) (into : Buffer)
        → Turn inst w
            (read_disk media_id disk_offset size into)
            inst
            (nor_flash_disk_io_read_disk lib divide inst media_id disk_offset size into w).2
    writes_disk :
        (inst : NorFlashInstance) (w : W) (media_id disk_offset size : ℕ) (buffer : Buffer)
        → efi_error
            (nor_flash_disk_io_write_disk lib divide inst media_id disk_offset size buffer w).0
          ≡ false
        → IsErased (contents w) disk_offset size
        → Turn inst w
            (write_disk media_id disk_offset size buffer)
            inst
            (nor_flash_disk_io_write_disk lib divide inst media_id disk_offset size buffer w).1
    converts :
        (inst : NorFlashInstance) (w : W) (convert : ℕ → ℕ)
        → Turn inst w (set_virtual_map convert) (convert_instance convert inst) w

  pub data Turns : NorFlashInstance → W → List Request → NorFlashInstance → W → Type 0 where
    stays : (inst : NorFlashInstance) (w : W) → Turns inst w [] inst w
    turns :
        (inst inst' inst'' : NorFlashInstance) (w w' w'' : W) (r : Request) (rs : List Request)
        → Turn inst w r inst' w'
        → Turns inst' w' rs inst'' w''
        → Turns inst w (r ∷ rs) inst'' w''

  -- A read of the instance without an error, by its place on the device, its number of bytes and
  -- the buffer behind it: of the volume within a block, of blocks, or of the disk.
  pub data Read (inst : NorFlashInstance) (w : W) : ℕ → ℕ → Buffer → Type 0 where
    by_volume :
        (lba offset n : ℕ) (into : Buffer)
        → IsRequest inst.media.block_size offset n
        → lba < inst.blocks
        → offset + n ≤ inst.media.block_size
        → (fvb_read lib inst lba offset n into w).status ≡ success
        → Read inst w
            (block_start inst inst.start_lba + (lba * inst.media.block_size + offset))
            n
            (fvb_read lib inst lba offset n into w).buffer
    by_blocks :
        (w' : W) (media_id lba size address : ℕ) (into out : Buffer) (status : Status)
        → nor_flash_block_io_read_blocks lib (some inst) media_id lba size address into w
          ≡ some (status, out, w')
        → efi_error status ≡ false
        → Read inst w (block_start inst lba) size out
    by_disk :
        (media_id disk_offset size : ℕ) (into : Buffer)
        → efi_error (nor_flash_disk_io_read_disk lib divide inst media_id disk_offset size into w).0
          ≡ false
        → Read inst w disk_offset size
            (nor_flash_disk_io_read_disk lib divide inst media_id disk_offset size into w).1
