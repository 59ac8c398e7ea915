-- ===== src/DiskIo/Contents.antt =====
-- NorFlashDiskIoDxe.c on the bytes of the device.
use odp_platform_radxa_orion.Common.{
  ℕ, ◌+◌, ◌<◌, ◌≡◌, false, arith, ltb, if◌then◌else◌, ◌∙◌, lt→ltb,
}
use odp_platform_radxa_orion.Efi.{efi_error}
use odp_platform_radxa_orion.Flash.{Buffer, NorFlashInstance, NorFlashLib}
use odp_platform_radxa_orion.Flash.Laws.{IsNorFlash, IsErased, copied, copied_inside}
use odp_platform_radxa_orion.DiskIo.{
  Division, IsDivision, nor_flash_disk_io_read_disk, nor_flash_disk_io_write_disk,
}

-- The block that a disk offset lies in, and the offset in that block.
abbrev lba : Division → NorFlashInstance → ℕ → ℕ
lba divide inst disk_offset = (divide disk_offset inst.media.block_size).0

abbrev block_offset : Division → NorFlashInstance → ℕ → ℕ
block_offset divide inst disk_offset = (divide disk_offset inst.media.block_size).1

module _ {W : Type 0} (lib : NorFlashLib W) (divide : Division) (inst : NorFlashInstance)
    (media_id disk_offset size : ℕ) (buffer : Buffer) (w : W) where
  read_accepted :
      efi_error (nor_flash_disk_io_read_disk lib divide inst media_id disk_offset size buffer w).0
        ≡ false
      → (media_id ≡ inst.media.media_id)
        × (nor_flash_disk_io_read_disk lib divide inst media_id disk_offset size buffer w
            ≡ lib.nor_flash_read inst
                (lba divide inst disk_offset)
                (block_offset divide inst disk_offset)
                size
                buffer
                w)
  unfolding nor_flash_disk_io_read_disk
  read_accepted h = ground arith

  write_accepted :
      efi_error (nor_flash_disk_io_write_disk lib divide inst media_id disk_offset size buffer w).0
        ≡ false
      → (media_id ≡ inst.media.media_id)
        × (nor_flash_disk_io_write_disk lib divide inst media_id disk_offset size buffer w
            ≡ lib.nor_flash_write inst
                (lba divide inst disk_offset)
                (block_offset divide inst disk_offset)
                size
                buffer
                w)
  unfolding nor_flash_disk_io_write_disk
  write_accepted h = ground arith

module _ {W : Type 0} (lib : NorFlashLib W) (contents : W → Buffer) (laws : IsNorFlash lib contents)
    (divide : Division) (division : IsDivision divide) (inst : NorFlashInstance)
    (pos : 0 < inst.media.block_size) (media_id disk_offset size : ℕ) where
  -- Over a flash and a division that keep their laws, with blocks that are not empty: a
  -- NorFlashDiskIoReadDisk that reports no error was called with the media's id. The buffer holds
  -- the device's bytes from the disk offset on and is unchanged behind them, and the device is
  -- unchanged.
  pub read_disk_lem :
      (buffer : Buffer) (w : W)
      → let (status, out, v) =
          nor_flash_disk_io_read_disk lib divide inst media_id disk_offset size buffer w in
        efi_error status ≡ false
        → (media_id ≡ inst.media.media_id)
          × ((i : ℕ) → out i ≡ (if ltb i size then contents w (disk_offset + i) else buffer i))
          × (contents v ≡ contents w)
  read_disk_lem buffer w ok =
      let (media, e) = read_accepted lib divide inst media_id disk_offset size buffer w ok in
      (
        media,
        rw e (
            rw (division.parts disk_offset inst.media.block_size pos) at
              (laws.read_ok inst _ _ size buffer w (rw e at ok))),
        rw e (laws.read_keeps inst _ _ size buffer w),
      )

  -- Over a flash and a division that keep their laws, with blocks that are not empty: a
  -- NorFlashDiskIoWriteDisk to erased bytes that reports no error was called with the media's id.
  -- The device holds the buffer's bytes from the disk offset on, and its other bytes are as
  -- before.
  pub write_disk_lem :
      (buffer : Buffer) (w : W)
      → let (status, v) =
          nor_flash_disk_io_write_disk lib divide inst media_id disk_offset size buffer w in
        efi_error status ≡ false
        → IsErased (contents w) disk_offset size
        → (media_id ≡ inst.media.media_id)
          × ((x : ℕ) → contents v x ≡ copied disk_offset size buffer (contents w) x)
  write_disk_lem buffer w ok blank =
      let (media, e) = write_accepted lib divide inst media_id disk_offset size buffer w ok in
      let whole = division.parts disk_offset inst.media.block_size pos in
      (
        media,
        rw e (rw whole at (laws.write_ok inst _ _ size buffer w (rw e at ok) (rw whole blank))),
      )

  -- Over a flash and a division that keep their laws, with blocks that are not empty: if
  -- NorFlashDiskIoWriteDisk writes at a disk offset to erased bytes without an error, and
  -- NorFlashDiskIoReadDisk of the same bytes then reports no error, the buffer holds the bytes
  -- that were written.
  pub read_disk-write_disk :
      (buffer into : Buffer) (w : W)
      → let (status, v) =
          nor_flash_disk_io_write_disk lib divide inst media_id disk_offset size buffer w in
        efi_error status ≡ false
        → IsErased (contents w) disk_offset size
        → let (status', out, v') =
            nor_flash_disk_io_read_disk lib divide inst media_id disk_offset size into v in
          efi_error status' ≡ false → (i : ℕ) → i < size → out i ≡ buffer i
  read_disk-write_disk buffer into w written blank read i h =
      let v = (nor_flash_disk_io_write_disk lib divide inst media_id disk_offset size buffer w).1 in
      (read_disk_lem into v read).1 i
      ∙ rw (lt→ltb i size h) (
          (write_disk_lem buffer w written blank).1 (disk_offset + i)
          ∙ copied_inside disk_offset size i buffer (contents w) h)
