-- ===== src/Driver/Protocols/Refine.antt =====
-- The device against the array of bytes.

use odp_platform_radxa_orion.Common.{
  ℕ, ◌+◌, ◌<◌, ◌≡◌, refl, ◌∙◌, ap, fun_ext, List, [], ◌∷◌, lt→ltb,
}
use odp_platform_radxa_orion.Flash.{Buffer, NorFlashInstance, NorFlashLib}
use odp_platform_radxa_orion.Flash.Laws.{IsNorFlash}
use odp_platform_radxa_orion.Fvb.Transfer.Contents.{in_block_fits, fvb_read_success}
use odp_platform_radxa_orion.Fvb.Volume.Refine.{in_device}
use odp_platform_radxa_orion.BlockIo.Contents.{read_blocks_lem, write_blocks_lem}
use odp_platform_radxa_orion.DiskIo.{Division, IsDivision}
use odp_platform_radxa_orion.DiskIo.Contents.{read_disk_lem, write_disk_lem}
use odp_platform_radxa_orion.Driver.Start.{convert_instance}
use odp_platform_radxa_orion.Driver.Runtime.{IsUsable, SameVolume, IsUsable-convert}
use odp_platform_radxa_orion.Driver.Protocols.{
  Request, apply_requests, Turn, on_volume, reads_blocks, writes_blocks, Read, by_volume, by_blocks,
  by_disk, reads_disk, writes_disk, converts, Turns, stays, turns,
}
use odp_platform_radxa_orion.Driver.Protocols.Keeps.{
  Step-device, read_blocks_keeps, read_disk_keeps,
}

module _ {W : Type 0} (lib : NorFlashLib W) (contents : W → Buffer) (laws : IsNorFlash lib contents)
    (divide : Division) (division : IsDivision divide) where
  -- What a sequence of calls has done.
  abbrev pub Done : NorFlashInstance → W → List Request → NorFlashInstance → W → Type 0
  Done inst w rs inst' w' =
      IsUsable inst'
      × SameVolume inst inst'
      × (contents w' ≡ apply_requests inst.media.block_size inst.start_lba rs (contents w))

  unmoved : (inst : NorFlashInstance) → SameVolume inst inst
  unmoved inst = record { start = refl; count = refl; size = refl }

  Turn-Done :
      (inst inst' : NorFlashInstance) (w w' : W) (r : Request)
      → IsUsable inst
      → Turn lib contents divide inst w r inst' w'
      → Done inst w (r ∷ []) inst' w'
  unfolding convert_instance
  Turn-Done _ _ _ _ _ u (on_volume inst w w' op step) =
      (u, unmoved inst, fun_ext (λ x. Step-device lib contents laws inst w w' op x u step))
  Turn-Done _ _ _ _ _ u (reads_blocks inst w w' media_id lba size address into out status answer) =
      (
        u,
        unmoved inst,
        read_blocks_keeps lib contents laws inst w w' media_id lba size address into out status
            answer,
      )
  Turn-Done _ _ _ _ _ u (writes_blocks inst w w' media_id lba size buffer status answer ok blank) =
      (
        u,
        unmoved inst,
        fun_ext
            (write_blocks_lem lib contents laws inst media_id lba size 0 buffer w status w' answer
              ok blank).2,
      )
  Turn-Done _ _ _ _ _ u (reads_disk inst w media_id disk_offset size into) = (
    u,
    unmoved inst,
    read_disk_keeps lib contents laws divide inst w media_id disk_offset size into,
  )
  Turn-Done _ _ _ _ _ u (writes_disk inst w media_id disk_offset size buffer ok blank) = (
    u,
    unmoved inst,
    fun_ext
        (write_disk_lem lib contents laws divide division inst u.block_size.0 media_id disk_offset
          size buffer w ok blank).1,
  )
  Turn-Done _ _ _ _ _ u (converts inst w convert) =
      (IsUsable-convert convert inst u, record { start = refl; count = refl; size = refl }, refl)

  Turns-Done :
      {inst inst' : NorFlashInstance} {w w' : W} {rs : List Request}
      → IsUsable inst
      → Turns lib contents divide inst w rs inst' w'
      → Done inst w rs inst' w'
  Turns-Done u (stays inst w) = (u, unmoved inst, refl)
  Turns-Done u (turns inst inst' inst'' w w' w'' r rs first later) =
      let (u', same, bytes) = Turn-Done inst inst' w w' r u first in
      let (u'', same', bytes') = Turns-Done u' later in
      (
        u'',
        record {
          start = same'.start ∙ same.start;
          count = same'.count ∙ same.count;
          size = same'.size ∙ same.size;
        },
        bytes'
            ∙ rw (same.size, same.start)
                (ap (apply_requests inst.media.block_size inst.start_lba rs) bytes),
      )

  -- A read without an error gives the bytes of the device.
  Read-bytes :
      (inst : NorFlashInstance) (w : W) {a n : ℕ} {out : Buffer}
      → IsUsable inst
      → Read lib contents divide inst w a n out
      → (i : ℕ) → i < n
      → out i ≡ contents w (a + i)
  Read-bytes inst w u (by_volume lba offset n into request inside room ok) i h =
      (fvb_read_success lib contents laws inst u.block_size lba offset n into w request ok).bytes i
      ∙ rw
          (
            in_block_fits _ _ _ room,
            lt→ltb i n h,
            in_device lib contents laws inst u.block_size u.addressable u.writable lba offset
                inside,
          )
          refl
  Read-bytes inst w u (by_blocks w' media_id lba size address into out status answer ok) i h =
      (read_blocks_lem lib contents laws inst media_id lba size address into w status out w' answer
          ok).2
        i
      ∙ rw (lt→ltb i size h) refl
  Read-bytes inst w u (by_disk media_id disk_offset size into ok) i h =
      (read_disk_lem lib contents laws divide division inst u.block_size.0 media_id disk_offset size
          into w ok).1
        i
      ∙ rw (lt→ltb i size h) refl

  -- The three protocols of an instance refine one array of bytes. Over a flash and a division that
  -- keep their laws, on an instance whose volume is writable, with blocks of 1 to 2^32 - 1 bytes
  -- and a last block and a size in bytes that are 64-bit words: behind any sequence of operations
  -- of the volume as the protocol serves them on its blocks (reads, writes to erased bytes without
  -- an error, erasures without an error), of reads of blocks that return and of the disk, whatever
  -- their status, of writes of blocks and of the disk to erased bytes without an error, and of
  -- conversions of the instance by NorFlashVirtualNotifyEvent, the instance is still such an
  -- instance at the same blocks, the device holds at every place the byte that the array holds
  -- behind the same calls, and a read that returns without an error by any of the three protocols
  -- gives the array's bytes: FvbRead within a block of the volume, NorFlashBlockIoReadBlocks, or
  -- NorFlashDiskIoReadDisk.
  pub Read-apply_requests :
      (inst inst' : NorFlashInstance) (w w' : W) (rs : List Request) (a n : ℕ) (out : Buffer)
      → IsUsable inst
      → Turns lib contents divide inst w rs inst' w'
      → Read lib contents divide inst' w' a n out
      → let after = apply_requests inst.media.block_size inst.start_lba rs (contents w) in
        IsUsable inst'
        × SameVolume inst inst'
        × ((x : ℕ) → contents w' x ≡ after x)
        × ((i : ℕ) → i < n → out i ≡ after (a + i))
  Read-apply_requests inst inst' w w' rs a n out u steps read =
      let (u', same, bytes) = Turns-Done u steps in
      (
        u',
        same,
        λ x. ap (λ (b : Buffer). b x) bytes,
        λ i h. Read-bytes inst' w' u' read i h ∙ ap (λ (b : Buffer). b (a + i)) bytes,
      )
