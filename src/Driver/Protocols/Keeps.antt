-- ===== src/Driver/Protocols/Keeps.antt =====
-- What one call leaves of the bytes of the device.
use mathlib.Core.Path.{subst}
use odp_platform_radxa_orion.Common.{
  ℕ, ◌+◌, ◌-◌, ◌≡◌, ◌∙◌, ap, true, false, inl, inr, some, leb, arith, Bool-cases,
}
use odp_platform_radxa_orion.Efi.{Status, efi_error}
use odp_platform_radxa_orion.Flash.{Buffer, NorFlashInstance, NorFlashLib}
use odp_platform_radxa_orion.Flash.Laws.{IsNorFlash, block_start}
use odp_platform_radxa_orion.Fvb.Transfer.Bounds.{fvb_write_stays}
use odp_platform_radxa_orion.Fvb.Erase.Contents.{in_volume_bytes}
use odp_platform_radxa_orion.Fvb.Erase.Bounds.{KeepsByte, fvb_erase_blocks_stays}
use odp_platform_radxa_orion.Fvb.Volume.{Op, Step, reads, writes, erases}
use odp_platform_radxa_orion.Fvb.Volume.Refine.{Step-apply, fvb_read_keeps, IsErased-view}
use odp_platform_radxa_orion.BlockIo.{nor_flash_block_io_read_blocks, read_guarded}
use odp_platform_radxa_orion.DiskIo.{Division, nor_flash_disk_io_read_disk}
use odp_platform_radxa_orion.Driver.Runtime.{IsUsable}
use odp_platform_radxa_orion.Driver.Protocols.{volume_op, apply_request}

below_volume :
    (inst : NorFlashInstance) (x : ℕ)
    → leb (block_start inst inst.start_lba) x ≡ false
    → in_volume_bytes inst x ≡ false
below_volume inst x h = ground arith

behind_base : (base x : ℕ) → leb base x ≡ true → x ≡ base + (x - base)
behind_base base x h = ground arith

byte_kept :
    {W : Type 0} (contents : W → Buffer) (w w' : W) (x : ℕ) (status : Status)
    → efi_error status ≡ false
    → KeepsByte contents w x (some (status, w'))
    → contents w' x ≡ contents w x
byte_kept contents w w' x status ok (inl bad) = absurd (ground arith)
byte_kept contents w w' x status ok (inr kept) = kept.1

module _ {W : Type 0} (lib : NorFlashLib W) (contents : W → Buffer)
    (laws : IsNorFlash lib contents) where
  -- An operation of the volume keeps the bytes before the volume.
  Step-before :
      {inst : NorFlashInstance} {w w' : W} {op : Op} (x : ℕ)
      → IsUsable inst
      → Step lib contents inst w op w'
      → leb (block_start inst inst.start_lba) x ≡ false
      → contents w' x ≡ contents w x
  Step-before {inst = inst} x u (reads w lba offset n into request) out =
      ap (λ (bytes : Buffer). bytes x)
        (fvb_read_keeps lib contents laws inst u.block_size u.addressable u.writable lba offset n
          into w request)
  Step-before {inst = inst} x u (writes w lba offset n buffer request inside blank ok) out =
      fvb_write_stays lib contents laws inst u.block_size lba offset n buffer w request u.writable
        (omega (arith, u.addressable.last))
        (IsErased-view lib contents laws inst u.block_size u.addressable u.writable w lba offset n
          inside blank)
        ok x inside (below_volume inst x out)
  Step-before {inst = inst} x u (erases w w' rs status ranges inside answer ok) out =
      byte_kept contents w w' x status ok (
        subst (KeepsByte contents w x) answer (
          fvb_erase_blocks_stays lib contents laws inst u.addressable rs w x ranges inside
            u.writable (below_volume inst x out)))

  pub Step-device :
      (inst : NorFlashInstance) (w w' : W) (op : Op) (x : ℕ)
      → IsUsable inst
      → Step lib contents inst w op w'
      → contents w' x
        ≡ apply_request inst.media.block_size inst.start_lba (volume_op op) (contents w) x
  Step-device inst w w' op x u step = elim (Bool-cases (leb (block_start inst inst.start_lba) x)) [
    | inl behind ↦ rw behind (
        ap (contents w') (behind_base (block_start inst inst.start_lba) x behind)
        ∙ ap (λ (bytes : Buffer). bytes (x - block_start inst inst.start_lba))
            (Step-apply lib contents laws inst u.block_size u.addressable u.writable step))
    | inr before ↦ rw before (Step-before x u step before)
  ]

  -- A read of blocks keeps the device, whatever it returns.
  pub read_blocks_keeps :
      (inst : NorFlashInstance) (w w' : W) (media_id lba size address : ℕ) (into out : Buffer)
      (status : Status)
      → nor_flash_block_io_read_blocks lib (some inst) media_id lba size address into w
        ≡ some (status, out, w')
      → contents w' ≡ contents w
  unfolding nor_flash_block_io_read_blocks read_guarded
  read_blocks_keeps inst w w' media_id lba size address into out status answer =
      ground (arith, laws.read_blocks_keeps inst lba size into w)

  pub read_disk_keeps :
      (divide : Division) (inst : NorFlashInstance) (w : W) (media_id disk_offset size : ℕ)
      (into : Buffer)
      → contents (nor_flash_disk_io_read_disk lib divide inst media_id disk_offset size into w).2
        ≡ contents w
  unfolding nor_flash_disk_io_read_disk
  read_disk_keeps divide inst w media_id disk_offset size into = ground (
    arith,
    laws.read_keeps inst (divide disk_offset inst.media.block_size).0
        (divide disk_offset inst.media.block_size).1 size into w,
  )
