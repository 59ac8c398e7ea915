-- ===== src/Tests/Sharing.antt =====
-- A block of the board's volume that is erased over the volume's protocol, written over that of the
-- disk, read over that of the blocks, and read over that of the disk behind the virtual map.
use odp_platform_radxa_orion.Common.{
  ℕ, ◌+◌, ◌<◌, ◌≡◌, some, List, [], ◌∷◌, refl, arith, ltb, if◌then◌else◌,
}
use odp_platform_radxa_orion.Efi.{success}
use odp_platform_radxa_orion.Flash.{Buffer, NorFlashInstance}
use odp_platform_radxa_orion.Flash.Laws.{block_start, IsErased, erased}
use odp_platform_radxa_orion.Fvb.Erase.{fvb_erase_blocks, check_ranges, erase_ranges, erase_range}
use odp_platform_radxa_orion.Fvb.Erase.Ranges.{Range, arguments}
use odp_platform_radxa_orion.Fvb.Volume.{erase_op, erases}
use odp_platform_radxa_orion.BlockIo.{nor_flash_block_io_read_blocks, read_guarded}
use odp_platform_radxa_orion.DiskIo.{nor_flash_disk_io_read_disk, nor_flash_disk_io_write_disk}
use odp_platform_radxa_orion.Driver.Start.{convert_instance}
use odp_platform_radxa_orion.Driver.Runtime.{IsUsable, SameVolume}
use odp_platform_radxa_orion.Driver.Protocols.{
  Request, volume_op, write_disk, set_virtual_map, apply_requests, Turns, on_volume, writes_disk,
  read_blocks, reads_blocks, converts, stays, turns, by_disk,
}
use odp_platform_radxa_orion.Driver.Protocols.Refine.{Read-apply_requests}
use odp_platform_radxa_orion.Tests.Data.{
  flash, contents, flash-IsNorFlash, divide, divide-IsDivision, volume, blank, text,
}

abbrev fourth : List Range
fourth = record { starting_lba = 3; num_of_lba = 1 } ∷ []

abbrev wiped : Buffer
wiped = erased (block_start volume 0x383) 0x1000 text

abbrev written : Buffer
written = (nor_flash_disk_io_write_disk flash divide volume 0 0x383010 20 text wiped).1

abbrev seen : Buffer
seen i = if ltb i 0x1000 then written (0x383000 + i) else blank i

abbrev moved : NorFlashInstance
moved = convert_instance (λ a. a + 0x1000) volume

abbrev requests : List Request
requests =
    volume_op (erase_op fourth)
    ∷ write_disk 0 0x383010 20 text
    ∷ read_blocks 0 0x383 0x1000 0x4000 blank
    ∷ set_virtual_map (λ a. a + 0x1000)
    ∷ []

volume-IsUsable : IsUsable volume
volume-IsUsable = record {
  block_size = (omega arith, omega arith);
  addressable = record { last = omega arith; bytes = omega arith };
  writable = refl;
}

fourth_erased : fvb_erase_blocks flash volume (arguments fourth) text ≡ some (success, wiped)
unfolding fvb_erase_blocks check_ranges erase_ranges erase_range
fourth_erased = refl

wiped_blank : IsErased wiped 0x383010 20
wiped_blank i h = ground arith

requests-Turns : Turns flash contents divide volume text requests moved written
unfolding nor_flash_disk_io_write_disk nor_flash_block_io_read_blocks read_guarded
requests-Turns =
    turns volume volume moved text wiped written _ _
      (on_volume volume text wiped (erase_op fourth)
        (erases text wiped fourth success (omega arith, tt) refl fourth_erased refl))
      (turns volume volume moved wiped written written _ _
        (writes_disk volume wiped 0 0x383010 20 text refl wiped_blank)
        (turns volume volume moved written written written _ _
          (reads_blocks volume written written 0 0x383 0x1000 0x4000 blank seen success refl)
          (turns volume moved moved written written written _ _
            (converts volume written (λ a. a + 0x1000)) (stays moved written))))

Read-apply_requests_example :
    IsUsable moved
    × SameVolume volume moved
    × ((x : ℕ) → written x ≡ apply_requests 0x1000 0x380 requests text x)
    × ((i : ℕ)
        → i < 0x1000
        → (nor_flash_disk_io_read_disk flash divide moved 0 0x383000 0x1000 blank written).1 i
          ≡ apply_requests 0x1000 0x380 requests text (0x383000 + i))
unfolding nor_flash_disk_io_read_disk convert_instance
Read-apply_requests_example =
    Read-apply_requests flash contents flash-IsNorFlash divide divide-IsDivision volume moved text
      written requests 0x383000 0x1000
      (nor_flash_disk_io_read_disk flash divide moved 0 0x383000 0x1000 blank written).1
      volume-IsUsable requests-Turns (by_disk 0 0x383000 0x1000 blank refl)
