-- ===== src/Tests/Volumes.antt =====
-- A block of the board's volume that is erased, written and read.
use odp_platform_radxa_orion.Common.{ℕ, ◌+◌, ◌<◌, ◌≡◌, some, List, [], ◌∷◌, refl, arith}
use odp_platform_radxa_orion.Efi.{success}
use odp_platform_radxa_orion.Flash.{NorFlashInstance}
use odp_platform_radxa_orion.Driver.Start.{convert_instance}
use odp_platform_radxa_orion.Driver.Runtime.{
  Event, call, set_virtual_map, apply_events, IsUsable, SameVolume, Moves, calls, maps, stays,
  moves, fvb_read-apply_events,
}
use odp_platform_radxa_orion.Flash.{Buffer}
use odp_platform_radxa_orion.Flash.Laws.{IsErased, block_start, erased}
use odp_platform_radxa_orion.Tests.Data.{flash, contents, flash-IsNorFlash, volume, blank, text}
use odp_platform_radxa_orion.Fvb.Transfer.{fvb_read, fvb_write}
use odp_platform_radxa_orion.Fvb.Transfer.Contents.{IsRequest}
use odp_platform_radxa_orion.Fvb.Erase.{fvb_erase_blocks, check_ranges, erase_ranges, erase_range}
use odp_platform_radxa_orion.Fvb.Erase.Ranges.{Range, arguments}
use odp_platform_radxa_orion.Fvb.Volume.{write_op, erase_op, view, writes, erases}

-- The fourth block.
abbrev fourth : List Range
fourth = record { starting_lba = 3; num_of_lba = 1 } ∷ []

-- The flash behind the erasure, and behind the write.
abbrev wiped : Buffer
wiped = erased (block_start volume 0x383) 0x1000 text

small-IsRequest : IsRequest 0x1000 16 20
small-IsRequest = record {
  starts_in = omega arith;
  some_bytes = omega arith;
  at_most_block = omega arith;
  whole_at_start = λ e. omega arith;
}

fourth_erased : fvb_erase_blocks flash volume (arguments fourth) text ≡ some (success, wiped)
unfolding fvb_erase_blocks check_ranges erase_ranges erase_range
fourth_erased = refl

wiped_blank : IsErased (view contents volume wiped) 0x3010 20
wiped_blank i h = ground arith

-- The volume behind a map that moves all addresses.
abbrev moved : NorFlashInstance
moved = convert_instance (λ a. a + 0x1000) volume

abbrev written_later : Buffer
written_later = (fvb_write flash moved 3 16 20 text wiped).world

-- The block is erased in the physical map and written in the virtual map.
abbrev events : List Event
events =
    call (erase_op fourth) ∷ set_virtual_map (λ a. a + 0x1000) ∷ call (write_op 3 16 20 text) ∷ []

volume-IsUsable : IsUsable volume
volume-IsUsable = record {
  block_size = (omega arith, omega arith);
  addressable = record { last = omega arith; bytes = omega arith };
  writable = refl;
}

events-Moves : Moves flash contents volume text events moved written_later
unfolding fvb_write convert_instance
events-Moves =
    moves volume volume moved text wiped written_later _ _
      (calls volume text wiped _
        (erases text wiped fourth success (omega arith, tt) refl fourth_erased refl))
      (moves volume moved moved wiped wiped written_later _ _ (maps volume wiped (λ a. a + 0x1000))
        (moves moved moved moved wiped written_later written_later _ _
          (calls moved wiped written_later _
            (writes wiped 3 16 20 text small-IsRequest (omega arith) wiped_blank refl))
          (stays moved written_later)))

fvb_read-apply_events_example :
    IsUsable moved
    × SameVolume volume moved
    × (view contents moved written_later ≡ apply_events 0x1000 events (view contents volume text))
    × ((i : ℕ)
        → i < 20
        → (fvb_read flash moved 3 16 20 blank written_later).buffer i
          ≡ apply_events 0x1000 events (view contents volume text) (0x3010 + i))
unfolding fvb_read convert_instance
fvb_read-apply_events_example =
    fvb_read-apply_events flash contents flash-IsNorFlash volume moved text written_later events 3
      16 20 blank volume-IsUsable events-Moves small-IsRequest (omega arith) (omega arith) refl
