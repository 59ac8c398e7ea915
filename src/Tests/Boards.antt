-- ===== src/Tests/Boards.antt =====
-- The memory map, the cores and the counters of the board.
use odp_platform_radxa_orion.Common.{ℕ, Bool, ltb, ◌≡◌, true, some, [], ◌∷◌, arith}
use odp_platform_radxa_orion.Common.Lists.{All}
use odp_platform_radxa_orion.Common.Bits.{bit}
use odp_platform_radxa_orion.Efi.{success}
use odp_platform_radxa_orion.Platform.Position.{zero_digits, core_positions}
use odp_platform_radxa_orion.Platform.{
  arm_platform_get_core_position, arm_platform_get_platform_ppi_list,
}
use odp_platform_radxa_orion.Common.{refl, map}
use odp_platform_radxa_orion.Platform.{set_pmu_counter}
use odp_platform_radxa_orion.Platform.Pmu.{set_pmu_counter_bits}
use odp_platform_radxa_orion.MemoryMap.{
  MemoryPcds, MemInfo, add_regions, arm_platform_get_virtual_memory_map,
}
use odp_platform_radxa_orion.MemoryMap.Regions.{Maps, get_virtual_memory_map_shape}
use odp_platform_radxa_orion.MemoryMap.Order.{IsMemoryLayout, Ordered, Tabled, add_regions-Ordered}

-- The board's PCDs; the base of the high space stands behind its 16 GB.
abbrev board : MemoryPcds
board = record {
  system_memory_base = 0x80000000;
  secure_memory_base = 0x80000000;
  secure_memory_size = 0x02500000;
  share_memory_base = 0x82500000;
  share_memory_size = 0x01F00000;
  fd_base = 0x84400000;
  fd_size = 0x200000;
  frame_buffer_base = 0x84800000;
  frame_buffer_size = 0x800000;
  dram_high_space_base = 0x500000000;
}

-- 32 GB.
abbrev large : MemInfo
large = record { signed = true; available_size = 0x8000 }

board-IsMemoryLayout : IsMemoryLayout board 0x47FFFFFFF large
board-IsMemoryLayout = record {
  low_io = omega arith;
  system_secure = omega arith;
  secure = omega arith;
  secure_share = omega arith;
  share = omega arith;
  share_fd = omega arith;
  fd = omega arith;
  fd_frame_buffer = omega arith;
  frame_buffer = omega arith;
  frame_buffer_ram = omega arith;
  ram_high = omega arith;
  high_end = omega arith;
}

-- CreateHob gives the HOBs of the first regions, and then no more.
abbrev five_hobs : ℕ → Bool
five_hobs n = ltb n 5

get_virtual_memory_map_shape_example :
    Maps true
      (λ n. true)
      (some large)
      (arm_platform_get_virtual_memory_map true (λ n. true) board 0x47FFFFFFF (some large))
    × Maps true five_hobs
        (some large)
        (arm_platform_get_virtual_memory_map true five_hobs board 0x47FFFFFFF (some large))
get_virtual_memory_map_shape_example = (
  get_virtual_memory_map_shape true (λ n. true) board 0x47FFFFFFF (some large),
  get_virtual_memory_map_shape true five_hobs board 0x47FFFFFFF (some large),
)

add_regions-Ordered_example :
    Tabled (Ordered 0x1000) (add_regions (λ n. true) board 0x47FFFFFFF (some large))
add_regions-Ordered_example =
    add_regions-Ordered (λ n. true) (λ n h. refl) board 0x47FFFFFFF large board-IsMemoryLayout

set_pmu_counter_bits_example : bit (set_pmu_counter 6 0xFF).1 7 ≡ 1
unfolding bit
set_pmu_counter_bits_example = set_pmu_counter_bits 6 0xFF 7 (omega arith) (omega arith)

core_positions_example :
    let (ppi_list_size, ppi_list) = arm_platform_get_platform_ppi_list 7 in
    (ppi_list_size ≡ 24)
    × All (λ d. (d.guid ≡ 7) × (d.ppi true 0xFFA ≡ (success, 2, some (0 ∷ 0x200 ∷ [])))) ppi_list
    × (map (arm_platform_get_core_position 0xFF00) (0 ∷ 0x200 ∷ []) ≡ 0 ∷ 2 ∷ [])
unfolding zero_digits bit
core_positions_example = core_positions true 0xFFA 0xFF00 7 refl
