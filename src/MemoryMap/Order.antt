-- ===== src/MemoryMap/Order.antt =====
-- The order of the regions of the map of ArmPlatformLibMem.c.
use native.Mathlib.Nat.{mod-eq_of_lt}
use odp_platform_radxa_orion.Common.{
  ℕ, ◌+◌, ◌-◌, ◌*◌, ◌^◌, ◌≤◌, ◌<◌, ◌≡◌, ◌⊎◌, Bool-cases, Bool, true, false, refl, Option, none,
  some, ltb, ltb→lt, List, [], ◌∷◌, add64, sub64, u64, arith, inl, inr,
}
use odp_platform_radxa_orion.MemoryMap.{
  Descriptor, Built, MemoryPcds, MemInfo, report_dram_high_space, add_regions,
}

-- The high space that is reported: it is counted in MB, less the 30 GB of the lower space.
abbrev pub high_size : MemInfo → ℕ
high_size info = (info.available_size - 0x7800) * 2 ^ 20

-- The regions of the PCDs are not empty and stand in this order, and the addresses have 64 bits.
pub record IsMemoryLayout (pcds : MemoryPcds) (memory_end : ℕ) (info : MemInfo) : Type 0 where
  pub low_io : 0x1000 < pcds.system_memory_base
  pub system_secure : pcds.system_memory_base ≤ pcds.secure_memory_base
  pub secure : 0 < pcds.secure_memory_size
  pub secure_share : pcds.secure_memory_base + pcds.secure_memory_size ≤ pcds.share_memory_base
  pub share : 0 < pcds.share_memory_size
  pub share_fd : pcds.share_memory_base + pcds.share_memory_size ≤ pcds.fd_base
  pub fd : 0 < pcds.fd_size
  pub fd_frame_buffer : pcds.fd_base + pcds.fd_size ≤ pcds.frame_buffer_base
  pub frame_buffer : 0 < pcds.frame_buffer_size
  pub frame_buffer_ram : pcds.frame_buffer_base + pcds.frame_buffer_size ≤ memory_end
  pub ram_high : memory_end + 1 < pcds.dram_high_space_base
  pub high_end : pcds.dram_high_space_base + high_size info < u64

-- From `start` on: regions that are not empty, each behind the one before, within 64 bits.
abbrev pub Ordered : ℕ → List Descriptor → Type 0
Ordered start [] = start < u64
Ordered start (d ∷ ds) =
    (start ≤ d.physical_base) × (0 < d.length) × Ordered (d.physical_base + d.length) ds

add64_exact : (a b : ℕ) → a + b < u64 → add64 a b ≡ a + b
add64_exact a b h = mod-eq_of_lt h

sub64_exact : (a b : ℕ) → b ≤ a → a < u64 → sub64 a b ≡ a - b
sub64_exact a b h k = omega arith

-- The high space is reported with its size, or not.
report_found :
    (info : MemInfo)
    → high_size info < u64
    → ((report_dram_high_space (some info) ≡ some (true, high_size info)) × (0 < high_size info))
      ⊎ (report_dram_high_space (some info) ≡ some (false, 0))
unfolding report_dram_high_space
report_found info k = elim (Bool-cases info.signed) [
  | inl s ↦ elim (Bool-cases (ltb 0x7800 info.available_size)) [
    | inl big ↦ inl (rw (s, big, mod-eq_of_lt k) refl, omega (arith, ltb→lt _ _ big))
    | inr small ↦ inr (rw (s, small) refl)
  ]
  | inr s ↦ inr (rw s refl)
]

-- The address lies in none of the regions.
abbrev pub Unmapped : ℕ → List Descriptor → Type 0
Unmapped x [] = Unit
Unmapped x (d ∷ ds) = ((x < d.physical_base) ⊎ (d.physical_base + d.length ≤ x)) × Unmapped x ds

-- The regions were added without a fault, and their table has a property.
abbrev pub Tabled : (List Descriptor → Type 0) → Option Built → Type 0
Tabled P none = ⊥
Tabled P (some built) = P built.table

module _ (created : ℕ → Bool) (created_all : (n : ℕ) → n < 8 → created n ≡ true) (pcds : MemoryPcds)
    (memory_end : ℕ) (info : MemInfo) (layout : IsMemoryLayout pcds memory_end info) where
  open layout use {
    low_io, system_secure, secure, secure_share, share, share_fd, fd, fd_frame_buffer, frame_buffer,
    frame_buffer_ram, ram_high, high_end,
  }

  ram_base_exact :
      add64 pcds.frame_buffer_base pcds.frame_buffer_size
      ≡ pcds.frame_buffer_base + pcds.frame_buffer_size
  ram_base_exact = add64_exact _ _ (omega arith)

  high_io_base_exact : add64 memory_end 1 ≡ memory_end + 1
  high_io_base_exact = add64_exact _ _ (omega arith)

  low_io_exact : sub64 pcds.system_memory_base 0x1000 ≡ pcds.system_memory_base - 0x1000
  low_io_exact = sub64_exact _ _ (omega arith) (omega arith)

  ram_exact :
      sub64 (memory_end + 1) (pcds.frame_buffer_base + pcds.frame_buffer_size)
      ≡ memory_end + 1 - (pcds.frame_buffer_base + pcds.frame_buffer_size)
  ram_exact = sub64_exact _ _ (omega arith) (omega arith)

  high_io_exact :
      sub64 pcds.dram_high_space_base (memory_end + 1)
      ≡ pcds.dram_high_space_base - (memory_end + 1)
  high_io_exact = sub64_exact _ _ (omega arith) (omega arith)

  -- If the regions of the PCDs are not empty and stand one behind the other within 64-bit
  -- addresses, SmemGetAddr gives the memory's report and CreateHob gives eight HOBs, the regions
  -- of the map are added without a fault, are not empty, stand in order without overlap from
  -- 0x1000 on, and end within 64-bit addresses.
  pub add_regions-Ordered :
      Tabled (Ordered 0x1000) (add_regions created pcds memory_end (some info))
  unfolding add_regions
  add_regions-Ordered =
      rw
        (
          created_all 0 (omega arith),
          created_all 1 (omega arith),
          created_all 2 (omega arith),
          created_all 3 (omega arith),
          created_all 4 (omega arith),
          created_all 5 (omega arith),
          created_all 6 (omega arith),
          ram_base_exact,
          high_io_base_exact,
          low_io_exact,
          ram_exact,
          high_io_exact,
        )
        (elim (report_found info (omega arith)) [
          | inl (e, some_bytes) ↦ rw (e, created_all 7 (omega arith)) (omega arith)
          | inr e ↦ rw e (omega arith)
        ])

  -- x
  pub gap-Unmapped :
      (x : ℕ)
      → pcds.fd_base + pcds.fd_size ≤ x
      → x < pcds.frame_buffer_base
      → Tabled (Unmapped x) (add_regions created pcds memory_end (some info))
  unfolding add_regions
  gap-Unmapped x h k =
      rw
        (
          created_all 0 (omega arith),
          created_all 1 (omega arith),
          created_all 2 (omega arith),
          created_all 3 (omega arith),
          created_all 4 (omega arith),
          created_all 5 (omega arith),
          created_all 6 (omega arith),
          ram_base_exact,
          high_io_base_exact,
          low_io_exact,
          ram_exact,
          high_io_exact,
        )
        (elim (report_found info (omega arith)) [
          | inl (e, some_bytes) ↦ rw (e, created_all 7 (omega arith)) (omega arith)
          | inr e ↦ rw e (omega arith)
        ])
