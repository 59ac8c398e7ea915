-- ===== src/MemoryMap/Regions.antt =====
-- The shape of the map: its size, its end, and the HOB of each descriptor.
use odp_platform_radxa_orion.Common.{
  ℕ, suc, ◌+◌, ◌≤◌, ◌<◌, ◌≡◌, ◌⊎◌, Bool, Bool-cases, true, false, ◌&&◌, Option, none, some, List,
  [], ◌∷◌, ◌++◌, refl, arith, inl, inr, ltb, if◌then◌else◌, dec_lt, sub64,
}
use odp_platform_radxa_orion.Common.Lists.{length, length-append}
use odp_platform_radxa_orion.MemoryMap.{
  RegionAttributes, device, uncached_unbuffered, write_back, Descriptor, ResourceType,
  memory_mapped_io, uncacheable, pit, ResourceAttribute, ResourceHob, MemoryType, uc, wc, wb,
  MemoryPcds, MemInfo, Built, report_dram_high_space, add_region, add_high_space, add_regions,
  end_of_table, MapOutcome, unset, faulted, set, close_table, arm_platform_get_virtual_memory_map,
}

-- MAX_VIRTUAL_MEMORY_MAP_DESCRIPTORS
abbrev pub max_descriptors : ℕ
max_descriptors = 11

-- A HOB describes a region: the same bytes, cached as the region is mapped.
abbrev CachedAs : RegionAttributes → MemoryType → Type 0
CachedAs device uc = Unit
CachedAs uncached_unbuffered wc = Unit
CachedAs write_back wb = Unit
CachedAs _ _ = ⊥

abbrev pub Describes : ResourceHob → Descriptor → Type 0
Describes hob d =
    (hob.physical_start ≡ d.physical_base)
    × (hob.resource_length ≡ d.length)
    × CachedAs d.attributes hob.memory_type
    × (d.virtual_base ≡ d.physical_base)

abbrev pub DescribeAll : List ResourceHob → List Descriptor → Type 0
DescribeAll [] [] = Unit
DescribeAll (h ∷ hs) (d ∷ ds) = Describes h d × DescribeAll hs ds
DescribeAll _ _ = ⊥

-- Seven regions, and the high space where more than 30 GB are reported.
abbrev pub region_count : MemInfo → ℕ
region_count found = if found.signed && ltb 0x7800 found.available_size then 8 else 7

-- What the call did. Without pages for its table it has set no map. It has met a fault only if the
-- shared memory has no report, or if CreateHob gave NULL for one of the regions. Else it has set the
-- descriptors of the regions with that of zeros behind them, as many as the table has room for, and
-- each region has its HOB.
abbrev pub Maps : Bool → (ℕ → Bool) → Option MemInfo → MapOutcome → Type 0
Maps false created info unset = Unit
Maps true created info faulted =
    (info ≡ none)
    ⊎ ((found : MemInfo) × (i : ℕ) × (info ≡ some found)
        × (i < region_count found)
        × (created i ≡ false))
Maps true created info (set built) =
    (regions : List Descriptor) × (built.table ≡ regions ++ (end_of_table ∷ []))
    × (length built.table ≤ max_descriptors)
    × DescribeAll built.hobs regions
    × ((found : MemInfo) × (info ≡ some found) × (length regions ≡ region_count found))
    × ((i : ℕ) → i < length built.hobs → created i ≡ true)
Maps _ _ _ _ = ⊥

-- The regions so far, or a fault in a HOB.
abbrev Progress : (ℕ → Bool) → ℕ → Option Built → Type 0
Progress created n none = (i : ℕ) × (i < n) × (created i ≡ false)
Progress created n (some built) =
    (length built.hobs ≡ n)
    × (length built.table ≡ n)
    × DescribeAll built.hobs built.table
    × ((i : ℕ) → i < n → created i ≡ true)

DescribeAll-append :
    (hs : List ResourceHob) (ds : List Descriptor) (h : ResourceHob) (d : Descriptor)
    → DescribeAll hs ds
    → Describes h d
    → DescribeAll (hs ++ h ∷ []) (ds ++ d ∷ [])
DescribeAll-append [] [] h d all one = (one, tt)
DescribeAll-append (h' ∷ hs) (d' ∷ ds) h d (first, all) one =
    (first, DescribeAll-append hs ds h d all one)
DescribeAll-append [] (d' ∷ ds) h d all one = absurd all
DescribeAll-append (h' ∷ hs) [] h d all one = absurd all

below_next :
    (created : ℕ → Bool) (n : ℕ)
    → ((i : ℕ) → i < n → created i ≡ true)
    → created n ≡ true
    → (i : ℕ) → i < suc n
    → created i ≡ true
below_next created n h e i k = elim (dec_lt i n) [
  | yes below ↦ h i below
  | no at ↦ rw (eq_of i n k at) e
]
  where
    eq_of : (i n : ℕ) → i < suc n → ¬ (i < n) → i ≡ n
    eq_of i n k at = omega arith

-- One more region, mapped onto itself and cached as its HOB tells.
add_region-Progress :
    (created : ℕ → Bool) (n base bytes : ℕ) (a : RegionAttributes) (r : ResourceType)
    (ra : List ResourceAttribute) (m : MemoryType) (built : Option Built)
    → CachedAs a m
    → Progress created n built
    → Progress created (suc n) (add_region created base bytes a r ra m built)
add_region-Progress created n base bytes a r ra m none cached (i, below, e) =
    (i, omega (arith, below), e)
add_region-Progress created n base bytes a r ra m (some built) cached (hs, ts, all, before) =
    elim (Bool-cases (created (length built.hobs))) [
      | inl e ↦ rw e (
        rw length-append (omega (arith, hs)),
        rw length-append (omega (arith, ts)),
        DescribeAll-append built.hobs built.table _ _ all (refl, refl, cached, refl),
        below_next created n before (rw hs at e),
      )
      | inr e ↦ rw e (n, omega arith, rw hs at e)
    ]

no_report :
    (created : ℕ → Bool) (pcds : MemoryPcds) (memory_end : ℕ)
    → add_regions created pcds memory_end none ≡ none
unfolding add_regions report_dram_high_space
no_report created pcds memory_end = refl

-- The regions that the shared memory's report leaves.
add_high_space-Progress :
    (created : ℕ → Bool) (pcds : MemoryPcds) (found : MemInfo) (built : Option Built)
    → Progress created 7 built
    → Progress created
        (region_count found)
        (add_high_space created pcds (report_dram_high_space (some found)) built)
unfolding report_dram_high_space
add_high_space-Progress created pcds found built so = elim (Bool-cases found.signed) [
  | inl s ↦ elim (Bool-cases (ltb 0x7800 found.available_size)) [
    | inl big ↦ rw (s, big) (add_region-Progress created 7 _ _ _ _ _ _ built tt so)
    | inr small ↦ rw (s, small) so
  ]
  | inr s ↦ rw s so
]

nothing_yet : (created : ℕ → Bool) → Progress created 0 (some (record { table = []; hobs = [] }))
nothing_yet created = (refl, refl, tt, λ i h. absurd (omega (arith, h)))

add_regions-Progress :
    (created : ℕ → Bool) (pcds : MemoryPcds) (memory_end : ℕ) (found : MemInfo)
    → Progress created (region_count found) (add_regions created pcds memory_end (some found))
unfolding add_regions
add_regions-Progress created pcds memory_end found = add_high_space-Progress created pcds found _ (
    add_region-Progress created 6 _ _ _ _ _ _ _ tt (
      add_region-Progress created 5 _ _ _ _ _ _ _ tt (
        add_region-Progress created 4 _ _ _ _ _ _ _ tt (
          add_region-Progress created 3 _ _ _ _ _ _ _ tt (
            add_region-Progress created 2 _ _ _ _ _ _ _ tt (
              add_region-Progress created 1 _ _ _ _ _ _ _ tt (
                add_region-Progress created 0 0x1000 (sub64 pcds.system_memory_base 0x1000) device
                  memory_mapped_io (pit ++ (uncacheable ∷ [])) uc
                  (some (record { table = []; hobs = [] })) tt (nothing_yet created))))))))

close_table-Maps :
    (created : ℕ → Bool) (found : MemInfo) (built : Option Built)
    → Progress created (region_count found) built
    → Maps true created (some found) (close_table built)
close_table-Maps created found none (i, below, e) = inr (found, i, refl, below, e)
close_table-Maps created found (some built) (hs, ts, all, before) = (
  built.table,
  refl,
  rw (length-append, ts) (few (found.signed && ltb 0x7800 found.available_size)),
  all,
  (found, refl, ts),
  λ i h. before i (rw hs at h),
)
  where
    few : (b : Bool) → (if b then 8 else 7) + 1 ≤ max_descriptors
    few true = omega arith
    few false = omega arith

-- Whatever AllocatePages, CreateHob and SmemGetAddr give, ArmPlatformGetVirtualMemoryMap without
-- pages for its table sets no map. With pages it runs into a fault only if SmemGetAddr gives NULL
-- or CreateHob gives NULL for one of the regions, and else sets the regions followed by the
-- descriptor of zeros, which together are at most the 11 descriptors that the table has room for;
-- then each call of CreateHob gave a HOB and SmemGetAddr a report, the regions are seven, and an
-- eighth where more than 30 GB are reported, each region is mapped onto itself, and the HOBs are
-- one for each region, in order, with its bytes and its way of caching.
pub get_virtual_memory_map_shape :
    (allocated : Bool) (created : ℕ → Bool) (pcds : MemoryPcds) (memory_end : ℕ)
    (info : Option MemInfo)
    → Maps allocated created info
        (arm_platform_get_virtual_memory_map allocated created pcds memory_end info)
unfolding arm_platform_get_virtual_memory_map
get_virtual_memory_map_shape false created pcds memory_end info = tt
get_virtual_memory_map_shape true created pcds memory_end none =
    rw (no_report created pcds memory_end) (inl refl)
get_virtual_memory_map_shape true created pcds memory_end (some found) =
    close_table-Maps created found _ (add_regions-Progress created pcds memory_end found)
