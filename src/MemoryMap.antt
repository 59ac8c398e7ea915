-- ===== src/MemoryMap.antt =====
-- ArmPlatformLibMem.c: the virtual memory map and the resource descriptor HOBs.
pub mod Regions
pub mod Order
use odp_platform_radxa_orion.Common.{
  ℕ, ◌+◌, ◌-◌, ◌*◌, ◌%◌, ◌^◌, Bool, true, false, Option, none, some, List, [], ◌∷◌, ◌++◌, ltb,
  if◌then◌else◌, add64, sub64, u64,
}
use odp_platform_radxa_orion.Common.Lists.{length as count}

-- ARM_MEMORY_REGION_ATTRIBUTES; the last descriptor has 0
pub data RegionAttributes : Type 0 where
  zero_attributes device uncached_unbuffered write_back : RegionAttributes

-- ARM_MEMORY_REGION_DESCRIPTOR
pub record Descriptor : Type 0 where
  pub physical_base : ℕ
  pub virtual_base : ℕ
  pub length : ℕ
  pub attributes : RegionAttributes

-- EFI_RESOURCE_MEMORY_MAPPED_IO, EFI_RESOURCE_SYSTEM_MEMORY and EFI_RESOURCE_MEMORY_RESERVED
pub data ResourceType : Type 0 where
  memory_mapped_io system_memory memory_reserved : ResourceType

-- The flags of EFI_RESOURCE_ATTRIBUTE_TYPE. A value is the list of those that are set.
pub data ResourceAttribute : Type 0 where
  present initialized tested uncacheable write_combineable write_back_cacheable : ResourceAttribute

-- EFI_MEMORY_UC, EFI_MEMORY_WC and EFI_MEMORY_WB
pub data MemoryType : Type 0 where
  uc wc wb : MemoryType

-- EFI_HOB_RESOURCE_DESCRIPTOR_V2, as BuildResourceDescriptorHob_V2 fills it
pub record ResourceHob : Type 0 where
  pub resource_type : ResourceType
  pub resource_attribute : List ResourceAttribute
  pub physical_start : ℕ
  pub resource_length : ℕ
  pub memory_type : MemoryType

-- The PCDs that place the regions.
pub record MemoryPcds : Type 0 where
  pub system_memory_base : ℕ
  pub secure_memory_base : ℕ
  pub secure_memory_size : ℕ
  pub share_memory_base : ℕ
  pub share_memory_size : ℕ
  pub fd_base : ℕ
  pub fd_size : ℕ
  pub frame_buffer_base : ℕ
  pub frame_buffer_size : ℕ
  pub dram_high_space_base : ℕ

-- What the shared memory reports of the memory's initialization.
pub record MemInfo : Type 0 where
  pub signed : Bool
  pub available_size : ℕ

-- The table and the HOBs that were built so far, in order.
pub record Built : Type 0 where
  pub table : List Descriptor
  pub hobs : List ResourceHob

-- The result, and *DramHighSize. SmemGetAddr gives the shared memory's report, `none` for NULL,
-- which is read all the same: `none` is that fault.
pub report_dram_high_space : Option MemInfo → Option (Bool × ℕ)
report_dram_high_space none = none
report_dram_high_space (some info) = some (
    if info.signed
    then (if ltb 0x7800 info.available_size
        then (true, (info.available_size - 0x7800) * 2 ^ 20 % u64)
        else (false, 0))
    else (false, 0))

abbrev pub pit : List ResourceAttribute
pit = present ∷ initialized ∷ tested ∷ []

-- BuildResourceDescriptorHob_V2, with the result of CreateHob, which is not tested in a release
-- build: `none` is the write through NULL.
abbrev pub build_resource_descriptor_hob :
    Bool
    → ResourceType
    → List ResourceAttribute
    → ℕ
    → ℕ
    → MemoryType
    → List ResourceHob
    → Option (List ResourceHob)
build_resource_descriptor_hob false resource_type resource_attribute start bytes memory_type hobs =
    none
build_resource_descriptor_hob true resource_type resource_attribute start bytes memory_type hobs =
    some (
      hobs
      ++ (record {
        resource_type = resource_type;
        resource_attribute = resource_attribute;
        physical_start = start;
        resource_length = bytes;
        memory_type = memory_type;
      }
          ∷ []))

-- The table gets an entry behind those of `table`, with VirtualBase as PhysicalBase.
abbrev pub mapped_onto_itself : ℕ → ℕ → RegionAttributes → Descriptor
mapped_onto_itself base length attributes = record {
  physical_base = base;
  virtual_base = base;
  length = length;
  attributes = attributes;
}

abbrev pub with_hobs : List Descriptor → Option (List ResourceHob) → Option Built
with_hobs table none = none
with_hobs table (some hobs) = some (record { table = table; hobs = hobs })

module _ (created : ℕ → Bool) where
  -- One step: the next descriptor of the table and its HOB. `created` tells of each call of
  -- CreateHob, from the first on, whether it gives a HOB.
  abbrev pub add_region :
      ℕ
      → ℕ
      → RegionAttributes
      → ResourceType
      → List ResourceAttribute
      → MemoryType
      → Option Built
      → Option Built
  add_region base length attributes resource_type resource_attribute memory_type none = none
  add_region base length attributes resource_type resource_attribute memory_type (some built) =
      with_hobs (built.table ++ (mapped_onto_itself base length attributes ∷ [])) (
        build_resource_descriptor_hob (created (count built.hobs)) resource_type resource_attribute
          base length memory_type built.hobs)

  -- The region of the high space, where it is reported.
  abbrev pub add_high_space : MemoryPcds → Option (Bool × ℕ) → Option Built → Option Built
  add_high_space pcds none built = none
  add_high_space pcds (some (false, dram_high_size)) built = built
  add_high_space pcds (some (true, dram_high_size)) built =
      add_region pcds.dram_high_space_base dram_high_size write_back system_memory
        (pit ++ (write_combineable ∷ write_back_cacheable ∷ [])) wb built

  -- The regions, before the end of the table. `memory_end` is mSystemMemoryEnd. The attributes of
  -- the upper MMIO region name INITIALIZED beside PIT, which has it already.
  pub add_regions : MemoryPcds → ℕ → Option MemInfo → Option Built
  add_regions pcds memory_end info =
      let empty : Option Built = some (record { table = []; hobs = [] }) in
      let low_io =
        add_region 0x1000 (sub64 pcds.system_memory_base 0x1000) device memory_mapped_io
          (pit ++ (uncacheable ∷ [])) uc empty in
      let secure =
        add_region pcds.secure_memory_base pcds.secure_memory_size uncached_unbuffered system_memory
          (pit ++ (write_combineable ∷ [])) wc low_io in
      let share =
        add_region pcds.share_memory_base pcds.share_memory_size uncached_unbuffered system_memory
          (pit ++ (write_combineable ∷ [])) wc secure in
      let fd =
        add_region pcds.fd_base pcds.fd_size write_back system_memory
          (pit ++ (write_combineable ∷ write_back_cacheable ∷ [])) wb share in
      let frame_buffer =
        add_region pcds.frame_buffer_base pcds.frame_buffer_size uncached_unbuffered memory_reserved
          (pit ++ (write_combineable ∷ [])) wc fd in
      let ram_base = add64 pcds.frame_buffer_base pcds.frame_buffer_size in
      let ram =
        add_region ram_base (sub64 (add64 memory_end 1) ram_base) write_back system_memory
          (pit ++ (write_combineable ∷ write_back_cacheable ∷ [])) wb frame_buffer in
      let high_io_base = add64 memory_end 1 in
      let high_io =
        add_region high_io_base (sub64 pcds.dram_high_space_base high_io_base) device
          memory_mapped_io (pit ++ (uncacheable ∷ [])) uc ram in
      add_high_space pcds (report_dram_high_space info) high_io

abbrev pub end_of_table : Descriptor
end_of_table = record {
  physical_base = 0;
  virtual_base = 0;
  length = 0;
  attributes = zero_attributes;
}

-- What a call does: without pages for the table it sets no map; it sets the map that it built; or
-- it runs into a fault on the way.
pub data MapOutcome : Type 0 where
  unset faulted : MapOutcome
  set : Built → MapOutcome

abbrev pub close_table : Option Built → MapOutcome
close_table none = faulted
close_table (some built) =
    set (record { table = built.table ++ (end_of_table ∷ []); hobs = built.hobs })

pub arm_platform_get_virtual_memory_map :
    Bool → (ℕ → Bool) → MemoryPcds → ℕ → Option MemInfo → MapOutcome
arm_platform_get_virtual_memory_map allocated created pcds memory_end info =
    let built = add_regions created pcds memory_end info in
    if allocated then close_table built else unset
