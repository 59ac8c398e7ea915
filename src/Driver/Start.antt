-- ===== src/Driver/Start.antt =====
-- NorFlashInitialise, the entry point of the driver, its notify function for the memory space,
-- and the two notify functions for the virtual address map.
use odp_platform_radxa_orion.Common.{
  ℕ, not, ◌==◌, Bool, true, ◌+◌, ◌*◌, true, Option, none, some, List, [], ◌∷◌, if◌then◌else◌,
}
use odp_platform_radxa_orion.Common.Lists.{length}
use odp_platform_radxa_orion.Efi.{Status, efi_error}
use odp_platform_radxa_orion.Flash.{NorFlashInstance, NorFlashLib}
use odp_platform_radxa_orion.Fvb.Header.Environment.{Pcds, Guids, BaseLib, PoolLib}
use odp_platform_radxa_orion.Driver.Services.{Services, nor_flash_virtual_notify}
use odp_platform_radxa_orion.Driver.Template.{Addresses, RegionDescription}
use odp_platform_radxa_orion.Driver.Create.{Creation, nor_flash_create_instance}

-- The array that mNorFlashInstances points to, whose entries AllocateRuntimePool does not
-- initialize: `none` is an entry that nothing was stored in.
abbrev pub Instances : Type 0
Instances = List (Option NorFlashInstance)

-- The driver's globals and the world.
pub record DriverState (W : Type 0) : Type 0 where
  pub instances : Instances
  pub nv_storage_variable_base : ℕ
  pub world : W

-- FlashMemoryInitEventNotify, on the device of its context.
unfoldable pub flash_memory_init_event_notify :
    {W : Type 0} → Services W → RegionDescription → W → W
flash_memory_init_event_notify services device w =
    let (status, w1) =
      services.set_memory_space_attributes device.device_base_address device.device_size w in
    if efi_error status
    then services.remove_memory_space device.device_base_address device.device_size w1
    else w1

module _ {W : Type 0} (lib : NorFlashLib W) (pool : PoolLib W) (base : BaseLib) (guids : Guids)
    (pcds : Pcds) (services : Services W) (addresses : Addresses) where
  -- The entry of a device, in front of those of the devices behind it.
  abbrev pub prepend : Option NorFlashInstance → Option (DriverState W) → Option (DriverState W)
  prepend entry none = none
  prepend entry (some state) = some (record state { instances = entry ∷ state.instances })

  -- A store to an entry of the array. Without an array it is a store to an address near NULL.
  abbrev pub store_entry :
      Option ℕ → Option NorFlashInstance → Option (DriverState W) → Option (DriverState W)
  store_entry none (some inst) later = none
  store_entry none none later = prepend none later
  store_entry (some array) entry later = prepend entry later

  -- The devices behind a device that was created, or not.
  unfoldable pub keep :
      Option ℕ → (ℕ → W → Option (DriverState W)) → Option (Creation W) → Option (DriverState W)
  keep array later none = none
  keep array later (some c) = store_entry array c.stored (later c.nv_storage_variable_base c.world)

  -- Whether the address of an entry is not NULL: AllocateRuntimePool is not tested, and the first
  -- entry of an array at NULL has the address NULL.
  abbrev pub entry_given : Option ℕ → ℕ → Bool
  entry_given none index = not (index == 0)
  entry_given (some array) index = true

  -- The loop over the devices, from an index on. A device that fails is logged and passed over.
  unfoldable pub create_instances :
      Option ℕ → List RegionDescription → ℕ → ℕ → W → Option (DriverState W)
  unfolding keep
  create_instances array [] index nv_base w =
      some (record { instances = []; nv_storage_variable_base = nv_base; world = w })
  create_instances array (device ∷ devices) index nv_base w =
      let w1 = services.create_protocol_notify_event index w in
      keep array (create_instances array devices (index + 1)) (
        nor_flash_create_instance lib pool base guids pcds services addresses
          (entry_given array index) device.device_base_address device.region_base_address
          device.device_size index device.block_size nv_base w1)

  -- What NorFlashInitialise returns: the status of its last call, and the driver's state if its
  -- loop was reached. `none` is a fault on the way.
  abbrev pub register : Option (DriverState W) → Option (Status × Option (DriverState W) × W)
  register none = none
  register (some state) =
      let (status, w) = services.create_event_ex nor_flash_virtual_notify state.world in
      some (status, some (record state { world = w }), w)

  unfoldable pub nor_flash_initialise :
      List RegionDescription → ℕ → W → Option (Status × Option (DriverState W) × W)
  nor_flash_initialise devices nv_base w =
      let (status, w1) = services.nor_flash_platform_initialization w in
      if efi_error status
      then some (status, none, w1)
      else (let (array, w2) = services.allocate_runtime_pool (8 * length devices) w1 in
          register (create_instances array devices 0 nv_base w2))

-- EfiConvertPointer gives the address in the virtual map.
module _ (convert : ℕ → ℕ) where
  -- One round of the loop of NorFlashVirtualNotifyEvent, in the map that the operating system sets:
  -- the instance has another address in it. BlockIoProtocol.Media is not converted.
  unfoldable pub convert_instance : NorFlashInstance → NorFlashInstance
  convert_instance inst = record inst {
    media_address = convert inst.media_address;
    device_base_address = convert inst.device_base_address;
    region_base_address = convert inst.region_base_address;
    block_io_protocol = record inst.block_io_protocol {
      flush_blocks = convert inst.block_io_protocol.flush_blocks;
      read_blocks = convert inst.block_io_protocol.read_blocks;
      reset = convert inst.block_io_protocol.reset;
      write_blocks = convert inst.block_io_protocol.write_blocks;
    };
    disk_io_protocol = record {
      read_disk = convert inst.disk_io_protocol.read_disk;
      write_disk = convert inst.disk_io_protocol.write_disk;
    };
    fvb_protocol = record {
      erase_blocks = convert inst.fvb_protocol.erase_blocks;
      get_attributes = convert inst.fvb_protocol.get_attributes;
      get_block_size = convert inst.fvb_protocol.get_block_size;
      get_physical_address = convert inst.fvb_protocol.get_physical_address;
      read = convert inst.fvb_protocol.read;
      set_attributes = convert inst.fvb_protocol.set_attributes;
      write = convert inst.fvb_protocol.write;
    };
    shadow_buffer = elim inst.shadow_buffer [ none ↦ none | some shadow ↦ some (convert shadow) ];
  }

  -- NorFlashVirtualNotifyEvent over the array: `none` is the use of an entry that was not stored.
  unfoldable pub nor_flash_virtual_notify_event : Instances → Option (List NorFlashInstance)
  nor_flash_virtual_notify_event [] = some []
  nor_flash_virtual_notify_event (none ∷ entries) = none
  nor_flash_virtual_notify_event (some inst ∷ entries) =
      elim (nor_flash_virtual_notify_event entries) [
        | none ↦ none
        | some rest ↦ some (convert_instance inst ∷ rest)
      ]

  -- FvbVirtualNotifyEvent of NorFlashFvb.c, on mFlashNvStorageVariableBase.
  unfoldable pub fvb_virtual_notify_event : ℕ → ℕ
  fvb_virtual_notify_event nv_storage_variable_base = convert nv_storage_variable_base
