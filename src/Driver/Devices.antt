-- ===== src/Driver/Devices.antt =====
-- The array that NorFlashInitialise fills, over the table of the devices.
use odp_platform_radxa_orion.Common.{
  ℕ, ◌+◌, ◌*◌, ◌⊎◌, ◌<◌, ◌/◌, ◌≡◌, refl, true, Bool-cases, Option, none, some, List, [], ◌∷◌, inl,
  inr,
}
use odp_platform_radxa_orion.Common.Lists.{length, All}
use odp_platform_radxa_orion.Efi.{Status, efi_error}
use odp_platform_radxa_orion.Flash.{NorFlashInstance, NorFlashLib}
use odp_platform_radxa_orion.Fvb.Header.Environment.{Pcds, Guids, BaseLib, PoolLib}
use odp_platform_radxa_orion.Driver.Services.{Services}
use odp_platform_radxa_orion.Driver.Template.{Addresses, RegionDescription}
use odp_platform_radxa_orion.Driver.Create.{Creation}
use odp_platform_radxa_orion.Driver.Geometry.{Fits}
use odp_platform_radxa_orion.Driver.Created.{
  IsInstance, Stored, HeaderFault, Outcome, nor_flash_create_instance-Outcome,
}
use odp_platform_radxa_orion.Driver.Start.{
  Instances, DriverState, create_instances, keep, prepend, store_entry, register,
  nor_flash_initialise,
}

-- The variable store fits the device, which has a block at least.
abbrev pub IsDevice : Pcds → RegionDescription → Type 0
IsDevice pcds device =
    (0 < device.device_size / device.block_size)
    × Fits pcds device.device_base_address device.device_size device.block_size

-- An entry that was stored is an instance of its device.
abbrev pub EntryFor : RegionDescription → ℕ → Option NorFlashInstance → Type 0
EntryFor device index none = Unit
EntryFor device index (some inst) =
    IsInstance device.device_base_address device.device_size index device.block_size inst

-- One entry for each device, in order, from an index on.
abbrev pub EntriesFor : List RegionDescription → ℕ → Instances → Type 0
EntriesFor [] index [] = Unit
EntriesFor (device ∷ devices) index (entry ∷ entries) =
    EntryFor device index entry × EntriesFor devices (index + 1) entries
EntriesFor _ _ _ = ⊥

pub Stored-EntryFor :
    {W : Type 0} (device : RegionDescription) (index : ℕ) (c : Creation W)
    → Stored device.device_base_address device.device_size index device.block_size c
    → EntryFor device index c.stored
Stored-EntryFor device index c (inl (bad, nothing)) = rw nothing tt
Stored-EntryFor device index c (inr (fine, inst, stored, good, nv)) = rw stored good

module _ {W : Type 0} (lib : NorFlashLib W) (pool : PoolLib W) (base : BaseLib) (guids : Guids)
    (pcds : Pcds) where
  -- The faults that the loop can meet: a store through an array that was not allocated, and the
  -- overlong header of an instance.
  abbrev pub LoopFault : Option ℕ → Type 0
  LoopFault array =
      (array ≡ none) ⊎ ((inst : NorFlashInstance) × HeaderFault lib pool base guids pcds inst)

  abbrev LoopOutcome : Option ℕ → List RegionDescription → ℕ → Option (DriverState W) → Type 0
  LoopOutcome array devices index none = LoopFault array
  LoopOutcome array devices index (some state) = EntriesFor devices index state.instances

  -- What became of the initialization: a fault, an error before the loop, or the array.
  abbrev pub Initialised :
      Option ℕ → List RegionDescription → Option (Status × Option (DriverState W) × W) → Type 0
  Initialised array devices none = LoopFault array
  Initialised array devices (some (status, none, w)) = efi_error status ≡ true
  Initialised array devices (some (status, some state, w)) = EntriesFor devices 0 state.instances

module _ {W : Type 0} (lib : NorFlashLib W) (pool : PoolLib W) (base : BaseLib) (guids : Guids)
    (pcds : Pcds) (services : Services W) (addresses : Addresses) where
  prepend-LoopOutcome :
      (array : Option ℕ) (device : RegionDescription) (devices : List RegionDescription) (index : ℕ)
      (entry : Option NorFlashInstance) (later : Option (DriverState W))
      → EntryFor device index entry
      → LoopOutcome lib pool base guids pcds array devices (index + 1) later
      → LoopOutcome lib pool base guids pcds array
          (device ∷ devices)
          index
          (prepend lib pool base guids pcds services addresses entry later)
  prepend-LoopOutcome array device devices index entry none first rest = rest
  prepend-LoopOutcome array device devices index entry (some state) first rest = (first, rest)

  store_entry-LoopOutcome :
      (array : Option ℕ) (device : RegionDescription) (devices : List RegionDescription) (index : ℕ)
      (entry : Option NorFlashInstance) (later : Option (DriverState W))
      → EntryFor device index entry
      → LoopOutcome lib pool base guids pcds array devices (index + 1) later
      → LoopOutcome lib pool base guids pcds array
          (device ∷ devices)
          index
          (store_entry lib pool base guids pcds services addresses array entry later)
  store_entry-LoopOutcome none device devices index none later first rest =
      prepend-LoopOutcome none device devices index none later first rest
  store_entry-LoopOutcome none device devices index (some inst) later first rest = inl refl
  store_entry-LoopOutcome (some array) device devices index entry later first rest =
      prepend-LoopOutcome (some array) device devices index entry later first rest

  keep-LoopOutcome :
      (array : Option ℕ) (device : RegionDescription) (devices : List RegionDescription) (index : ℕ)
      (later : ℕ → W → Option (DriverState W)) (created : Option (Creation W))
      → Outcome lib pool base guids pcds device.device_base_address device.device_size index
          device.block_size created
      → ((nv : ℕ) (w : W)
          → LoopOutcome lib pool base guids pcds array devices (index + 1) (later nv w))
      → LoopOutcome lib pool base guids pcds array
          (device ∷ devices)
          index
          (keep lib pool base guids pcds services addresses array later created)
  unfolding keep
  keep-LoopOutcome array device devices index later none (inst, good, fault) rest =
      inr (inst, fault)
  keep-LoopOutcome array device devices index later (some c) stored rest =
      store_entry-LoopOutcome array device devices index c.stored _
        (Stored-EntryFor device index c stored) (rest c.nv_storage_variable_base c.world)

  create_instances-LoopOutcome :
      (array : Option ℕ) (devices : List RegionDescription) (index nv_base : ℕ) (w : W)
      → All (IsDevice pcds) devices
      → LoopOutcome lib pool base guids pcds array devices index (
          create_instances lib pool base guids pcds services addresses array devices index nv_base
            w)
  unfolding create_instances
  create_instances-LoopOutcome array [] index nv_base w fits = tt
  create_instances-LoopOutcome array (device ∷ devices) index nv_base w fits =
      keep-LoopOutcome array device devices index _ _
        (nor_flash_create_instance-Outcome lib pool base guids pcds services addresses
          device.device_base_address device.device_size index device.block_size _ _ _ _ (fits.0).0
          (fits.0).1)
        (λ nv v. create_instances-LoopOutcome array devices (index + 1) nv v fits.1)

  register-Initialised :
      (array : Option ℕ) (devices : List RegionDescription) (looped : Option (DriverState W))
      → LoopOutcome lib pool base guids pcds array devices 0 looped
      → Initialised lib pool base guids pcds array devices
          (register lib pool base guids pcds services addresses looped)
  register-Initialised array devices none h = h
  register-Initialised array devices (some state) h = h

  -- If each device of the table has a block at least and the variable store fits it,
  -- NorFlashInitialise returns an error of the platform's initialization before its loop; or it
  -- leaves an array with one entry for each device, in order, each entry that was stored being an
  -- instance of its device: with its own media, present and writable, the device's blocks, the
  -- device's index as media id, a shadow buffer, and a volume placed on blocks of the device; or
  -- it meets a fault, and then the array was not allocated or ValidateFvHeader reads behind its
  -- buffer for some instance.
  pub nor_flash_initialise-Initialised :
      (devices : List RegionDescription) (nv_base : ℕ) (w : W)
      → All (IsDevice pcds) devices
      → let w1 = (services.nor_flash_platform_initialization w).1 in
        Initialised lib pool base guids pcds
          (services.allocate_runtime_pool (8 * length devices) w1).0
          devices
          (nor_flash_initialise lib pool base guids pcds services addresses devices nv_base w)
  unfolding nor_flash_initialise
  nor_flash_initialise-Initialised devices nv_base w fits =
      elim (Bool-cases (efi_error (services.nor_flash_platform_initialization w).0)) [
        | inl bad ↦ rw bad bad
        | inr fine ↦ rw fine (
            register-Initialised _ devices _
              (create_instances-LoopOutcome _ devices 0 nv_base _ fits))
      ]
