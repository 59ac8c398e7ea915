-- ===== src/Driver/Notify.antt =====
-- NorFlashInitialise over its devices, and NorFlashVirtualNotifyEvent over the array it leaves.

use odp_platform_radxa_orion.Common.{
  ℕ, ◌≡◌, refl, ◌∙◌, ap, true, false, Option, none, some, List, [], ◌∷◌, map,
}
use odp_platform_radxa_orion.Efi.{efi_error}
use odp_platform_radxa_orion.Flash.{NorFlashInstance, NorFlashLib}
use odp_platform_radxa_orion.Fvb.Header.Environment.{Pcds, Guids, BaseLib, PoolLib}
use odp_platform_radxa_orion.Driver.Services.{Services, nor_flash_virtual_notify}
use odp_platform_radxa_orion.Driver.Template.{Addresses, RegionDescription}
use odp_platform_radxa_orion.Driver.Create.{Creation, nor_flash_create_instance}
use odp_platform_radxa_orion.Driver.Start.{
  Instances, create_instances, keep, nor_flash_initialise, convert_instance,
  nor_flash_virtual_notify_event,
}

-- The instances of an array in which every entry was stored.
unfoldable pub all_stored : Instances → Option (List NorFlashInstance)
all_stored [] = some []
all_stored (none ∷ entries) = none
all_stored (some inst ∷ entries) = elim (all_stored entries) [
  | none ↦ none
  | some rest ↦ some (inst ∷ rest)
]

-- The instances, each converted.
unfoldable pub all_converted :
    (ℕ → ℕ) → Option (List NorFlashInstance) → Option (List NorFlashInstance)
all_converted convert none = none
all_converted convert (some instances) = some (map (convert_instance convert) instances)

converted_first :
    (convert : ℕ → ℕ) (inst : NorFlashInstance) (stored : Option (List NorFlashInstance))
    → elim (all_converted convert stored) as (λ x. Option (List NorFlashInstance)) [
      | none ↦ none
      | some rest ↦ some (convert_instance convert inst ∷ rest)
    ]
      ≡ all_converted convert (elim stored as (λ x. Option (List NorFlashInstance)) [
        | none ↦ none
        | some rest ↦ some (inst ∷ rest)
      ])
unfolding all_converted
converted_first convert inst none = refl
converted_first convert inst (some rest) = refl

-- NorFlashVirtualNotifyEvent converts each instance of the array if every entry was stored, and
-- uses an entry that was not stored if there is one.
pub nor_flash_virtual_notify_event_lem :
    (convert : ℕ → ℕ) (entries : Instances)
    → nor_flash_virtual_notify_event convert entries ≡ all_converted convert (all_stored entries)
unfolding nor_flash_virtual_notify_event all_converted all_stored
nor_flash_virtual_notify_event_lem convert [] = refl
nor_flash_virtual_notify_event_lem convert (none ∷ entries) = refl
nor_flash_virtual_notify_event_lem convert (some inst ∷ entries) =
    rw (nor_flash_virtual_notify_event_lem convert entries)
      (converted_first convert inst (all_stored entries))

module _ {W : Type 0} (lib : NorFlashLib W) (pool : PoolLib W) (base : BaseLib) (guids : Guids)
    (pcds : Pcds) (services : Services W) (addresses : Addresses) where
  create_instances-failed :
      (device : RegionDescription) (nv_base address : ℕ) (w : W) (c : Creation W)
      → nor_flash_create_instance lib pool base guids pcds services addresses true
          device.device_base_address device.region_base_address device.device_size 0
          device.block_size nv_base
          (services.create_protocol_notify_event 0 w)
        ≡ some c
      → c.stored ≡ none
      → create_instances lib pool base guids pcds services addresses
          (some address)
          (device ∷ [])
          0
          nv_base
          w
        ≡ some (record {
          instances = none ∷ [];
          nv_storage_variable_base = c.nv_storage_variable_base;
          world = c.world;
        })
  unfolding create_instances keep
  create_instances-failed device nv_base address w c created failed =
      ap
        (keep lib pool base guids pcds services addresses (some address)
          (create_instances lib pool base guids pcds services addresses (some address) [] 1))
        created
      ∙ rw failed refl

  -- If the platform's initialization of the flash succeeds, the array is allocated and
  -- NorFlashCreateInstance stores nothing for the only device, NorFlashInitialise returns the
  -- status of its last call of CreateEventEx and leaves an array whose entry was not stored, and
  -- NorFlashVirtualNotifyEvent over that array uses the entry.
  pub failed_device_faults :
      (convert : ℕ → ℕ) (device : RegionDescription) (nv_base address : ℕ) (w w' : W)
      (c : Creation W)
      → efi_error (services.nor_flash_platform_initialization w).0 ≡ false
      → services.allocate_runtime_pool 8 (services.nor_flash_platform_initialization w).1
        ≡ (some address, w')
      → nor_flash_create_instance lib pool base guids pcds services addresses true
          device.device_base_address device.region_base_address device.device_size 0
          device.block_size nv_base
          (services.create_protocol_notify_event 0 w')
        ≡ some c
      → c.stored ≡ none
      → (nor_flash_initialise lib pool base guids pcds services addresses (device ∷ []) nv_base w
          ≡ some (
            (services.create_event_ex nor_flash_virtual_notify c.world).0,
            some (record {
              instances = none ∷ [];
              nv_storage_variable_base = c.nv_storage_variable_base;
              world = (services.create_event_ex nor_flash_virtual_notify c.world).1;
            }),
            (services.create_event_ex nor_flash_virtual_notify c.world).1,
          ))
        × (nor_flash_virtual_notify_event convert (none ∷ []) ≡ none)
  unfolding nor_flash_initialise nor_flash_virtual_notify_event
  failed_device_faults convert device nv_base address w w' c started allocated created failed = (
    rw (started, allocated, create_instances-failed device nv_base address w' c created failed)
        refl,
    refl,
  )
