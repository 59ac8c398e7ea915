-- ===== src/Driver/Ready.antt =====
-- The instances of NorFlashCreateInstance, and what the theorems on their protocols ask for.
use mathlib.Core.Path.{subst}
use odp_platform_radxa_orion.Common.{ℕ, ◌+◌, ◌*◌, ◌^◌, ◌<◌, ◌≤◌, ◌≡◌, Bool, false, some, arith, u64}
use odp_platform_radxa_orion.Flash.{NorFlashInstance, NorFlashLib}
use odp_platform_radxa_orion.BlockIo.Contents.{IsMedia}
use odp_platform_radxa_orion.Fvb.Transfer.Branches.{IsBlockSize}
use odp_platform_radxa_orion.Fvb.Erase.Contents.{IsAddressable}
use odp_platform_radxa_orion.Fvb.Header.Environment.{Pcds, Guids, BaseLib, PoolLib}
use odp_platform_radxa_orion.Driver.Services.{Services}
use odp_platform_radxa_orion.Driver.Template.{Addresses, RegionDescription}
use odp_platform_radxa_orion.Driver.Create.{Creation, nor_flash_create_instance}
use odp_platform_radxa_orion.Driver.Geometry.{IsPlaced}
use odp_platform_radxa_orion.Driver.Created.{IsInstance, Outcome, nor_flash_create_instance-Outcome}
use odp_platform_radxa_orion.Driver.Devices.{IsDevice, EntryFor, Stored-EntryFor}

count_le : (a b : ℕ) → 0 < b → a ≤ a * b
count_le a b h = grind arith

-- A volume that is placed on a device with addresses of 64 bits has such addresses.
placed_IsAddressable :
    (inst : NorFlashInstance)
    → IsPlaced inst
    → 0 < inst.media.block_size
    → inst.size < u64
    → IsAddressable inst
placed_IsAddressable inst placed pos small = record {
  last =
      omega
        (arith, placed.inside, count_le (inst.start_lba + inst.blocks) inst.media.block_size pos);
  bytes = omega (arith, placed.inside);
}

-- What the theorems on the protocols ask of an instance.
abbrev pub Ready : ℕ → NorFlashInstance → Type 0
Ready index inst =
    IsBlockSize inst.media.block_size
    × IsAddressable inst
    × (inst.media.read_only ≡ false)
    × IsMedia inst index

IsInstance-Ready :
    (pcds : Pcds) (device : RegionDescription) (index : ℕ) (inst : NorFlashInstance)
    → IsDevice pcds device
    → device.block_size < 2 ^ 32
    → IsInstance device.device_base_address device.device_size index device.block_size inst
    → Ready index inst
IsInstance-Ready pcds device index inst (some_block, fits) small good =
    let pos : 0 < inst.media.block_size = rw (good.block) (fits.positive) in
    (
      (pos, rw (good.block) small),
      placed_IsAddressable inst good.placed pos (rw (good.extent) (omega (arith, fits.addresses))),
      good.writable,
      record { pointer = good.media_pointer; present = good.present; same = good.id },
    )

module _ {W : Type 0} (lib : NorFlashLib W) (pool : PoolLib W) (base : BaseLib) (guids : Guids)
    (pcds : Pcds) (services : Services W) (addresses : Addresses) where
  -- If the device has a block at least, of less than 2^32 bytes, and the variable store fits it,
  -- an instance that NorFlashCreateInstance stores is what the theorems on the protocols ask for:
  -- its blocks have 1 to 2^32 - 1 bytes, the last block of its volume and the volume's size in
  -- bytes are 64-bit words, it is writable, its media pointer is set and its media is present and
  -- has the index as its id.
  pub nor_flash_create_instance-Ready :
      (device : RegionDescription) (index : ℕ) (given : Bool) (nv_base : ℕ) (w : W)
      → IsDevice pcds device
      → device.block_size < 2 ^ 32
      → (c : Creation W) (inst : NorFlashInstance)
      → nor_flash_create_instance lib pool base guids pcds services addresses given
          device.device_base_address device.region_base_address device.device_size index
          device.block_size nv_base w
        ≡ some c
      → c.stored ≡ some inst
      → Ready index inst
  nor_flash_create_instance-Ready device index given nv_base w fits small c inst created stored =
      IsInstance-Ready pcds device index inst fits small (
        subst (λ entry. EntryFor device index entry) stored
          (Stored-EntryFor device index c (
            subst
              (λ r.
                Outcome lib pool base guids pcds device.device_base_address device.device_size index
                  device.block_size r)
              created
              (nor_flash_create_instance-Outcome lib pool base guids pcds services addresses
                device.device_base_address device.device_size index device.block_size given
                device.region_base_address nv_base w (fits.0) (fits.1)))))
