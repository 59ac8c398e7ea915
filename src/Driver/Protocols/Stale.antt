-- ===== src/Driver/Protocols/Stale.antt =====
-- The block I/O protocol behind SetVirtualAddressMap: NorFlashVirtualNotifyEvent does not convert
-- BlockIoProtocol.Media.
use odp_platform_radxa_orion.Common.{
  ℕ, ◌^◌, ◌<◌, ◌≡◌, ◌≢◌, refl, sym, Bool, none, some, [], ◌∷◌, arith, ne→==,
}
use odp_platform_radxa_orion.Flash.{Buffer, NorFlashInstance, NorFlashLib}
use odp_platform_radxa_orion.BlockIo.{
  nor_flash_block_io_read_blocks, nor_flash_block_io_write_blocks, read_guarded, write_guarded,
}
use odp_platform_radxa_orion.BlockIo.Contents.{IsMedia}
use odp_platform_radxa_orion.Fvb.Header.Environment.{Pcds, Guids, BaseLib, PoolLib}
use odp_platform_radxa_orion.Driver.Services.{Services}
use odp_platform_radxa_orion.Driver.Template.{Addresses, RegionDescription}
use odp_platform_radxa_orion.Driver.Create.{Creation, nor_flash_create_instance}
use odp_platform_radxa_orion.Driver.Start.{convert_instance, nor_flash_virtual_notify_event}
use odp_platform_radxa_orion.Driver.Devices.{IsDevice}
use odp_platform_radxa_orion.Driver.Ready.{nor_flash_create_instance-Ready}

module _ {W : Type 0} (lib : NorFlashLib W) where
  -- No call of the protocol runs into a fault.
  abbrev pub Serves : NorFlashInstance → Type 0
  Serves inst =
      (media_id lba size address : ℕ) (buffer : Buffer) (w : W)
      → (nor_flash_block_io_read_blocks lib (some inst) media_id lba size address buffer w ≢ none)
        × (nor_flash_block_io_write_blocks lib (some inst) media_id lba size buffer w ≢ none)

  -- Every call of the protocol runs into a fault.
  abbrev pub Faults : NorFlashInstance → Type 0
  Faults inst =
      (media_id lba size address : ℕ) (buffer : Buffer) (w : W)
      → (nor_flash_block_io_read_blocks lib (some inst) media_id lba size address buffer w ≡ none)
        × (nor_flash_block_io_write_blocks lib (some inst) media_id lba size buffer w ≡ none)

  IsMedia-Serves : (inst : NorFlashInstance) (index : ℕ) → IsMedia inst index → Serves inst
  unfolding nor_flash_block_io_read_blocks nor_flash_block_io_write_blocks read_guarded
      write_guarded
  IsMedia-Serves inst index good media_id lba size address buffer w =
      let pointer = good.pointer in (λ e. ground arith, λ e. ground arith)

  moved-Faults :
      (convert : ℕ → ℕ) (inst : NorFlashInstance) (index : ℕ)
      → IsMedia inst index
      → convert inst.media_address ≢ inst.media_address
      → Faults (convert_instance convert inst)
  unfolding nor_flash_block_io_read_blocks nor_flash_block_io_write_blocks read_guarded
      write_guarded convert_instance
  moved-Faults convert inst index good moved media_id lba size address buffer w =
      let other = ne→== inst.media_address (convert inst.media_address) (λ e. moved (sym e)) in
      (rw (good.pointer, other) refl, rw (good.pointer, other) refl)

module _ {W : Type 0} (lib : NorFlashLib W) (pool : PoolLib W) (base : BaseLib) (guids : Guids)
    (pcds : Pcds) (services : Services W) (addresses : Addresses) where
  -- If the device has a block at least, of less than 2^32 bytes, and the variable store fits it,
  -- and the operating system's map moves the memory of an instance that NorFlashCreateInstance
  -- stored: before the map NorFlashBlockIoReadBlocks and NorFlashBlockIoWriteBlocks of the
  -- instance return on every call; behind NorFlashVirtualNotifyEvent on the array with the
  -- instance alone, which returns, every call of either follows the media pointer, which was not
  -- converted, to a place that is not the instance's media.
  pub create_instance-Faults :
      (device : RegionDescription) (index : ℕ) (given : Bool) (nv_base : ℕ) (w : W)
      → IsDevice pcds device
      → device.block_size < 2 ^ 32
      → (c : Creation W) (inst : NorFlashInstance)
      → nor_flash_create_instance lib pool base guids pcds services addresses given
          device.device_base_address device.region_base_address device.device_size index
          device.block_size nv_base w
        ≡ some c
      → c.stored ≡ some inst
      → (convert : ℕ → ℕ) → convert inst.media_address ≢ inst.media_address
      → Serves lib inst
        × (inst' : NorFlashInstance) × (nor_flash_virtual_notify_event convert (c.stored ∷ [])
            ≡ some (inst' ∷ []))
        × Faults lib inst'
  unfolding nor_flash_virtual_notify_event
  create_instance-Faults device index given nv_base w fits small c inst created stored convert
        moved =
      let (block_size, addressable, writable, media) =
        nor_flash_create_instance-Ready lib pool base guids pcds services addresses device index
          given nv_base w fits small c inst created stored in
      (
        IsMedia-Serves lib inst index media,
        convert_instance convert inst,
        rw stored refl,
        moved-Faults lib convert inst index media moved,
      )
