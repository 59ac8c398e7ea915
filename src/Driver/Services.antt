-- ===== src/Driver/Services.antt =====
-- What the driver calls of the firmware around it, beside NorFlashLib: boot services, DXE
-- services, the memory pools, the HOB list and NorFlashPlatformLib.
use odp_platform_radxa_orion.Common.{ℕ, Option, List}
use odp_platform_radxa_orion.Efi.{Status}
use odp_platform_radxa_orion.Flash.{NorFlashInstance}
use odp_platform_radxa_orion.Platform.{BootMode}

-- The protocols of an instance, by the GUID that each is installed under.
pub data Protocol : Type 0 where
  device_path flash_block_io disk_io firmware_volume_block xspi_info : Protocol

-- The handlers of the events that the driver creates.
pub data Handler : Type 0 where
  fvb_virtual_notify nor_flash_virtual_notify : Handler

-- `W` is the world that the calls change. An allocation gives an address, or `none` for NULL.
-- A notify event for the CPU protocol is created for a device of the table, by its index.
pub record Services (W : Type 0) : Type 0 where
  pub allocate_runtime_copy_pool : W → Option ℕ × W
  pub allocate_runtime_zero_pool : ℕ → W → Option ℕ × W
  pub allocate_runtime_pool : ℕ → W → Option ℕ × W
  pub free_pool : ℕ → W → W
  pub get_boot_mode_hob : W → BootMode
  pub install_nv_var_store_formatted : W → Status × W
  pub install_multiple_protocol_interfaces : NorFlashInstance → List Protocol → W → Status × W
  pub create_event_ex : Handler → W → Status × W
  pub create_protocol_notify_event : ℕ → W → W
  pub nor_flash_platform_initialization : W → Status × W
  pub set_memory_space_attributes : ℕ → ℕ → W → Status × W
  pub remove_memory_space : ℕ → ℕ → W → W
