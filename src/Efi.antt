-- ===== src/Efi.antt =====
-- EFI_STATUS as the driver uses it: it compares with EFI_SUCCESS, returns named errors, and tests
-- what a library returns by EFI_ERROR, which a warning passes. The numeric codes are not used.
use odp_platform_radxa_orion.Common.{ℕ, Bool, true, false}

pub data ErrorCode : Type 0 where
  invalid_parameter unsupported bad_buffer_size device_error write_protected : ErrorCode
  out_of_resources no_media media_changed not_found access_denied : ErrorCode
  other_error : ℕ → ErrorCode

pub data Status : Type 0 where
  success : Status
  warning : ℕ → Status
  error : ErrorCode → Status

-- EFI_ERROR (Status)
abbrev pub efi_error : Status → Bool
efi_error success = false
efi_error (warning n) = false
efi_error (error e) = true
