-- ===== src/Fvb/Header.antt =====
-- InitializeFvAndVariableStoreHeaders and ValidateFvHeader of NorFlashFvb.c. The offsets of the
-- fields of EFI_FIRMWARE_VOLUME_HEADER, with two entries of the block map, and of
-- VARIABLE_STORE_HEADER, and the values of their constants, are those of the PI specification and
-- of the variable format.
pub mod Memory
pub mod Environment
pub mod Build
pub mod Sums
pub mod Validate
pub mod Formatted
pub mod RoundTrip
pub mod Holds
pub mod Checks
pub mod Accepted
