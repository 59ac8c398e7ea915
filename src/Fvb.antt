-- ===== src/Fvb.antt =====
-- NorFlashFvb.c: the firmware volume block protocol.
pub mod Transfer
pub mod Erase
pub mod Attributes
pub mod Header
pub mod Volume
