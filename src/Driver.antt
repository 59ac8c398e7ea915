-- ===== src/Driver.antt =====
-- NorFlashStmmRuntimeDxe.c: the driver that creates the flash instances, publishes their
-- protocols and converts their pointers for the virtual address map.
pub mod Services
pub mod Template
pub mod Create
pub mod Start
pub mod Geometry
pub mod Created
pub mod Devices
pub mod Ready
pub mod Published
pub mod Ledger
pub mod Runtime
pub mod Protocols
pub mod Notify
