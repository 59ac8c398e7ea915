-- ===== src/Tests.antt =====
-- The theorems applied to the volume of the Orion O6 and to a flash in memory.
mod Data
mod Transfers
mod Erasing
mod Volumes
mod Sharing
mod Headers
mod Disks
mod Devices
mod Boards
mod Pools
mod Controller
mod Sessions
mod Uarts
mod Tables
mod Logging
