-- ===== src/Lib.antt =====
-- The flash driver, the platform library, the secure services and the log lines of the Orion O6
-- boot chain, and the cutting of blocks in its tests.
--
-- The boot chain's own code is four parts, the first two in C. The driver under
-- bootchain/modules/uefi/platform/OVERRIDE/Silicon/CIX/Sky1/Drivers/NorFlashStmmRuntimeDxe/ makes
-- the NOR flash available to the firmware: its entry point creates an instance for each device of
-- its table, places the volume of the UEFI variables on it, tests the volume's headers, and
-- publishes three protocols (block I/O, disk I/O, firmware volume block) that share the instance.
-- Events convert its pointers when the operating system sets the virtual address map. The library
-- under bootchain/modules/uefi/platform/Library/PlatformLib/ gives the firmware its boot mode, its
-- table of cores and its memory map. The secure partition under
-- bootchain/modules/secure-services/platform/, in Rust, has three services that pass requests of
-- the operating system on to the embedded controller over a UART. The binary of the DXE core under
-- bootchain/modules/uefi/platform/Drivers/PatinaDxeCore_ru/, in Rust too, formats its log lines.
-- Beside it, common/tests/acpi/src/main.rs cuts the blocks out of the ACPI tables that its tests look
-- into.
--
-- Common   helpers: words that wrap, Boolean tests, lists, the binary digits of a number
-- Efi      EFI_STATUS
-- Flash    NOR_FLASH_INSTANCE, the calls of NorFlashLib, and in Flash/Laws what they document
-- Fvb      NorFlashFvb.c
--   Fvb/Transfer    FvbRead and FvbWrite, with theorems in its folder
--   Fvb/Erase       FvbEraseBlocks: Ranges (its check), Returns, Contents and Bounds (the bytes),
--                   Overflow
--   Fvb/Attributes  FvbGetAttributes, FvbSetAttributes, FvbGetPhysicalAddress, FvbGetBlockSize
--   Fvb/Header      InitializeFvAndVariableStoreHeaders (Build), ValidateFvHeader (Validate)
--   Fvb/Volume      the volume as an array of bytes, and (Refine) the operations against it
-- BlockIo  NorFlashBlockIoDxe.c
-- DiskIo   NorFlashDiskIoDxe.c
-- Driver   NorFlashStmmRuntimeDxe.c
--   Driver/Services  boot services, DXE services, pools and HOBs that the driver calls
--   Driver/Template  mNorFlashInstanceTemplate and mNorFlashDevices
--   Driver/Create    NorFlashFvbInitialize and NorFlashCreateInstance
--   Driver/Start     NorFlashInitialise, FlashMemoryInitEventNotify, NorFlashVirtualNotifyEvent and
--                    FvbVirtualNotifyEvent of NorFlashFvb.c
--   Driver/Published from the headers that are written to the protocol that is published
--   Driver/Runtime   the volume before and behind SetVirtualAddressMap
--   Driver/Protocols the three protocols over one device, (Keeps, Refine) one array of bytes, and
--                    (Stale) the media pointer behind SetVirtualAddressMap
--   Driver/Ledger    the blocks of the pools that NorFlashCreateInstance leaves allocated
--   Driver/Geometry, Driver/Created, Driver/Devices, Driver/Ready, Driver/Notify  their theorems
-- Platform   ArmPlatformLib.c, and ArmPlatformHelper.S
-- MemoryMap  ArmPlatformLibMem.c
-- Passthrough  passthrough_service.rs, uart.rs, battery.rs, thermal.rs and time_alarm.rs
--   Passthrough/Request   the framing of a request, handle_message and handle_request
--   Passthrough/Services  the three services and their tables
--   Passthrough/Partition  main.rs: the services that share the UART, with (Session) a session
--   Passthrough/Uart      uart.rs down to its registers: one byte (Bytes), the line of bytes (Refine),
--                         and the services over the registers (Related, Session)
--   Passthrough/Packets (what the controller sends) and the other files of the folder  their
--                         theorems
-- Patina     lib.rs of PatinaDxeCore_ru, the log lines, with their theorem in Patina/Lines
-- Asl        extract_named_block of common/tests/acpi: Find (str::find), Braces (the loop over the
--            tokens), Blocks and Named (the block), Titles (its start)
-- Tests      the theorems at the board's volume and memory, over a flash in memory
--
-- How the code is read. Functions keep the source's names in snake case. A function that
-- changes state takes the world W, which is all that its calls can change, and returns the
-- world behind them; output parameters are fields of its result. Numbers are natural numbers,
-- and where the source adds, subtracts or multiplies in 32 or 64 bits the wrap-around is
-- written out. ASSERT is that of a release build, which does nothing, and DEBUG, DebugPrint and
-- the log macros of Rust are left out. A result `none` is a fault that the source runs into: a
-- use of NULL, of a pointer that was never stored, of bytes behind a buffer, of arguments
-- behind a list without its terminator, or of a media pointer that the driver did not convert
-- where the operating system has moved the instance. The address of an instance's media
-- (media_address) is kept beside its fields. CreateHob and SmemGetAddr are parameters that may
-- give NULL. The loops run over lists, or over the twelve cores in so many rounds; only the
-- loop of send_cmd has rounds as fuel, one more than there are bytes on the line, which is
-- enough as each round takes bytes. A call of the secure services returns, panics or waits for
-- a byte, and `none` of the log lines is a panic. The services are written over a Port, which
-- writes and reads bytes: the line of bytes is one, and the registers of the UART are another.
-- There a wait for a flag has rounds as fuel, enough where they are as many as the device needs
-- (IsUart); it does not end where the controller sends nothing.
-- In Asl `none` is a panic, also that of a depth which leaves the u32.
-- A protocol's This pointer is the instance that it belongs to.
--
-- What is a parameter. NorFlashLib, NorFlashPlatformLib, BaseLib, BaseMemoryLib,
-- MemoryAllocationLib, the crates odp_ffa, heapless and ec_service_lib, the lexer
-- that logos generates, the registers of the UART, the boot and DXE services and the PCDs are
-- not in the repository. Theorems on bytes take as a hypothesis that a call of NorFlashLib that
-- reports no error did what it documents (Flash/Laws), that BaseLib sums, compares, copies and
-- divides (Fvb/Header/Environment, DiskIo), and that the pool is not the flash; likewise for the
-- UART (Passthrough/Uart/Bytes), odp_ffa (Passthrough/Frame) and the lexer (Asl/Blocks). The tests
-- show flash, library, pool, UART and lexer for which this holds. The message loop of
-- ec_service_lib is the order of the calls. A write is predicted on erased bytes only, as NOR
-- flash needs. The offsets of the fields of the volume and variable store headers are those of the
-- PI specification and the variable format.
--
-- What is not modelled: the headers and module descriptions, which have no logic; rlog of
-- ArmPlatformInitialize, which a build switch adds; of the other Rust programs the FF-A version and
-- the services of ec_service_lib in main.rs of the secure partition with its bare-metal glue, main.rs
-- of PatinaDxeCore_ru, and the test functions of common/tests/acpi, which configure external crates or
-- look for fixed texts; the display driver, a binary; and the scripts and patches of the build.
pub mod Common
pub mod Efi
pub mod Flash
pub mod Fvb
pub mod BlockIo
pub mod DiskIo
pub mod Driver
pub mod Passthrough
pub mod Patina
pub mod Asl
pub mod Platform
pub mod MemoryMap
pub mod Tests
