-- ===== src/Fvb/Erase.antt =====
-- FvbEraseBlocks of NorFlashFvb.c. The variable argument list is the list of its words; `none` is
-- a call whose list has no terminator, where the source reads on behind its arguments.
pub mod Ranges
pub mod Contents
pub mod Bounds
pub mod Overflow
pub mod Returns
use odp_platform_radxa_orion.Common.{
  ℕ, ◌-◌, ◌^◌, Bool, true, false, ◌||◌, Option, none, some, List, [], ◌∷◌, ltb, ◌==◌, if◌then◌else◌,
  add64, mul64,
}
use odp_platform_radxa_orion.Efi.{Status, success, error, efi_error}
use odp_platform_radxa_orion.Efi.{invalid_parameter, device_error, access_denied}
use odp_platform_radxa_orion.Flash.{NorFlashInstance, NorFlashLib}

-- EFI_LBA_LIST_TERMINATOR, the greatest EFI_LBA
abbrev pub lba_list_terminator : ℕ
lba_list_terminator = 2 ^ 64 - 1

-- The first loop: whether every range of the list passes the test.
unfoldable pub check_ranges : NorFlashInstance → List ℕ → Option Bool
check_ranges inst [] = none
check_ranges inst (starting_lba ∷ []) =
    if starting_lba == lba_list_terminator then some true else none
check_ranges inst (starting_lba ∷ num_of_lba ∷ args) =
    let rest = check_ranges inst args in
    if starting_lba == lba_list_terminator
    then some true
    else if num_of_lba == 0 || ltb inst.blocks (add64 starting_lba num_of_lba)
    then some false
    else rest

module _ {W : Type 0} (lib : NorFlashLib W) where
  -- One round of the second loop, which erases a range.
  unfoldable pub erase_range : NorFlashInstance → ℕ → ℕ → W → Status × W
  erase_range inst starting_lba num_of_lba w =
      lib.nor_flash_erase inst (add64 inst.start_lba starting_lba)
        (mul64 num_of_lba inst.media.block_size) w

  -- The second loop, from the status of the round before.
  unfoldable pub erase_ranges : NorFlashInstance → List ℕ → Status → W → Option (Status × W)
  erase_ranges inst [] status w = none
  erase_ranges inst (starting_lba ∷ []) status w =
      if starting_lba == lba_list_terminator then some (status, w) else none
  erase_ranges inst (starting_lba ∷ num_of_lba ∷ args) status w =
      let (status', w') = erase_range inst starting_lba num_of_lba w in
      let rest = erase_ranges inst args status' w' in
      if starting_lba == lba_list_terminator
      then some (status, w)
      else if efi_error status'
      then some (error device_error, w')
      else rest

  abbrev after_check : NorFlashInstance → List ℕ → W → Option Bool → Option (Status × W)
  after_check inst args w none = none
  after_check inst args w (some false) = some (error invalid_parameter, w)
  after_check inst args w (some true) = erase_ranges inst args success w

  unfoldable pub fvb_erase_blocks : NorFlashInstance → List ℕ → W → Option (Status × W)
  fvb_erase_blocks inst args w =
      if inst.media.read_only
      then some (error access_denied, w)
      else after_check inst args w (check_ranges inst args)
