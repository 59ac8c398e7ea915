-- ===== src/Tests/Erasing.antt =====
-- FvbEraseBlocks and the reports of the board's volume.
use odp_platform_radxa_orion.Common.{
  ℕ, ◌-◌, ◌^◌, ◌≡◌, inr, some, List, [], ◌∷◌, refl, arith, if◌then◌else◌,
}
use odp_platform_radxa_orion.Common.Lists.{All}
use odp_platform_radxa_orion.Efi.{error, efi_error}
use odp_platform_radxa_orion.Flash.{Buffer}
use odp_platform_radxa_orion.Efi.{invalid_parameter, device_error, access_denied}
use odp_platform_radxa_orion.Tests.Data.{
  flash, contents, flash-IsNorFlash, volume, locked, blank, text,
}
use odp_platform_radxa_orion.Fvb.Erase.{erase_range, fvb_erase_blocks}
use odp_platform_radxa_orion.Fvb.Erase.Ranges.{Range, arguments, IsRange, fvb_erase_blocks_refused}
use odp_platform_radxa_orion.Fvb.Erase.Contents.{IsAddressable, Erased, fvb_erase_blocks_lem}
use odp_platform_radxa_orion.Fvb.Erase.Bounds.{KeepsByte, fvb_erase_blocks_stays}
use odp_platform_radxa_orion.Fvb.Erase.Returns.{
  Reaches, terminates, goes_on, Returns, fvb_erase_blocks-Returns,
}
use odp_platform_radxa_orion.Fvb.Erase.Overflow.{wrapped_range_erased}
use odp_platform_radxa_orion.Fvb.Transfer.{fvb_write}
use odp_platform_radxa_orion.Fvb.Attributes.{fvb_get_attributes}
use odp_platform_radxa_orion.Fvb.Attributes.Laws.{write_status_denies}

-- The fourth block, and the last three.
abbrev ranges : List Range
ranges =
    record { starting_lba = 3; num_of_lba = 1 } ∷ record { starting_lba = 117; num_of_lba = 3 } ∷ []

ranges-IsRange : All IsRange ranges
ranges-IsRange = (omega arith, (omega arith, tt))

-- A range that runs over the end of the volume.
abbrev long_range : List Range
long_range = record { starting_lba = 117; num_of_lba = 4 } ∷ []

-- A range whose end wraps to 0.
abbrev wrapping : Range
wrapping = record { starting_lba = 2 ^ 64 - 2; num_of_lba = 2 }

volume-IsAddressable : IsAddressable volume
volume-IsAddressable = record { last = omega arith; bytes = omega arith }

fvb_erase_blocks_lem_example :
    Erased contents volume ranges text (fvb_erase_blocks flash volume (arguments ranges) text)
fvb_erase_blocks_lem_example =
    fvb_erase_blocks_lem flash contents flash-IsNorFlash volume volume-IsAddressable ranges text
      ranges-IsRange refl refl

fvb_erase_blocks_stays_example :
    KeepsByte contents text 100 (fvb_erase_blocks flash volume (arguments ranges) text)
fvb_erase_blocks_stays_example =
    fvb_erase_blocks_stays flash contents flash-IsNorFlash volume volume-IsAddressable ranges text
      100 ranges-IsRange refl refl refl

fvb_erase_blocks_refused_example :
    fvb_erase_blocks flash volume (arguments long_range) text ≡ some (error invalid_parameter, text)
fvb_erase_blocks_refused_example =
    fvb_erase_blocks_refused flash volume long_range text (omega arith, tt) (inr refl)

wrapped_range_erased_example :
    fvb_erase_blocks flash volume (arguments (wrapping ∷ [])) text
    ≡ some (
      if efi_error (erase_range flash volume (2 ^ 64 - 2) 2 text).0
          then error device_error
          else (erase_range flash volume (2 ^ 64 - 2) 2 text).0,
      (erase_range flash volume (2 ^ 64 - 2) 2 text).1,
    )
wrapped_range_erased_example =
    wrapped_range_erased flash volume wrapping text (omega arith) (omega arith) (omega arith)
      (omega arith) (omega arith) refl

write_status_denies_example :
    (fvb_write flash locked 3 16 20 text blank
      ≡ record { status = error access_denied; num_bytes = 20; world = blank })
    × (fvb_erase_blocks flash locked (arguments ranges) blank ≡ some (error access_denied, blank))
unfolding fvb_get_attributes
write_status_denies_example =
    write_status_denies flash locked 3 16 20 text (arguments ranges) blank refl

abbrev two_ranges : List ℕ
two_ranges = 10 ∷ 2 ∷ 100 ∷ 0 ∷ (2 ^ 64 - 1) ∷ 7 ∷ []

two_ranges-Reaches : Reaches volume two_ranges
two_ranges-Reaches = goes_on 10 2 _ (goes_on 100 0 _ (terminates (7 ∷ [])))

fvb_erase_blocks-Returns_example :
    Returns {W = Buffer} (fvb_erase_blocks flash volume two_ranges text)
fvb_erase_blocks-Returns_example =
    fvb_erase_blocks-Returns flash volume two_ranges text (inr two_ranges-Reaches)
