-- ===== src/Tests/Headers.antt =====
-- The headers of the board's volume.
use odp_platform_radxa_orion.Common.{◌≡◌, ◌↔◌, false, some, refl, arith}
use odp_platform_radxa_orion.Efi.{success}
use odp_platform_radxa_orion.Flash.{Buffer}
use odp_platform_radxa_orion.Flash.Laws.{copied}
use odp_platform_radxa_orion.Tests.Data.{
  flash, contents, flash-IsNorFlash, base, base-IsBaseLib, pool, pool-IsPoolLib, guids, pcds,
  volume, blank,
}
use odp_platform_radxa_orion.Fvb.Header.Memory.{store}
use odp_platform_radxa_orion.Fvb.Header.Environment.{Pcds}
use odp_platform_radxa_orion.Fvb.Header.Build.{
  layout_refused, combined_headers, summed_header, unsummed_header,
  initialize_fv_and_variable_store_headers,
}
use odp_platform_radxa_orion.Fvb.Header.Validate.{validate_fv_header}
use odp_platform_radxa_orion.Fvb.Header.Formatted.{headers_of, validate_headers-combined_headers}
use odp_platform_radxa_orion.Fvb.Header.RoundTrip.{validate-initialize}
use odp_platform_radxa_orion.Fvb.Header.Checks.{
  IsLayout, EndsInRange, IsVolume, layout_refused_iff, initialize_accepted,
}
use odp_platform_radxa_orion.Fvb.Header.Accepted.{IsFormatted, validate_headers_iff}

pcds-EndsInRange : EndsInRange pcds
pcds-EndsInRange = (omega arith, omega arith)

pcds-IsLayout : IsLayout pcds 0x1000
pcds-IsLayout = record {
  working_follows = refl;
  spare_follows = refl;
  variable_holds = omega arith;
  working_holds = omega arith;
  spare_holds = omega arith;
  variable_aligned = refl;
  working_aligned = refl;
  spare_aligned = refl;
}

-- The spare area off its block.
abbrev shifted : Pcds
shifted = record pcds { ftw_spare_base = 0x3D0010 }

shifted-not-IsLayout : ¬ (IsLayout shifted 0x1000)
shifted-not-IsLayout l = omega (arith, l.spare_follows)

-- The headers of the volume.
abbrev written : Buffer
written = headers_of (combined_headers base guids pcds volume)

-- The headers with a length of 4096 bytes.
abbrev overlong : Buffer
overlong = store (headers_of (combined_headers base guids pcds volume)) 48 2 0x1000

layout_refused_iff_example : (layout_refused pcds 0x1000 ≡ false) ↔ IsLayout pcds 0x1000
layout_refused_iff_example = layout_refused_iff pcds 0x1000 (omega arith) pcds-EndsInRange

initialized_blank :
    initialize_fv_and_variable_store_headers flash pool base guids pcds volume blank
    ≡ some (success, copied 0x380000 100 (combined_headers base guids pcds volume) blank)
initialized_blank =
    initialize_accepted flash pool base guids pcds volume blank (omega arith) pcds-EndsInRange
      pcds-IsLayout

validate-initialize_example :
    validate_fv_header flash pool base guids pcds volume
      (copied 0x380000 100 (combined_headers base guids pcds volume) blank)
    ≡ some (success, copied 0x380000 100 (combined_headers base guids pcds volume) blank)
validate-initialize_example =
    validate-initialize flash contents flash-IsNorFlash pool pool-IsPoolLib base base-IsBaseLib
      guids pcds volume blank success
      (copied 0x380000 100 (combined_headers base guids pcds volume) blank) (λ i h. refl)
      initialized_blank refl refl refl

-- The headers that the driver writes are accepted.
validate_headers_iff_example : IsFormatted guids pcds written 36
unfolding combined_headers summed_header unsummed_header
validate_headers_iff_example =
    (validate_headers_iff base base-IsBaseLib guids pcds written 36 refl).0
      (validate_headers-combined_headers base base-IsBaseLib guids pcds volume)

overlong-IsVolume : IsVolume base guids pcds overlong
unfolding combined_headers summed_header unsummed_header
overlong-IsVolume = record { revision = refl; signature = refl; length = refl; guid = refl }
