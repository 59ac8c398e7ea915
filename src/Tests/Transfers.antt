-- ===== src/Tests/Transfers.antt =====
-- FvbRead and FvbWrite on the board's volume.
use odp_platform_radxa_orion.Common.{false, ℕ, ◌<◌, ◌≤◌, ◌≡◌, inl, refl, arith}
use odp_platform_radxa_orion.Efi.{success, error}
use odp_platform_radxa_orion.Efi.{access_denied, bad_buffer_size}
use odp_platform_radxa_orion.Tests.Data.{
  flash, contents, flash-IsNorFlash, volume, locked, blank, text,
}
use odp_platform_radxa_orion.Fvb.Transfer.Statuses.{IsReadStatus, IsOwnOrLibrary, transfer_statuses}
use odp_platform_radxa_orion.Fvb.Transfer.{fvb_read, fvb_write}
use odp_platform_radxa_orion.Fvb.Transfer.Branches.{IsBlockSize, fvb_write-refused}
use odp_platform_radxa_orion.Fvb.Transfer.Contents.{
  IsRequest, IsRead, IsWritten, target, fvb_read_success, fvb_write_success,
}
use odp_platform_radxa_orion.Fvb.Transfer.RoundTrip.{fvb_read-fvb_write, clipped_status}
use odp_platform_radxa_orion.Fvb.Erase.Contents.{in_volume_bytes}
use odp_platform_radxa_orion.Fvb.Transfer.Bounds.{fvb_write_stays, fvb_write_leaves}

four_kb : IsBlockSize 0x1000
four_kb = (omega arith, omega arith)

short-IsRequest : IsRequest 0x1000 16 20
short-IsRequest = record {
  starts_in = omega arith;
  some_bytes = omega arith;
  at_most_block = omega arith;
  whole_at_start = λ e. omega arith;
}

fvb_read-fvb_write_example :
    ((fvb_read flash volume 3 16 20 text
        (fvb_write flash volume 3 16 20 text blank).world).num_bytes
      ≡ 20)
    × ((i : ℕ)
        → i < 20
        → (fvb_read flash volume 3 16 20 text
              (fvb_write flash volume 3 16 20 text blank).world).buffer
            i
          ≡ text i)
unfolding fvb_read fvb_write
fvb_read-fvb_write_example =
    fvb_read-fvb_write flash contents flash-IsNorFlash volume four_kb 3 16 20 text blank
      short-IsRequest text refl (λ i h. refl) refl refl

fvb_read_success_example :
    IsRead contents (target volume 3 16) 20 text blank (fvb_read flash volume 3 16 20 text blank)
unfolding fvb_read
fvb_read_success_example =
    fvb_read_success flash contents flash-IsNorFlash volume four_kb 3 16 20 text blank
      short-IsRequest refl

fvb_write_success_example :
    (36 ≤ 0x1000)
    × IsWritten contents
        (target volume 3 16)
        20
        text
        blank
        (fvb_write flash volume 3 16 20 text blank)
unfolding fvb_write
fvb_write_success_example =
    fvb_write_success flash contents flash-IsNorFlash volume four_kb 3 16 20 text blank
      short-IsRequest refl (λ i h. refl) refl

fvb_write-refused_example :
    ((fvb_write flash locked 3 16 20 text blank).world ≡ blank)
    × ((fvb_write flash locked 3 16 20 text blank).status ≡ error access_denied)
fvb_write-refused_example = fvb_write-refused flash locked 3 16 20 text blank four_kb (inl refl)

clipped_status_example :
    ((fvb_read flash volume 3 0xFF0 32 text blank).status ≡ success)
    × ((fvb_read flash volume 3 0xFF0 32 text blank).num_bytes ≡ 16)
    × ((fvb_write flash volume 3 0xFF0 32 text blank).status ≡ error bad_buffer_size)
    × ((fvb_write flash volume 3 0xFF0 32 text blank).num_bytes ≡ 16)
clipped_status_example =
    clipped_status flash volume four_kb 3 0xFF0 32 text blank (omega arith) (omega arith)
      (omega arith) refl refl refl

-- The byte behind the volume.
fvb_write_stays_example :
    contents (fvb_write flash volume 119 16 20 text blank).world 0x3F8000 ≡ 255
unfolding fvb_write
fvb_write_stays_example =
    fvb_write_stays flash contents flash-IsNorFlash volume four_kb 119 16 20 text blank
      short-IsRequest refl (omega arith) (λ i h. refl) refl 0x3F8000 (omega arith) refl

-- The volume has 120 blocks.
fvb_write_leaves_example :
    (in_volume_bytes volume 0x3F8015 ≡ false)
    × (contents (fvb_write flash volume 120 16 20 text blank).world 0x3F8015 ≡ 0x46)
unfolding fvb_write
fvb_write_leaves_example =
    fvb_write_leaves flash contents flash-IsNorFlash volume four_kb 120 16 20 text blank
      short-IsRequest refl (omega arith) (λ i h. refl) refl 5 (omega arith) (omega arith)

transfer_statuses_example :
    IsReadStatus (fvb_read flash volume 3 16 20 text blank).status
    × IsOwnOrLibrary flash volume 3 16 20 text blank (fvb_write flash volume 3 16 20 text blank)
transfer_statuses_example = transfer_statuses flash volume 3 16 20 text blank
