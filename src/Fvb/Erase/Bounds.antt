-- ===== src/Fvb/Erase/Bounds.antt =====
-- FvbEraseBlocks and the bytes of the device that do not belong to the volume.
use odp_platform_radxa_orion.Common.{
  ℕ, ◌≡◌, refl, ◌⊎◌, inl, inr, ◌∙◌, true, false, Option, none, some, List,
}
use odp_platform_radxa_orion.Common.Lists.{All}
use odp_platform_radxa_orion.Efi.{Status, error, efi_error}
use odp_platform_radxa_orion.Efi.{device_error}
use odp_platform_radxa_orion.Flash.{Buffer, NorFlashInstance, NorFlashLib}
use odp_platform_radxa_orion.Flash.Laws.{IsNorFlash}
use odp_platform_radxa_orion.Fvb.Erase.{fvb_erase_blocks}
use odp_platform_radxa_orion.Fvb.Erase.Ranges.{Range, arguments, IsRange, all_in_volume}
use odp_platform_radxa_orion.Fvb.Erase.Contents.{
  IsAddressable, Erased, covers, covers-outside, in_volume_bytes, fvb_erase_blocks_lem,
}

-- A call returns: a device error, or no error and then the byte at an offset is as it was.
abbrev pub KeepsByte : {W : Type 0} → (W → Buffer) → W → ℕ → Option (Status × W) → Type 0
KeepsByte contents w x none = ⊥
KeepsByte contents w x (some (status, w')) =
    (status ≡ error device_error) ⊎ ((efi_error status ≡ false) × (contents w' x ≡ contents w x))

Erased-KeepsByte :
    {W : Type 0} (contents : W → Buffer) (inst : NorFlashInstance) (rs : List Range) (w : W) (x : ℕ)
    → covers inst rs x ≡ false
    → (out : Option (Status × W)) → Erased contents inst rs w out
    → KeepsByte contents w x out
Erased-KeepsByte contents inst rs w x out none h = h
Erased-KeepsByte contents inst rs w x out (some (s, w')) (inl e) = inl e
Erased-KeepsByte contents inst rs w x out (some (s, w')) (inr (e, same)) =
    inr (e, same x ∙ rw out refl)

-- Over a flash that keeps its laws, on a volume whose last block and size in bytes are 64-bit
-- words: a call of FvbEraseBlocks on a writable volume that lists ranges of the volume, each with
-- an end below the terminator, returns. It reports EFI_DEVICE_ERROR, or no error, and then each
-- byte of the device outside the volume is as before.
pub fvb_erase_blocks_stays :
    {W : Type 0} (lib : NorFlashLib W) (contents : W → Buffer)
    → IsNorFlash lib contents
    → (inst : NorFlashInstance) → IsAddressable inst
    → (rs : List Range) (w : W) (x : ℕ) → All IsRange rs
    → all_in_volume inst.blocks rs ≡ true
    → inst.media.read_only ≡ false
    → in_volume_bytes inst x ≡ false
    → KeepsByte contents w x (fvb_erase_blocks lib inst (arguments rs) w)
fvb_erase_blocks_stays lib contents laws inst fits rs w x h v writable out =
    Erased-KeepsByte contents inst rs w x (covers-outside inst rs x v out) _
      (fvb_erase_blocks_lem lib contents laws inst fits rs w h v writable)
