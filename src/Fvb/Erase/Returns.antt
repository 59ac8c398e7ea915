-- ===== src/Fvb/Erase/Returns.antt =====
-- Which calls of FvbEraseBlocks return, and with which status.
use odp_platform_radxa_orion.Common.{
  ℕ, ◌≡◌, ◌⊎◌, inl, inr, refl, Bool, true, false, ◌||◌, Bool-cases, Option, none, some, List, [],
  ◌∷◌, arith, ltb, ◌==◌, if◌then◌else◌, add64,
}
use odp_platform_radxa_orion.Efi.{Status, success, error, efi_error}
use odp_platform_radxa_orion.Efi.{invalid_parameter, device_error, access_denied}
use odp_platform_radxa_orion.Flash.{NorFlashInstance, NorFlashLib}
use odp_platform_radxa_orion.Fvb.Erase.{
  lba_list_terminator, check_ranges, erase_range, erase_ranges, after_check, fvb_erase_blocks,
}

-- A range that the call refuses: it is empty, or its end, as a 64-bit word, is behind the volume.
abbrev pub IsRefused : NorFlashInstance → ℕ → ℕ → Type 0
IsRefused inst lba num = (num == 0 || ltb inst.blocks (add64 lba num)) ≡ true

-- The words of a call come to a terminator, or to a range that is refused, before they end.
pub data Reaches (inst : NorFlashInstance) : List ℕ → Type 0 where
  terminates : (args : List ℕ) → Reaches inst (lba_list_terminator ∷ args)
  refuses : (lba num : ℕ) (args : List ℕ) → IsRefused inst lba num → Reaches inst (lba ∷ num ∷ args)
  goes_on : (lba num : ℕ) (args : List ℕ) → Reaches inst args → Reaches inst (lba ∷ num ∷ args)

-- One of the results that the protocol documents for an erasure.
abbrev pub IsErasureStatus : Status → Type 0
IsErasureStatus status =
    (efi_error status ≡ false)
    ⊎ ((status ≡ error access_denied)
        ⊎ ((status ≡ error invalid_parameter) ⊎ (status ≡ error device_error)))

abbrev pub Returns : {W : Type 0} → Option (Status × W) → Type 0
Returns none = ⊥
Returns (some (status, w)) = IsErasureStatus status

-- The check comes to a decision.
abbrev Decides : Option Bool → Type 0
Decides none = ⊥
Decides (some b) = Unit

decided :
    (stop refused : Bool) (rest : Option Bool)
    → Decides rest
    → Decides (if stop then some true else if refused then some false else rest)
decided true refused rest h = tt
decided false true rest h = tt
decided false false rest h = h

check_ranges-Decides :
    (inst : NorFlashInstance) (args : List ℕ) → Reaches inst args → Decides (check_ranges inst args)
unfolding check_ranges
check_ranges-Decides inst _ (terminates []) = tt
check_ranges-Decides inst _ (terminates (num ∷ args)) = tt
check_ranges-Decides inst _ (refuses lba num args h) =
    elim (Bool-cases (lba == lba_list_terminator)) [ inl e ↦ rw e tt | inr e ↦ rw (e, h) tt ]
check_ranges-Decides inst _ (goes_on lba num args h) =
    decided (lba == lba_list_terminator) _ (check_ranges inst args)
      (check_ranges-Decides inst args h)

-- A check that passes has come to the terminator, or the words behind the range pass.
passed :
    (stop refused : Bool) (rest : Option Bool)
    → (if stop then some true else if refused then some false else rest) ≡ some true
    → (stop ≡ true) ⊎ ((stop ≡ false) × (rest ≡ some true))
passed true refused rest h = inl refl
passed false true rest h = absurd (ground arith)
passed false false rest h = inr (refl, h)

module _ {W : Type 0} (lib : NorFlashLib W) (inst : NorFlashInstance) where
  -- A round of the second loop, where the words are not at their end.
  round-Returns :
      (bad : Bool) (w : W) (rest : Option (Status × W))
      → (bad ≡ false → Returns rest)
      → Returns {W = W} (if bad then some (error device_error, w) else rest)
  round-Returns true w rest h = inr (inr (inr refl))
  round-Returns false w rest h = h refl

  erase_ranges-Returns :
      (args : List ℕ) (status : Status) (w : W)
      → efi_error status ≡ false
      → check_ranges inst args ≡ some true
      → Returns {W = W} (erase_ranges lib inst args status w)
  unfolding erase_ranges check_ranges
  erase_ranges-Returns [] status w ok h = absurd (ground arith)
  erase_ranges-Returns (lba ∷ []) status w ok h = elim (Bool-cases (lba == lba_list_terminator)) [
    | inl e ↦ rw e (inl ok)
    | inr e ↦ absurd (ground arith)
  ]
  erase_ranges-Returns (lba ∷ num ∷ args) status w ok h =
      elim (passed (lba == lba_list_terminator) _ (check_ranges inst args) h) [
        | inl e ↦ rw e (inl ok)
        | inr (e, rest) ↦ rw e (
            round-Returns _ _ _ (λ fine.
              erase_ranges-Returns args (erase_range lib inst lba num w).0
                (erase_range lib inst lba num w).1 fine rest))
      ]

  after_check-Returns :
      (args : List ℕ) (w : W) (b : Bool)
      → check_ranges inst args ≡ some b
      → Returns {W = W} (after_check lib inst args w (some b))
  after_check-Returns args w true h = erase_ranges-Returns args success w refl h
  after_check-Returns args w false h = inr (inr (inl refl))

  checked-Returns :
      (args : List ℕ) (w : W) (result : Option Bool)
      → check_ranges inst args ≡ result
      → Decides result
      → Returns {W = W} (after_check lib inst args w result)
  checked-Returns args w none e h = absurd h
  checked-Returns args w (some b) e h = after_check-Returns args w b e

  unless_locked-Returns :
      (args : List ℕ) (w : W) (locked : Bool)
      → (locked ≡ true) ⊎ Reaches inst args
      → Returns {W = W} (
          if locked
          then some (error access_denied, w)
          else after_check lib inst args w (check_ranges inst args))
  unless_locked-Returns args w true h = inr (inl refl)
  unless_locked-Returns args w false (inl h) = absurd (ground arith)
  unless_locked-Returns args w false (inr h) =
      checked-Returns args w (check_ranges inst args) refl (check_ranges-Decides inst args h)

  -- A call of FvbEraseBlocks on a read-only volume, or whose words come to a terminator or to a
  -- range that the call refuses before they end, returns, whatever 64-bit ranges it lists and
  -- whatever the device answers: with no error, EFI_ACCESS_DENIED, EFI_INVALID_PARAMETER or
  -- EFI_DEVICE_ERROR.
  pub fvb_erase_blocks-Returns :
      (args : List ℕ) (w : W)
      → (inst.media.read_only ≡ true) ⊎ Reaches inst args
      → Returns {W = W} (fvb_erase_blocks lib inst args w)
  unfolding fvb_erase_blocks
  fvb_erase_blocks-Returns args w h = unless_locked-Returns args w inst.media.read_only h
