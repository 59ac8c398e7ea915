-- ===== src/Fvb/Erase/Contents.antt =====
-- What an accepted call of FvbEraseBlocks does to the bytes, over a flash that keeps its laws.
use native.Mathlib.Nat.{mod-eq_of_lt}
use odp_platform_radxa_orion.Common.{
  ℕ, ◌+◌, ◌*◌, ◌<◌, ◌≤◌, ◌≡◌, ◌⊎◌, inl, inr, ap₂, Bool, Bool-cases, true, false, ◌||◌, ◌&&◌, Option,
  none, some, List, [], ◌∷◌, refl, arith, ltb, leb, if◌then◌else◌, u64, ne→==,
}
use odp_platform_radxa_orion.Efi.{Status, success, error, efi_error}
use odp_platform_radxa_orion.Efi.{device_error}
use odp_platform_radxa_orion.Flash.{Buffer, NorFlashInstance, NorFlashLib}
use odp_platform_radxa_orion.Flash.Laws.{IsNorFlash, erased, block_start}
use odp_platform_radxa_orion.Common.Lists.{All}
use odp_platform_radxa_orion.Fvb.Erase.{
  lba_list_terminator, erase_range, erase_ranges, fvb_erase_blocks,
}
use odp_platform_radxa_orion.Fvb.Erase.Ranges.{
  Range, arguments, IsRange, all_in_volume, in_volume, fvb_erase_blocks_accepted,
}

-- The volume's last block and its size in bytes are 64-bit words.
pub record IsAddressable (inst : NorFlashInstance) : Type 0 where
  pub last : inst.start_lba + inst.blocks < u64
  pub bytes : inst.blocks * inst.media.block_size < u64

-- Whether the byte at `x` lies in a range of the list.
abbrev pub covers : NorFlashInstance → List Range → ℕ → Bool
covers inst [] x = false
covers inst (r ∷ rs) x =
    (leb (block_start inst (inst.start_lba + r.starting_lba)) x
      && ltb x (
          block_start inst (inst.start_lba + r.starting_lba)
          + r.num_of_lba * inst.media.block_size))
    || covers inst rs x

-- A call returns: a device error, or no error and then exactly the listed blocks are erased.
abbrev pub Erased :
    {W : Type 0} → (W → Buffer) → NorFlashInstance → List Range → W → Option (Status × W) → Type 0
Erased contents inst rs w none = ⊥
Erased contents inst rs w (some (status, w')) =
    (status ≡ error device_error)
    ⊎ ((efi_error status ≡ false)
        × ((x : ℕ) → contents w' x ≡ (if covers inst rs x then 255 else contents w x)))

range_end : (num blocks bs : ℕ) → num ≤ blocks → blocks * bs < u64 → num * bs < u64
range_end num blocks bs h k = grind arith

module _ {W : Type 0} (lib : NorFlashLib W) (contents : W → Buffer) (laws : IsNorFlash lib contents)
    (inst : NorFlashInstance) (fits : IsAddressable inst) where
  -- In an addressable volume the arguments of NorFlashErase do not wrap.
  erase_range_exact :
      (r : Range) (w : W)
      → in_volume inst.blocks r ≡ true
      → erase_range lib inst r.starting_lba r.num_of_lba w
        ≡ lib.nor_flash_erase inst
            (inst.start_lba + r.starting_lba)
            (r.num_of_lba * inst.media.block_size)
            w
  unfolding erase_range
  erase_range_exact r w v =
      ap₂ (λ a b. lib.nor_flash_erase inst a b w)
        (mod-eq_of_lt {n = inst.start_lba + r.starting_lba} {m = u64} (ground (arith, fits.last)))
        (mod-eq_of_lt {n = r.num_of_lba * inst.media.block_size} {m = u64}
          (range_end r.num_of_lba inst.blocks inst.media.block_size (ground arith) fits.bytes))

  erase_range_lem :
      (r : Range) (w : W)
      → in_volume inst.blocks r ≡ true
      → efi_error (erase_range lib inst r.starting_lba r.num_of_lba w).0 ≡ false
      → (x : ℕ)
      → contents (erase_range lib inst r.starting_lba r.num_of_lba w).1 x
        ≡ erased
            (block_start inst (inst.start_lba + r.starting_lba))
            (r.num_of_lba * inst.media.block_size)
            (contents w)
            x
  erase_range_lem r w v = rw (erase_range_exact r w v) (
      laws.erase_ok inst (inst.start_lba + r.starting_lba) (r.num_of_lba * inst.media.block_size) w)

  erased_again :
      (a b : Bool) (x y z : ℕ)
      → y ≡ (if a then 255 else z)
      → x ≡ (if b then 255 else y)
      → x ≡ (if a || b then 255 else z)
  erased_again a b x y z h k = ground arith

  -- One more range before the others.
  Erased-cons :
      (r : Range) (rs : List Range) (w w' : W) (out : Option (Status × W))
      → ((x : ℕ)
          → contents w' x
            ≡ erased
                (block_start inst (inst.start_lba + r.starting_lba))
                (r.num_of_lba * inst.media.block_size)
                (contents w)
                x)
      → Erased contents inst rs w' out
      → Erased contents inst (r ∷ rs) w out
  Erased-cons r rs w w' none first h = h
  Erased-cons r rs w w' (some (s, v)) first (inl e) = inl e
  Erased-cons r rs w w' (some (s, v)) first (inr (e, later)) =
      inr (e, λ x. erased_again _ _ _ _ _ (first x) (later x))

  erase_ranges-Erased :
      (rs : List Range) (status : Status) (w : W)
      → All IsRange rs
      → all_in_volume inst.blocks rs ≡ true
      → efi_error status ≡ false
      → Erased contents inst rs w (erase_ranges lib inst (arguments rs) status w)
  unfolding erase_ranges
  erase_ranges-Erased [] status w h v e = inr (e, λ x. refl)
  erase_ranges-Erased (r ∷ rs) status w h v e =
      let here : in_volume inst.blocks r ≡ true = ground arith in
      let later : all_in_volume inst.blocks rs ≡ true = ground arith in
      let (s, w') = erase_range lib inst r.starting_lba r.num_of_lba w in
      elim (Bool-cases (efi_error s)) [
        | inl bad ↦ rw (ne→== r.starting_lba lba_list_terminator (omega arith), bad) (inl refl)
        | inr good ↦
            rw (ne→== r.starting_lba lba_list_terminator (omega arith), good)
              (Erased-cons r rs w _ _ (erase_range_lem r w here good)
                (erase_ranges-Erased rs s w' h.1 later good))
      ]

  -- Over a flash that keeps its laws, on a volume whose last block and size in bytes are 64-bit
  -- words: a call of FvbEraseBlocks on a writable volume that lists ranges of the volume, each
  -- with an end below the terminator, returns. It reports EFI_DEVICE_ERROR, or no error, and then
  -- the bytes of the listed blocks are 255 and all other bytes of the device are as before.
  pub fvb_erase_blocks_lem :
      (rs : List Range) (w : W)
      → All IsRange rs
      → all_in_volume inst.blocks rs ≡ true
      → inst.media.read_only ≡ false
      → Erased contents inst rs w (fvb_erase_blocks lib inst (arguments rs) w)
  fvb_erase_blocks_lem rs w h v writable =
      rw (fvb_erase_blocks_accepted lib inst rs w h writable v)
        (erase_ranges-Erased rs success w h v refl)

-- Whether the byte at `x` of the device lies in the volume.
abbrev pub in_volume_bytes : NorFlashInstance → ℕ → Bool
in_volume_bytes inst x =
    leb (block_start inst inst.start_lba) x
    && ltb x (block_start inst (inst.start_lba + inst.blocks))

mul_mono : (a b c : ℕ) → a ≤ b → a * c ≤ b * c
mul_mono a b c h = grind arith

range_bounds :
    (bs start blocks lba num x : ℕ)
    → lba + num ≤ blocks
    → (start + lba) * bs ≤ x
    → x < (start + lba) * bs + num * bs
    → (start * bs ≤ x) × (x < (start + blocks) * bs)
range_bounds bs start blocks lba num x h lo hi =
    (omega arith, omega (arith, mul_mono (lba + num) blocks bs h))

outside_range :
    (inst : NorFlashInstance) (r : Range) (x : ℕ)
    → in_volume inst.blocks r ≡ true
    → in_volume_bytes inst x ≡ false
    → (leb (block_start inst (inst.start_lba + r.starting_lba)) x
        && ltb x (
            block_start inst (inst.start_lba + r.starting_lba)
            + r.num_of_lba * inst.media.block_size))
      ≡ false
outside_range inst r x v out = ground (
  arith,
  range_bounds inst.media.block_size inst.start_lba inst.blocks r.starting_lba r.num_of_lba x,
)

pub covers-outside :
    (inst : NorFlashInstance) (rs : List Range) (x : ℕ)
    → all_in_volume inst.blocks rs ≡ true
    → in_volume_bytes inst x ≡ false
    → covers inst rs x ≡ false
covers-outside inst [] x v out = refl
covers-outside inst (r ∷ rs) x v out =
    rw (outside_range inst r x (ground arith) out) (covers-outside inst rs x (ground arith) out)
