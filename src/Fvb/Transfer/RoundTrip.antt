-- ===== src/Fvb/Transfer/RoundTrip.antt =====
-- FvbWrite followed by FvbRead, and requests that the two do not serve as they are documented.
use odp_platform_radxa_orion.Common.{
  ℕ, ◌+◌, ◌-◌, ◌<◌, ◌≡◌, false, refl, arith, ◌∙◌, lt→ltb, min_right, sym, mod_self_of_eq, add64,
}
use odp_platform_radxa_orion.Efi.{success, error, efi_error, bad_buffer_size}
use odp_platform_radxa_orion.Flash.{Buffer, NorFlashInstance, NorFlashLib}
use odp_platform_radxa_orion.Flash.Laws.{IsNorFlash, IsErased, copied_inside}
use odp_platform_radxa_orion.Fvb.Transfer.{fvb_read, fvb_write}
use odp_platform_radxa_orion.Fvb.Transfer.Branches.{
  IsBlockSize, fvb_read-part, fvb_read-block, fvb_write-part,
}
use odp_platform_radxa_orion.Fvb.Transfer.Contents.{
  IsRequest, target, in_block_fits, fvb_read_success, fvb_write_success,
}

module _ {W : Type 0} (lib : NorFlashLib W) (contents : W → Buffer) (laws : IsNorFlash lib contents)
    (inst : NorFlashInstance) (size : IsBlockSize inst.media.block_size) (lba offset n : ℕ)
    (buffer : Buffer) (w : W) (request : IsRequest inst.media.block_size offset n) where
  abbrev after : W
  after = (fvb_write lib inst lba offset n buffer w).world

  -- Over a flash that keeps its laws, with blocks of 1 to 2^32 - 1 bytes: if FvbWrite writes a
  -- request that the protocol serves as documented, on a writable volume, to erased bytes and
  -- without an error, and FvbRead of the same request then returns EFI_SUCCESS, the reading counts
  -- all the bytes and its buffer holds the bytes that were written.
  pub fvb_read-fvb_write :
      (into : Buffer)
      → inst.media.read_only ≡ false
      → IsErased (contents w) (target inst lba offset) n
      → efi_error (fvb_write lib inst lba offset n buffer w).status ≡ false
      → (fvb_read lib inst lba offset n into after).status ≡ success
      → ((fvb_read lib inst lba offset n into after).num_bytes ≡ n)
        × ((i : ℕ) → i < n → (fvb_read lib inst lba offset n into after).buffer i ≡ buffer i)
  fvb_read-fvb_write into writable blank written ok =
      let (fits, put) =
        fvb_write_success lib contents laws inst size lba offset n buffer w request writable blank
          written in
      let got = fvb_read_success lib contents laws inst size lba offset n into after request ok in
      let e = in_block_fits _ _ _ fits in
      (
        got.count ∙ e,
        λ i h.
            got.bytes i
            ∙ rw (e, lt→ltb i n h)
                (put.device (target inst lba offset + i)
                  ∙ copied_inside _ n i buffer (contents w) h),
      )

module _ {W : Type 0} (lib : NorFlashLib W) (inst : NorFlashInstance)
    (size : IsBlockSize inst.media.block_size) (lba offset n : ℕ) (buffer : Buffer) (w : W)
    (starts_in : offset < inst.media.block_size) where
  -- With blocks of 1 to 2^32 - 1 bytes, on a writable volume: if a request for less than a block
  -- starts in the block and runs over its end, and the device reports no error for the bytes up to
  -- the end, both FvbRead and FvbWrite count the bytes up to the end of the block, and FvbRead
  -- returns EFI_SUCCESS while FvbWrite returns EFI_BAD_BUFFER_SIZE.
  pub clipped_status :
      n < inst.media.block_size
      → inst.media.block_size < offset + n
      → inst.media.read_only ≡ false
      → efi_error
          (lib.nor_flash_read inst
            (add64 inst.start_lba lba)
            offset
            (inst.media.block_size - offset)
            buffer
            w).0
        ≡ false
      → efi_error
          (lib.nor_flash_write inst
            (add64 inst.start_lba lba)
            offset
            (inst.media.block_size - offset)
            buffer
            w).0
        ≡ false
      → ((fvb_read lib inst lba offset n buffer w).status ≡ success)
        × ((fvb_read lib inst lba offset n buffer w).num_bytes ≡ inst.media.block_size - offset)
        × ((fvb_write lib inst lba offset n buffer w).status ≡ error bad_buffer_size)
        × ((fvb_write lib inst lba offset n buffer w).num_bytes ≡ inst.media.block_size - offset)
  clipped_status short over writable read written =
      let e = min_right n (inst.media.block_size - offset) (omega arith) in
      rw
        (
          fvb_read-part lib inst lba offset n buffer w size starts_in (omega arith) short,
          fvb_write-part lib inst lba offset n buffer w size writable starts_in (omega arith) short,
          e,
          read,
          written,
          lt→ltb inst.media.block_size (offset + n) over,
        )
        (refl, refl, refl, refl)

  fvb_write-same :
      n ≡ inst.media.block_size
      → fvb_write lib inst lba offset n buffer w ≡ fvb_write lib inst lba 0 n buffer w
  unfolding fvb_write
  fvb_write-same whole = ground (arith, mod_self_of_eq n inst.media.block_size size.0)

  -- With blocks of 1 to 2^32 - 1 bytes, FvbRead and FvbWrite of a request for the size of a block
  -- do at every offset in the block what they do at offset 0.
  pub whole_block_ignores_offset :
      n ≡ inst.media.block_size
      → (fvb_read lib inst lba offset n buffer w ≡ fvb_read lib inst lba 0 n buffer w)
        × (fvb_write lib inst lba offset n buffer w ≡ fvb_write lib inst lba 0 n buffer w)
  whole_block_ignores_offset whole = (
    fvb_read-block lib inst lba offset n buffer w size starts_in whole
        ∙ sym (fvb_read-block lib inst lba 0 n buffer w size size.0 whole),
    fvb_write-same whole,
  )
