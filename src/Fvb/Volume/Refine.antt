-- ===== src/Fvb/Volume/Refine.antt =====
-- The operations of NorFlashFvb.c against the array of bytes.
use mathlib.Core.Path.{subst}
use native.Mathlib.Nat.{mod-eq_of_lt, add_assoc}
use odp_platform_radxa_orion.Common.{
  ℕ, ◌+◌, ◌-◌, ◌*◌, ◌<◌, ◌≤◌, ◌≡◌, inl, inr, refl, ◌∙◌, ap, fun_ext, false, ◌&&◌, some, List, [],
  ◌∷◌, ltb, leb, if◌then◌else◌, u64, arith, lt→ltb,
}
use odp_platform_radxa_orion.Efi.{Status, success, efi_error}
use odp_platform_radxa_orion.Flash.{Buffer, NorFlashInstance, NorFlashLib}
use odp_platform_radxa_orion.Flash.Laws.{IsNorFlash, block_start, copied, IsErased}
use odp_platform_radxa_orion.Fvb.Transfer.{fvb_read}
use odp_platform_radxa_orion.Fvb.Transfer.Branches.{IsBlockSize, fvb_read-part, fvb_read-block}
use odp_platform_radxa_orion.Fvb.Transfer.Contents.{
  IsRequest, request_cases, target, in_block_fits, fvb_read_success, fvb_write_success,
}
use odp_platform_radxa_orion.Fvb.Erase.Ranges.{Range}
use odp_platform_radxa_orion.Fvb.Erase.Contents.{
  IsAddressable, Erased, covers, fvb_erase_blocks_lem,
}
use odp_platform_radxa_orion.Fvb.Volume.{
  Op, in_ranges, apply, apply_all, view, Step, reads, writes, erases, Steps, done, then_step,
}

inside_shift :
    (b a n x : ℕ) → (leb (b + a) (b + x) && ltb (b + x) (b + a + n)) ≡ (leb a x && ltb x (a + n))
inside_shift b a n x = ground arith

sub_shift : (b a x : ℕ) → b + x - (b + a) ≡ x - a
sub_shift b a x = omega arith

-- A copy behind a base is a copy on what stands behind it.
copied-shift :
    (b a n x : ℕ) (src dst : Buffer)
    → copied (b + a) n src dst (b + x) ≡ copied a n src (λ y. dst (b + y)) x
copied-shift b a n x src dst = rw (inside_shift b a n x, sub_shift b a x) refl

range_shift :
    (bs start lba num x : ℕ)
    → (leb ((start + lba) * bs) (start * bs + x)
        && ltb (start * bs + x) ((start + lba) * bs + num * bs))
      ≡ (leb (lba * bs) x && ltb x ((lba + num) * bs))
range_shift bs start lba num x = ground arith

covers-shift :
    (inst : NorFlashInstance) (rs : List Range) (x : ℕ)
    → covers inst rs (block_start inst inst.start_lba + x) ≡ in_ranges inst.media.block_size rs x
covers-shift inst [] x = refl
covers-shift inst (r ∷ rs) x =
    rw
      (
        range_shift inst.media.block_size inst.start_lba r.starting_lba r.num_of_lba x,
        covers-shift inst rs x,
      )
      refl

target_lem :
    (inst : NorFlashInstance) (lba offset : ℕ)
    → inst.start_lba + lba < u64
    → target inst lba offset
      ≡ block_start inst inst.start_lba + (lba * inst.media.block_size + offset)
target_lem inst lba offset h =
    rw (mod-eq_of_lt {n = inst.start_lba + lba} {m = u64} h) (omega arith)

module _ {W : Type 0} (lib : NorFlashLib W) (contents : W → Buffer) (laws : IsNorFlash lib contents)
    (inst : NorFlashInstance) (size : IsBlockSize inst.media.block_size) (fits : IsAddressable inst)
    (writable : inst.media.read_only ≡ false) where
  -- The place of a request on the device.
  pub in_device :
      (lba offset : ℕ)
      → lba < inst.blocks
      → target inst lba offset
        ≡ block_start inst inst.start_lba + (lba * inst.media.block_size + offset)
  in_device lba offset h = target_lem inst lba offset (omega (arith, fits.last))

  -- A read leaves the device as it is, whatever it returns.
  pub fvb_read_keeps :
      (lba offset n : ℕ) (into : Buffer) (w : W)
      → IsRequest inst.media.block_size offset n
      → contents (fvb_read lib inst lba offset n into w).world ≡ contents w
  fvb_read_keeps lba offset n into w request = elim (request_cases _ offset n request) [
    | inl part ↦
        rw
          (fvb_read-part lib inst lba offset n into w size request.starts_in request.some_bytes
            part)
          (laws.read_keeps inst _ _ _ into w)
    | inr whole ↦
        rw (fvb_read-block lib inst lba offset n into w size request.starts_in whole.0)
          (laws.read_blocks_keeps inst _ _ into w)
  ]

  -- Erased bytes of the volume are erased bytes of the device.
  pub IsErased-view :
      (w : W) (lba offset n : ℕ)
      → lba < inst.blocks
      → IsErased (view contents inst w) (lba * inst.media.block_size + offset) n
      → IsErased (contents w) (target inst lba offset) n
  IsErased-view w lba offset n h blank i k = rw (in_device lba offset h, add_assoc) (blank i k)

  Erased-view :
      (rs : List Range) (w w' : W) (status : Status)
      → efi_error status ≡ false
      → Erased contents inst rs w (some (status, w'))
      → (x : ℕ)
      → view contents inst w' x
        ≡ (if in_ranges inst.media.block_size rs x then 255 else view contents inst w x)
  Erased-view rs w w' status ok (inl bad) x = absurd (ground arith)
  Erased-view rs w w' status ok (inr (fine, same)) x = rw (← covers-shift inst rs x) (same _)

  pub Step-apply :
      {w w' : W} {op : Op}
      → Step lib contents inst w op w'
      → view contents inst w' ≡ apply inst.media.block_size op (view contents inst w)
  Step-apply (reads w lba offset n into request) = fun_ext λ x.
      ap (λ (bytes : Buffer). bytes (block_start inst inst.start_lba + x))
        (fvb_read_keeps lba offset n into w request)
  Step-apply (writes w lba offset n buffer request inside blank ok) = fun_ext λ x.
      let put =
        fvb_write_success lib contents laws inst size lba offset n buffer w request writable
          (IsErased-view w lba offset n inside blank) ok in
      (put.1).device (block_start inst inst.start_lba + x)
      ∙ rw (in_device lba offset inside) (copied-shift _ _ n x buffer (contents w))
  Step-apply (erases w w' rs status ranges inside answer ok) = fun_ext λ x.
      Erased-view rs w w' status ok
        (subst (λ r. Erased contents inst rs w r) answer
          (fvb_erase_blocks_lem lib contents laws inst fits rs w ranges inside writable))
        x

  Steps-apply_all :
      {w w' : W} {ops : List Op}
      → Steps lib contents inst w ops w'
      → view contents inst w' ≡ apply_all inst.media.block_size ops (view contents inst w)
  Steps-apply_all done = refl
  Steps-apply_all (then_step {ops = ops} first later) =
      Steps-apply_all later ∙ ap (apply_all inst.media.block_size ops) (Step-apply first)

  -- The volume refines an array of bytes. Over a flash that keeps its laws, on a writable volume
  -- with blocks of 1 to 2^32 - 1 bytes whose last block and size in bytes are 64-bit words: behind
  -- any sequence of reads, of writes to erased bytes without an error and of erasures without an
  -- error, of requests that the protocol serves as documented and of blocks of the volume, the
  -- volume holds the bytes that the array holds behind the same operations, and an FvbRead of the
  -- volume within a block that then returns EFI_SUCCESS gives the array's bytes.
  pub fvb_read-apply_all :
      (w w' : W) (ops : List Op) (lba offset n : ℕ) (into : Buffer)
      → Steps lib contents inst w ops w'
      → IsRequest inst.media.block_size offset n
      → lba < inst.blocks
      → offset + n ≤ inst.media.block_size
      → (fvb_read lib inst lba offset n into w').status ≡ success
      → ((x : ℕ)
          → view contents inst w' x ≡ apply_all inst.media.block_size ops (view contents inst w) x)
        × ((i : ℕ)
            → i < n
            → (fvb_read lib inst lba offset n into w').buffer i
              ≡ apply_all inst.media.block_size ops
                  (view contents inst w)
                  (lba * inst.media.block_size + offset + i))
  fvb_read-apply_all w w' ops lba offset n into steps request inside room ok =
      let same = Steps-apply_all steps in
      let got = fvb_read_success lib contents laws inst size lba offset n into w' request ok in
      (
        λ x. ap (λ (bytes : Buffer). bytes x) same,
        λ i h.
            got.bytes i
            ∙ rw
                (
                  in_block_fits _ _ _ room,
                  lt→ltb i n h,
                  in_device lba offset inside,
                  add_assoc (block_start inst inst.start_lba) (lba * inst.media.block_size + offset)
                      i,
                )
                (ap (λ (bytes : Buffer). bytes (lba * inst.media.block_size + offset + i)) same),
      )
