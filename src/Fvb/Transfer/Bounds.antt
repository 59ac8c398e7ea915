-- ===== src/Fvb/Transfer/Bounds.antt =====
-- FvbWrite and the end of the volume.
use native.Mathlib.Nat.{mod-eq_of_lt}
use odp_platform_radxa_orion.Common.{
  ℕ, ◌+◌, ◌*◌, ◌<◌, ◌≤◌, ◌≡◌, false, ◌&&◌, refl, ◌∙◌, ltb, leb, arith, u64,
}
use odp_platform_radxa_orion.Efi.{efi_error}
use odp_platform_radxa_orion.Flash.{Buffer, NorFlashInstance, NorFlashLib}
use odp_platform_radxa_orion.Flash.Laws.{IsNorFlash, IsErased, copied, copied_inside}
use odp_platform_radxa_orion.Fvb.Transfer.{fvb_write}
use odp_platform_radxa_orion.Fvb.Transfer.Branches.{IsBlockSize}
use odp_platform_radxa_orion.Fvb.Transfer.Contents.{IsRequest, target, fvb_write_success}
use odp_platform_radxa_orion.Fvb.Erase.Contents.{in_volume_bytes}

blocks_mono : (a b c : ℕ) → a ≤ b → a * c ≤ b * c
blocks_mono a b c h = grind arith

-- A byte of a request of the volume is a byte of the volume.
request_inside :
    (bs start blocks lba offset n x : ℕ)
    → lba < blocks
    → offset + n ≤ bs
    → (start + lba) * bs + offset ≤ x
    → x < (start + lba) * bs + offset + n
    → (start * bs ≤ x) × (x < (start + blocks) * bs)
request_inside bs start blocks lba offset n x h room lo hi =
    (omega arith, omega (arith, blocks_mono (lba + 1) blocks bs (omega arith)))

not_copied :
    (a n x : ℕ) (src dst : Buffer)
    → (leb a x && ltb x (a + n)) ≡ false
    → copied a n src dst x ≡ dst x
not_copied a n x src dst h = rw h refl

outside_request :
    (inst : NorFlashInstance) (lba offset n x : ℕ)
    → inst.start_lba + lba < u64
    → lba < inst.blocks
    → offset + n ≤ inst.media.block_size
    → in_volume_bytes inst x ≡ false
    → (leb (target inst lba offset) x && ltb x (target inst lba offset + n)) ≡ false
outside_request inst lba offset n x small h room out =
    rw (mod-eq_of_lt {n = inst.start_lba + lba} {m = u64} small) (
      ground
        (arith, request_inside inst.media.block_size inst.start_lba inst.blocks lba offset n x))

behind_volume :
    (inst : NorFlashInstance) (lba offset i : ℕ)
    → inst.start_lba + lba < u64
    → inst.blocks ≤ lba
    → in_volume_bytes inst (target inst lba offset + i) ≡ false
behind_volume inst lba offset i small h =
    rw (mod-eq_of_lt {n = inst.start_lba + lba} {m = u64} small) (
      ground (
        arith,
        blocks_mono (inst.start_lba + inst.blocks) (inst.start_lba + lba) inst.media.block_size
            (omega arith),
      ))

module _ {W : Type 0} (lib : NorFlashLib W) (contents : W → Buffer) (laws : IsNorFlash lib contents)
    (inst : NorFlashInstance) (size : IsBlockSize inst.media.block_size) (lba offset n : ℕ)
    (buffer : Buffer) (w : W) (request : IsRequest inst.media.block_size offset n)
    (writable : inst.media.read_only ≡ false) (small : inst.start_lba + lba < u64)
    (blank : IsErased (contents w) (target inst lba offset) n)
    (ok : efi_error (fvb_write lib inst lba offset n buffer w).status ≡ false) where
  -- Over a flash that keeps its laws, with blocks of 1 to 2^32 - 1 bytes and a block number on the
  -- device of 64 bits: if FvbWrite of a request that the protocol serves as documented, for a
  -- block of the volume, on a writable volume and to erased bytes, reports no error, each byte of
  -- the device outside the volume is as before.
  pub fvb_write_stays :
      (x : ℕ)
      → lba < inst.blocks
      → in_volume_bytes inst x ≡ false
      → contents (fvb_write lib inst lba offset n buffer w).world x ≡ contents w x
  fvb_write_stays x inside out =
      let (room, put) =
        fvb_write_success lib contents laws inst size lba offset n buffer w request writable blank
          ok in
      put.device x
      ∙ not_copied (target inst lba offset) n x buffer (contents w)
          (outside_request inst lba offset n x small inside room out)

  -- Over a flash that keeps its laws, with blocks of 1 to 2^32 - 1 bytes and a block number on the
  -- device of 64 bits: if FvbWrite of a request that the protocol serves as documented, for a
  -- block behind the last one of the volume, on a writable volume and to erased bytes, reports no
  -- error, the buffer's bytes stand on the device outside the volume.
  pub fvb_write_leaves :
      (i : ℕ)
      → inst.blocks ≤ lba
      → i < n
      → (in_volume_bytes inst (target inst lba offset + i) ≡ false)
        × (contents (fvb_write lib inst lba offset n buffer w).world (target inst lba offset + i)
            ≡ buffer i)
  fvb_write_leaves i behind h =
      let (room, put) =
        fvb_write_success lib contents laws inst size lba offset n buffer w request writable blank
          ok in
      (
        behind_volume inst lba offset i small behind,
        put.device (target inst lba offset + i)
            ∙ copied_inside (target inst lba offset) n i buffer (contents w) h,
      )
