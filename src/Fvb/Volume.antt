-- ===== src/Fvb/Volume.antt =====
-- What the firmware volume block protocol promises: a volume is an array of bytes, at the offsets
-- of the volume and not of the device. The operations of NorFlashFvb.c that succeed are steps of
-- it.
pub mod Refine
use odp_platform_radxa_orion.Common.{
  ℕ, ◌+◌, ◌*◌, ◌<◌, ◌≤◌, ◌≡◌, Bool, true, false, ◌&&◌, ◌||◌, Option, none, some, List, [], ◌∷◌, ltb,
  leb, if◌then◌else◌, add64, u64,
}
use odp_platform_radxa_orion.Common.Lists.{All}
use odp_platform_radxa_orion.Efi.{Status, success, efi_error}
use odp_platform_radxa_orion.Flash.{Buffer, NorFlashInstance, NorFlashLib}
use odp_platform_radxa_orion.Flash.Laws.{block_start, copied, IsErased}
use odp_platform_radxa_orion.Fvb.Transfer.{fvb_read, fvb_write}
use odp_platform_radxa_orion.Fvb.Transfer.Contents.{IsRequest, target}
use odp_platform_radxa_orion.Fvb.Erase.{fvb_erase_blocks}
use odp_platform_radxa_orion.Fvb.Erase.Ranges.{Range, arguments, IsRange, all_in_volume}

-- The operations that a client calls.
pub data Op : Type 0 where
  read_op : (lba offset n : ℕ) → Buffer → Op
  write_op : (lba offset n : ℕ) → Buffer → Op
  erase_op : List Range → Op

-- Whether a byte of the volume lies in one of the ranges, by the size of the blocks.
abbrev pub in_ranges : ℕ → List Range → ℕ → Bool
in_ranges block_size [] x = false
in_ranges block_size (r ∷ rs) x =
    (leb (r.starting_lba * block_size) x && ltb x ((r.starting_lba + r.num_of_lba) * block_size))
    || in_ranges block_size rs x

-- What an operation does to the array.
abbrev pub apply : ℕ → Op → Buffer → Buffer
apply block_size (read_op lba offset n into) bytes x = bytes x
apply block_size (write_op lba offset n buffer) bytes x =
    copied (lba * block_size + offset) n buffer bytes x
apply block_size (erase_op rs) bytes x = if in_ranges block_size rs x then 255 else bytes x

-- A sequence of operations, the first one first.
abbrev pub apply_all : ℕ → List Op → Buffer → Buffer
apply_all block_size [] bytes = bytes
apply_all block_size (op ∷ ops) bytes = apply_all block_size ops (apply block_size op bytes)

-- The bytes of the volume, in a world.
abbrev pub view : {W : Type 0} → (W → Buffer) → NorFlashInstance → W → Buffer
view contents inst w x = contents w (block_start inst inst.start_lba + x)

module _ {W : Type 0} (lib : NorFlashLib W) (contents : W → Buffer) (inst : NorFlashInstance) where
  -- An operation that the protocol serves as documented, on blocks of the volume: a read, whatever
  -- it returns; a write to erased bytes without an error; and an erasure without an error.
  pub data Step : W → Op → W → Type 0 where
    reads :
        (w : W) (lba offset n : ℕ) (into : Buffer)
        → IsRequest inst.media.block_size offset n
        → Step w (read_op lba offset n into) (fvb_read lib inst lba offset n into w).world
    writes :
        (w : W) (lba offset n : ℕ) (buffer : Buffer)
        → IsRequest inst.media.block_size offset n
        → lba < inst.blocks
        → IsErased (view contents inst w) (lba * inst.media.block_size + offset) n
        → efi_error (fvb_write lib inst lba offset n buffer w).status ≡ false
        → Step w (write_op lba offset n buffer) (fvb_write lib inst lba offset n buffer w).world
    erases :
        (w w' : W) (rs : List Range) (status : Status)
        → All IsRange rs
        → all_in_volume inst.blocks rs ≡ true
        → fvb_erase_blocks lib inst (arguments rs) w ≡ some (status, w')
        → efi_error status ≡ false
        → Step w (erase_op rs) w'

  -- A sequence of such operations.
  pub data Steps : W → List Op → W → Type 0 where
    done : {w : W} → Steps w [] w
    then_step :
        {w w1 w2 : W} {op : Op} {ops : List Op}
        → Step w op w1
        → Steps w1 ops w2
        → Steps w (op ∷ ops) w2
