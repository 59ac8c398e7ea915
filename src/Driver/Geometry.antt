-- ===== src/Driver/Geometry.antt =====
-- Where NorFlashFvbInitialize places the volume, and what the virtual address map does to it.
use native.Mathlib.Nat.{mod-eq_of_lt, add_comm}
use odp_platform_radxa_orion.Common.{
  ℕ, ◌+◌, ◌*◌, ◌/◌, ◌%◌, ◌≤◌, ◌<◌, ◌≡◌, arith, add64, sub64, u64, ◌∙◌, ap,
}
use odp_platform_radxa_orion.Flash.{NorFlashInstance}
use odp_platform_radxa_orion.Fvb.Header.Environment.{Pcds}
use odp_platform_radxa_orion.Fvb.Header.Build.{variable_base, fv_length}
use odp_platform_radxa_orion.Driver.Create.{place_volume}
use odp_platform_radxa_orion.Driver.Start.{convert_instance, fvb_virtual_notify_event}

-- The volume starts at a block of the device, and all its blocks lie on the device.
pub record IsPlaced (inst : NorFlashInstance) : Type 0 where
  pub base :
      inst.region_base_address ≡ inst.device_base_address + inst.start_lba * inst.media.block_size
  pub inside : (inst.start_lba + inst.blocks) * inst.media.block_size ≤ inst.size

-- The variable store starts on a block of the device and ends on the device, and the device's
-- addresses have 64 bits.
pub record Fits (pcds : Pcds) (device_base size block_size : ℕ) : Type 0 where
  pub positive : 0 < block_size
  pub aligned : variable_base pcds % block_size ≡ 0
  pub ends : variable_base pcds + fv_length pcds ≤ size
  pub addresses : device_base + size < u64

whole_blocks : (a b : ℕ) → 0 < b → a % b ≡ 0 → a / b * b ≡ a
whole_blocks a b h e = grind arith

blocks_le : (a b : ℕ) → 0 < b → a / b * b ≤ a
blocks_le a b h = grind arith

placed_ends : (v l b size : ℕ) → 0 < b → v % b ≡ 0 → v + l ≤ size → (v / b + l / b) * b ≤ size
placed_ends v l b size h e k = omega (arith, whole_blocks v b h e, blocks_le l b h)

start_exact : (v d : ℕ) → v + d < u64 → sub64 (add64 v d) d ≡ v
start_exact v d h = omega arith

placed_base :
    (v d b : ℕ) → 0 < b → v % b ≡ 0 → v + d < u64 → add64 v d ≡ d + sub64 (add64 v d) d / b * b
placed_base v d b pos e h =
    rw (start_exact v d h, whole_blocks v b pos e) (mod-eq_of_lt h ∙ add_comm v d)

-- If the variable store starts on a block of the device and ends on the device, and the addresses
-- of the device have 64 bits, NorFlashFvbInitialize places the volume at its start block of the
-- device with all its blocks on the device.
pub place_volume-IsPlaced :
    (pcds : Pcds) (inst : NorFlashInstance)
    → Fits pcds inst.device_base_address inst.size inst.media.block_size
    → IsPlaced (place_volume pcds inst)
unfolding place_volume
place_volume-IsPlaced pcds inst fits =
    let e = start_exact (variable_base pcds) inst.device_base_address (omega arith) in
    record {
      base =
          placed_base (variable_base pcds) inst.device_base_address inst.media.block_size
            fits.positive fits.aligned (omega arith);
      inside = rw e (
          placed_ends (variable_base pcds) (fv_length pcds) inst.media.block_size inst.size
            fits.positive fits.aligned fits.ends);
    }

-- The conversion moves the device's addresses all by the same distance.
abbrev pub Translates : (ℕ → ℕ) → ℕ → ℕ → Type 0
Translates convert start size = (x : ℕ) → x ≤ size → convert (start + x) ≡ convert start + x

-- If the virtual map moves the addresses of the device all by the same distance, the volume is
-- placed on the device and mFlashNvStorageVariableBase is its start, then behind the two notify
-- functions for the virtual map the volume is still placed on the device and the variable is still
-- its start.
pub convert_instance-IsPlaced :
    (convert : ℕ → ℕ) (inst : NorFlashInstance) (nv_base : ℕ)
    → Translates convert inst.device_base_address inst.size
    → IsPlaced inst
    → nv_base ≡ inst.region_base_address
    → IsPlaced (convert_instance convert inst)
      × (fvb_virtual_notify_event convert nv_base
          ≡ (convert_instance convert inst).region_base_address)
unfolding convert_instance fvb_virtual_notify_event
convert_instance-IsPlaced convert inst nv_base moved placed same = (
  record {
    base =
        ap convert placed.base
        ∙ moved (inst.start_lba * inst.media.block_size) (omega (arith, placed.inside));
    inside = placed.inside;
  },
  ap convert same,
)
