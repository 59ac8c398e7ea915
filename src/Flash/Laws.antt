-- ===== src/Flash/Laws.antt =====
-- What the driver may expect of NorFlashLib, through the bytes that the device holds: a call that
-- returns no error did what its name says at the bytes that its arguments name.
use odp_platform_radxa_orion.Common.{
  ℕ, ◌+◌, ◌-◌, ◌*◌, ◌<◌, ◌≡◌, false, ◌&&◌, ltb, leb, if◌then◌else◌, arith, le→leb, lt→ltb,
  add-sub_left,
}
use odp_platform_radxa_orion.Efi.{efi_error}
use odp_platform_radxa_orion.Flash.{Buffer, NorFlashInstance, NorFlashLib}

-- The byte at `x` after `n` bytes of `src` were copied to address `a` of `dst`.
abbrev pub copied : ℕ → ℕ → Buffer → Buffer → Buffer
copied a n src dst x = if leb a x && ltb x (a + n) then src (x - a) else dst x

-- A byte inside the range that was copied.
pub copied_inside : (a n i : ℕ) (src dst : Buffer) → i < n → copied a n src dst (a + i) ≡ src i
copied_inside a n i src dst h =
    rw (le→leb a (a + i) (omega arith), lt→ltb (a + i) (a + n) (omega arith), add-sub_left a i)

-- The byte at `x` after the `n` bytes from `a` on were erased: erased bits are ones.
abbrev pub erased : ℕ → ℕ → Buffer → Buffer
erased a n dst x = if leb a x && ltb x (a + n) then 255 else dst x

-- The offset on the device of the first byte of a block.
abbrev pub block_start : NorFlashInstance → ℕ → ℕ
block_start inst lba = lba * inst.media.block_size

-- The bits of a sticky-write device go from ones to zeros only, so a write is predicted where the
-- range is erased before it.
abbrev pub IsErased : Buffer → ℕ → ℕ → Type 0
IsErased bytes a n = (i : ℕ) → i < n → bytes (a + i) ≡ 255

pub record IsNorFlash {W : Type 0} (lib : NorFlashLib W) (contents : W → Buffer) : Type 0 where
  pub read_ok :
      (inst : NorFlashInstance) (lba offset n : ℕ) (buffer : Buffer) (w : W)
      → efi_error (lib.nor_flash_read inst lba offset n buffer w).0 ≡ false
      → (i : ℕ)
      → (lib.nor_flash_read inst lba offset n buffer w).1 i
        ≡ (if ltb i n then contents w (block_start inst lba + offset + i) else buffer i)
  pub read_keeps :
      (inst : NorFlashInstance) (lba offset n : ℕ) (buffer : Buffer) (w : W)
      → contents (lib.nor_flash_read inst lba offset n buffer w).2 ≡ contents w
  pub read_blocks_ok :
      (inst : NorFlashInstance) (lba n : ℕ) (buffer : Buffer) (w : W)
      → efi_error (lib.nor_flash_read_blocks inst lba n buffer w).0 ≡ false
      → (i : ℕ)
      → (lib.nor_flash_read_blocks inst lba n buffer w).1 i
        ≡ (if ltb i n then contents w (block_start inst lba + i) else buffer i)
  pub read_blocks_keeps :
      (inst : NorFlashInstance) (lba n : ℕ) (buffer : Buffer) (w : W)
      → contents (lib.nor_flash_read_blocks inst lba n buffer w).2 ≡ contents w
  pub write_ok :
      (inst : NorFlashInstance) (lba offset n : ℕ) (buffer : Buffer) (w : W)
      → efi_error (lib.nor_flash_write inst lba offset n buffer w).0 ≡ false
      → IsErased (contents w) (block_start inst lba + offset) n
      → (x : ℕ)
      → contents (lib.nor_flash_write inst lba offset n buffer w).1 x
        ≡ copied (block_start inst lba + offset) n buffer (contents w) x
  pub write_blocks_ok :
      (inst : NorFlashInstance) (lba n : ℕ) (buffer : Buffer) (w : W)
      → efi_error (lib.nor_flash_write_blocks inst lba n buffer w).0 ≡ false
      → IsErased (contents w) (block_start inst lba) n
      → (x : ℕ)
      → contents (lib.nor_flash_write_blocks inst lba n buffer w).1 x
        ≡ copied (block_start inst lba) n buffer (contents w) x
  pub erase_ok :
      (inst : NorFlashInstance) (lba n : ℕ) (w : W)
      → efi_error (lib.nor_flash_erase inst lba n w).0 ≡ false
      → (x : ℕ)
      → contents (lib.nor_flash_erase inst lba n w).1 x
        ≡ erased (block_start inst lba) n (contents w) x
