-- ===== src/Fvb/Transfer/Contents.antt =====
-- What FvbRead and FvbWrite do to the bytes, over a flash that keeps its laws.
use native.Mathlib.Nat.{add-zero}
use odp_platform_radxa_orion.Common.{
  ℕ, ◌+◌, ◌-◌, ◌<◌, ◌≤◌, ◌≡◌, ◌⊎◌, inl, inr, min, false, arith, ltb, add64, if◌then◌else◌, ltb→le,
  refl, Bool,
}
use odp_platform_radxa_orion.Efi.{Status, success, error, efi_error}
use odp_platform_radxa_orion.Efi.{bad_buffer_size, device_error}
use odp_platform_radxa_orion.Flash.{Buffer, NorFlashInstance, NorFlashLib}
use odp_platform_radxa_orion.Flash.Laws.{IsNorFlash, IsErased, block_start, copied}
use odp_platform_radxa_orion.Fvb.Transfer.{
  Reading, Writing, fvb_read, fvb_write, read_part, read_block, write_part, write_block,
}
use odp_platform_radxa_orion.Fvb.Transfer.Branches.{
  IsBlockSize, fvb_read-part, fvb_read-block, fvb_write-part, fvb_write-block,
}

-- How many bytes of a request at an offset lie in the block.
abbrev pub in_block : ℕ → ℕ → ℕ → ℕ
in_block block_size offset n = min n (block_size - offset)

-- A request that the protocol serves as it is documented: it starts in the block, asks for at
-- least one byte and at most a block, and asks for the size of a block at the block's start only.
pub record IsRequest (block_size offset n : ℕ) : Type 0 where
  pub starts_in : offset < block_size
  pub some_bytes : 0 < n
  pub at_most_block : n ≤ block_size
  pub whole_at_start : n ≡ block_size → offset ≡ 0

-- The cases of a request: a part of a block, or a whole block.
pub request_cases : (bs offset n : ℕ) → IsRequest bs offset n → (n < bs) ⊎ ((n ≡ bs) × (offset ≡ 0))
request_cases bs offset n r = ground (arith, r.whole_at_start)

-- `m` bytes were read: the buffer holds the device's bytes from `a` on and is unchanged behind
-- them, and the device is unchanged.
pub record IsRead {W : Type 0} (contents : W → Buffer) (a m : ℕ) (buffer : Buffer) (w : W)
    (r : Reading W) : Type 0 where
  pub count : r.num_bytes ≡ m
  pub bytes : (i : ℕ) → r.buffer i ≡ (if ltb i m then contents w (a + i) else buffer i)
  pub device : contents r.world ≡ contents w

-- `m` bytes were written: the device holds the buffer's bytes from `a` on, and its other bytes
-- are unchanged.
pub record IsWritten {W : Type 0} (contents : W → Buffer) (a m : ℕ) (buffer : Buffer) (w : W)
    (r : Writing W) : Type 0 where
  pub count : r.num_bytes ≡ m
  pub device : (x : ℕ) → contents r.world x ≡ copied a m buffer (contents w) x

no_device_error :
    (s : Status)
    → (if efi_error s then error device_error else success) ≡ success
    → efi_error s ≡ false
no_device_error s h = ground arith

module _ {W : Type 0} (lib : NorFlashLib W) (contents : W → Buffer) (laws : IsNorFlash lib contents)
    (inst : NorFlashInstance) (buffer : Buffer) (w : W) where
  read_part-IsRead :
      (lba offset m : ℕ)
      → (read_part lib inst lba offset m buffer w).status ≡ success
      → IsRead contents
          (block_start inst lba + offset)
          m
          buffer
          w
          (read_part lib inst lba offset m buffer w)
  read_part-IsRead lba offset m ok = record {
    count = refl;
    bytes = laws.read_ok inst lba offset m buffer w (no_device_error _ ok);
    device = laws.read_keeps inst lba offset m buffer w;
  }

  read_block-IsRead :
      (lba m : ℕ)
      → (read_block lib inst lba m m buffer w).status ≡ success
      → IsRead contents (block_start inst lba + 0) m buffer w (read_block lib inst lba m m buffer w)
  read_block-IsRead lba m ok = record {
    count = refl;
    bytes = rw add-zero (laws.read_blocks_ok inst lba m buffer w (no_device_error _ ok));
    device = laws.read_blocks_keeps inst lba m buffer w;
  }

  write_part-IsWritten :
      (lba offset m : ℕ) (spaned : Bool)
      → efi_error (lib.nor_flash_write inst lba offset m buffer w).0 ≡ false
      → IsErased (contents w) (block_start inst lba + offset) m
      → IsWritten contents
          (block_start inst lba + offset)
          m
          buffer
          w
          (write_part lib inst lba offset m spaned buffer w)
  write_part-IsWritten lba offset m spaned ok blank = record {
    count = refl;
    device = laws.write_ok inst lba offset m buffer w ok blank;
  }

  write_block-IsWritten :
      (lba m : ℕ)
      → efi_error (lib.nor_flash_write_blocks inst lba m buffer w).0 ≡ false
      → IsErased (contents w) (block_start inst lba + 0) m
      → IsWritten contents
          (block_start inst lba + 0)
          m
          buffer
          w
          (write_block lib inst lba m m buffer w)
  write_block-IsWritten lba m ok blank = record {
    count = refl;
    device = rw add-zero (laws.write_blocks_ok inst lba m buffer w ok (rw add-zero at blank));
  }

-- The device offset that a request names.
abbrev pub target : NorFlashInstance → ℕ → ℕ → ℕ
target inst lba offset = block_start inst (add64 inst.start_lba lba) + offset

in_block_whole : (bs : ℕ) → in_block bs 0 bs ≡ bs
in_block_whole bs = omega arith

pub in_block_fits : (bs offset n : ℕ) → offset + n ≤ bs → in_block bs offset n ≡ n
in_block_fits bs offset n h = omega arith

unclipped :
    (s : Status) (c : Bool)
    → efi_error (if efi_error s then s else if c then error bad_buffer_size else s) ≡ false
    → (efi_error s ≡ false) × (c ≡ false)
unclipped s c h = ground arith

no_write_error :
    (s : Status)
    → efi_error (if efi_error s then error device_error else s) ≡ false
    → efi_error s ≡ false
no_write_error s h = ground arith

module _ {W : Type 0} (lib : NorFlashLib W) (contents : W → Buffer) (laws : IsNorFlash lib contents)
    (inst : NorFlashInstance) (size : IsBlockSize inst.media.block_size) (lba offset n : ℕ)
    (buffer : Buffer) (w : W) (request : IsRequest inst.media.block_size offset n) where
  -- Over a flash that keeps its laws, with blocks of 1 to 2^32 - 1 bytes: if FvbRead of a request
  -- that the protocol serves as documented returns EFI_SUCCESS, *NumBytes is the number of the
  -- request's bytes up to the end of the block, the buffer holds as many bytes of the device from
  -- the request's place on and is unchanged behind them, and the device is unchanged.
  pub fvb_read_success :
      (fvb_read lib inst lba offset n buffer w).status ≡ success
      → IsRead contents
          (target inst lba offset)
          (in_block inst.media.block_size offset n)
          buffer
          w
          (fvb_read lib inst lba offset n buffer w)
  fvb_read_success = elim (request_cases _ offset n request) [
    | inl part ↦
        rw
          (fvb_read-part lib inst lba offset n buffer w size request.starts_in request.some_bytes
            part)
          (read_part-IsRead lib contents laws inst buffer w _ _ _)
    | inr whole ↦
        rw (fvb_read-block lib inst lba offset n buffer w size request.starts_in whole.0) (
          rw (whole.1, whole.0, in_block_whole)
            (read_block-IsRead lib contents laws inst buffer w _ _))
  ]

  -- Over a flash that keeps its laws, with blocks of 1 to 2^32 - 1 bytes: if FvbWrite of a request
  -- that the protocol serves as documented, on a writable volume and to erased bytes, reports no
  -- error, the request did not run over the end of the block, *NumBytes is as it was, the device
  -- holds the buffer's bytes at the request's place, and its other bytes are as before.
  pub fvb_write_success :
      inst.media.read_only ≡ false
      → IsErased (contents w) (target inst lba offset) n
      → efi_error (fvb_write lib inst lba offset n buffer w).status ≡ false
      → (offset + n ≤ inst.media.block_size)
        × IsWritten contents
            (target inst lba offset)
            n
            buffer
            w
            (fvb_write lib inst lba offset n buffer w)
  fvb_write_success writable blank = elim (request_cases _ offset n request) [
    | inl part ↦
        rw
          (fvb_write-part lib inst lba offset n buffer w size writable request.starts_in
            request.some_bytes part)
          (λ h.
            let fits = ltb→le _ _ (unclipped _ _ h).1 in
            let e = in_block_fits _ _ _ fits in
            (
              fits,
              rw e (
                  write_part-IsWritten lib contents laws inst buffer w _ _ _ _
                    (rw e at (unclipped _ _ h).0) blank),
            ))
    | inr whole ↦
        rw (fvb_write-block lib inst lba offset n buffer w size writable request.starts_in whole.0)
          (rw (whole.1, whole.0)
            (λ h. (
              omega arith,
              write_block-IsWritten lib contents laws inst buffer w _ _ (no_write_error _ h)
                  (rw (whole.1, whole.0) at blank),
            )))
  ]
