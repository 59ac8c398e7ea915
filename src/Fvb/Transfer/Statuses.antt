-- ===== src/Fvb/Transfer/Statuses.antt =====
-- The statuses of FvbRead and FvbWrite, against those that their comments list.
use odp_platform_radxa_orion.Common.{
  ℕ, ◌%◌, ◌≡◌, ◌≢◌, ◌⊎◌, inl, inr, refl, Bool, true, false, not, ◌==◌, ◌||◌, ltb, leb, arith,
  if◌then◌else◌, add64,
}
use odp_platform_radxa_orion.Efi.{Status, success, error, efi_error}
use odp_platform_radxa_orion.Efi.{bad_buffer_size, device_error, access_denied}
use odp_platform_radxa_orion.Flash.{Buffer, NorFlashInstance, NorFlashLib}
use odp_platform_radxa_orion.Fvb.Transfer.{
  Reading, Writing, clip, read_part, read_block, write_part, write_block, clip, fvb_read, fvb_write,
}

-- EFI_SUCCESS, EFI_BAD_BUFFER_SIZE or EFI_DEVICE_ERROR
abbrev pub IsReadStatus : Status → Type 0
IsReadStatus status =
    (status ≡ success) ⊎ ((status ≡ error bad_buffer_size) ⊎ (status ≡ error device_error))

-- No error, EFI_BAD_BUFFER_SIZE, EFI_ACCESS_DENIED or EFI_DEVICE_ERROR
abbrev pub IsWriteStatus : Status → Type 0
IsWriteStatus status =
    (efi_error status ≡ false)
    ⊎ ((status ≡ error bad_buffer_size)
        ⊎ ((status ≡ error access_denied) ⊎ (status ≡ error device_error)))

not_zero : (a : ℕ) → not (a == 0) ≡ true → a ≢ 0
not_zero a h = ground arith

module _ {W : Type 0} (lib : NorFlashLib W) (inst : NorFlashInstance) (lba offset n : ℕ)
    (buffer : Buffer) (w : W) where
  unfoldable ReadStatus : Reading W → Type 0
  ReadStatus r = IsReadStatus r.status

  -- The status of a write, or the error of the NorFlashWrite of a part of a block.
  unfoldable pub IsOwnOrLibrary : Writing W → Type 0
  IsOwnOrLibrary r =
      IsWriteStatus r.status
      ⊎ ((n % inst.media.block_size ≢ 0)
          × (r.status
              ≡ (lib.nor_flash_write inst (add64 inst.start_lba lba) offset r.num_bytes buffer
                  w).0))

  reported : (failed : Bool) → IsReadStatus (if failed then error device_error else success)
  reported true = inr (inr refl)
  reported false = inl refl

  read_part-ReadStatus :
      (n : ℕ) → ReadStatus (read_part lib inst (add64 inst.start_lba lba) offset n buffer w)
  unfolding ReadStatus
  read_part-ReadStatus n =
      reported (efi_error (lib.nor_flash_read inst (add64 inst.start_lba lba) offset n buffer w).0)

  read_block-ReadStatus :
      ReadStatus (read_block lib inst (add64 inst.start_lba lba) inst.media.block_size n buffer w)
  unfolding ReadStatus
  read_block-ReadStatus = reported (
      efi_error
        (lib.nor_flash_read_blocks inst (add64 inst.start_lba lba) inst.media.block_size buffer
          w).0)

  bad_read :
      (n : ℕ)
      → ReadStatus
          (record { status = error bad_buffer_size; num_bytes = n; buffer = buffer; world = w })
  unfolding ReadStatus
  bad_read n = inr (inl refl)

  read_branches :
      (refused empty part : Bool) (r1 r2 r3 r4 : Reading W)
      → ReadStatus r1
      → ReadStatus r2
      → ReadStatus r3
      → ReadStatus r4
      → ReadStatus (if refused then r1 else if empty then r2 else if part then r3 else r4)
  read_branches true empty part r1 r2 r3 r4 h1 h2 h3 h4 = h1
  read_branches false true part r1 r2 r3 r4 h1 h2 h3 h4 = h2
  read_branches false false true r1 r2 r3 r4 h1 h2 h3 h4 = h3
  read_branches false false false r1 r2 r3 r4 h1 h2 h3 h4 = h4

  fvb_read-ReadStatus : ReadStatus (fvb_read lib inst lba offset n buffer w)
  unfolding fvb_read
  fvb_read-ReadStatus =
      let block_size = inst.media.block_size in
      read_branches (leb block_size offset || ltb block_size n) (n == 0) (not (n % block_size == 0))
        _ _ _ _ (bad_read 0) (bad_read n)
        (read_part-ReadStatus (clip (ltb block_size (add64 offset n)) block_size offset n))
        read_block-ReadStatus

  own_or_library :
      (failed spaned : Bool) (status library : Status)
      → efi_error status ≡ failed
      → status ≡ library
      → n % inst.media.block_size ≢ 0
      → IsWriteStatus (if failed then status else if spaned then error bad_buffer_size else status)
        ⊎ ((n % inst.media.block_size ≢ 0)
            × ((if failed then status else if spaned then error bad_buffer_size else status)
                ≡ library))
  own_or_library true spaned status library e same part = inr (part, same)
  own_or_library false true status library e same part = inl (inr (inl refl))
  own_or_library false false status library e same part = inl (inl e)

  write_part-IsOwnOrLibrary :
      (m : ℕ) (spaned : Bool)
      → n % inst.media.block_size ≢ 0
      → IsOwnOrLibrary (write_part lib inst (add64 inst.start_lba lba) offset m spaned buffer w)
  unfolding IsOwnOrLibrary
  write_part-IsOwnOrLibrary m spaned part = own_or_library _ spaned _ _ refl refl part

  write_reported :
      (status : Status) (failed : Bool)
      → efi_error status ≡ failed
      → IsWriteStatus (if failed then error device_error else status)
  write_reported status true e = inr (inr (inr refl))
  write_reported status false e = inl e

  write_block-IsOwnOrLibrary :
      IsOwnOrLibrary
        (write_block lib inst (add64 inst.start_lba lba) inst.media.block_size n buffer w)
  unfolding IsOwnOrLibrary
  write_block-IsOwnOrLibrary = inl (write_reported _ _ refl)

  denied_write : IsOwnOrLibrary (record { status = error access_denied; num_bytes = n; world = w })
  unfolding IsOwnOrLibrary
  denied_write = inl (inr (inr (inl refl)))

  bad_write :
      (m : ℕ) → IsOwnOrLibrary (record { status = error bad_buffer_size; num_bytes = m; world = w })
  unfolding IsOwnOrLibrary
  bad_write m = inl (inr (inl refl))

  write_branches :
      (locked refused empty part : Bool) (r1 r2 r3 r4 r5 : Writing W)
      → IsOwnOrLibrary r1
      → IsOwnOrLibrary r2
      → IsOwnOrLibrary r3
      → (part ≡ true → IsOwnOrLibrary r4)
      → IsOwnOrLibrary r5
      → IsOwnOrLibrary (
          if locked
          then r1
          else if refused
          then r2
          else if empty
          then r3
          else if part
          then r4
          else r5)
  write_branches true refused empty part r1 r2 r3 r4 r5 h1 h2 h3 h4 h5 = h1
  write_branches false true empty part r1 r2 r3 r4 r5 h1 h2 h3 h4 h5 = h2
  write_branches false false true part r1 r2 r3 r4 r5 h1 h2 h3 h4 h5 = h3
  write_branches false false false true r1 r2 r3 r4 r5 h1 h2 h3 h4 h5 = h4 refl
  write_branches false false false false r1 r2 r3 r4 r5 h1 h2 h3 h4 h5 = h5

  fvb_write-IsOwnOrLibrary : IsOwnOrLibrary (fvb_write lib inst lba offset n buffer w)
  unfolding fvb_write
  fvb_write-IsOwnOrLibrary =
      let block_size = inst.media.block_size in
      let spaned = ltb block_size (add64 n offset) in
      write_branches inst.media.read_only (leb block_size offset || ltb block_size n) (n == 0)
        (not (n % block_size == 0)) _ _ _ _ _ denied_write (bad_write 0) (bad_write n)
        (λ part.
          write_part-IsOwnOrLibrary (clip spaned block_size offset n) spaned
            (not_zero (n % block_size) part))
        write_block-IsOwnOrLibrary

  -- FvbRead returns EFI_SUCCESS, EFI_BAD_BUFFER_SIZE or EFI_DEVICE_ERROR. FvbWrite returns no
  -- error, EFI_BAD_BUFFER_SIZE, EFI_ACCESS_DENIED or EFI_DEVICE_ERROR, or, where the number of
  -- bytes is no multiple of the block's size, the status of the call of NorFlashWrite for as many
  -- bytes as *NumBytes then counts.
  pub transfer_statuses :
      IsReadStatus (fvb_read lib inst lba offset n buffer w).status
      × IsOwnOrLibrary (fvb_write lib inst lba offset n buffer w)
  unfolding ReadStatus
  transfer_statuses = (fvb_read-ReadStatus, fvb_write-IsOwnOrLibrary)
