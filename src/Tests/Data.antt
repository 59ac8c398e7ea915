-- ===== src/Tests/Data.antt =====
-- A flash in memory, libraries that do what BaseLib and the pool document, and the board's
-- volume: three areas of 0x28000 bytes from 0x380000 on, in blocks of 4 KB.

use odp_platform_radxa_orion.Common.{
  ℕ, zero, suc, ◌+◌, ◌-◌, ◌*◌, ◌/◌, ◌%◌, ◌^◌, ◌<◌, ◌≡◌, ◌⊎◌, inl, inr, ==→eq, Bool, true, false,
  ◌&&◌, ◌==◌, some, refl, arith, ltb, if◌then◌else◌,
}
use odp_platform_radxa_orion.Efi.{success}
use odp_platform_radxa_orion.Flash.{Buffer, NorFlashInstance, NorFlashLib, Media, media_at}
use odp_platform_radxa_orion.Flash.Laws.{IsNorFlash, block_start, copied, erased}
use odp_platform_radxa_orion.Fvb.Header.Environment.{
  Pcds, Guids, BaseLib, IsBaseLib, PoolLib, IsPoolLib, word_sum,
}
use odp_platform_radxa_orion.DiskIo.{Division, IsDivision}

-- The flash is its bytes.
abbrev pub flash : NorFlashLib Buffer
flash = record {
  nor_flash_read = λ inst lba offset n buffer w.
      (success, (λ i. if ltb i n then w (block_start inst lba + offset + i) else buffer i), w);
  nor_flash_write =
      λ inst lba offset n buffer w. (success, copied (block_start inst lba + offset) n buffer w);
  nor_flash_read_blocks = λ inst lba n buffer w.
      (success, (λ i. if ltb i n then w (block_start inst lba + i) else buffer i), w);
  nor_flash_write_blocks =
      λ inst lba n buffer w. (success, copied (block_start inst lba) n buffer w);
  nor_flash_erase = λ inst lba n w. (success, erased (block_start inst lba) n w);
  nor_flash_reset = λ inst w. (success, w);
}

abbrev pub contents : Buffer → Buffer
contents w = w

pub flash-IsNorFlash : IsNorFlash flash contents
flash-IsNorFlash = record {
  read_ok = λ inst lba offset n buffer w ok i. refl;
  read_keeps = λ inst lba offset n buffer w. refl;
  read_blocks_ok = λ inst lba n buffer w ok i. refl;
  read_blocks_keeps = λ inst lba n buffer w. refl;
  write_ok = λ inst lba offset n buffer w ok blank x. refl;
  write_blocks_ok = λ inst lba n buffer w ok blank x. refl;
  erase_ok = λ inst lba n w ok x. refl;
}

-- The first `n` bytes of two buffers are the same.
abbrev pub same_bytes : ℕ → Buffer → Buffer → Bool
same_bytes zero a b = true
same_bytes (suc n) a b = a n == b n && same_bytes n a b

same_bytes-true : (n : ℕ) (a b : Buffer) → ((i : ℕ) → i < n → a i ≡ b i) → same_bytes n a b ≡ true
same_bytes-true zero a b h = refl
same_bytes-true (suc n) a b h =
    ground (arith, h n (omega arith), same_bytes-true n a b (λ i k. h i (omega arith)))

suc_cases : (i n : ℕ) → i < suc n → (i ≡ n) ⊎ (i < n)
suc_cases i n h = ground arith

and_left : (a b : Bool) → (a && b) ≡ true → a ≡ true
and_left a b h = ground arith

and_right : (a b : Bool) → (a && b) ≡ true → b ≡ true
and_right a b h = ground arith

same_bytes-same : (n : ℕ) (a b : Buffer) → same_bytes n a b ≡ true → (i : ℕ) → i < n → a i ≡ b i
same_bytes-same zero a b h i k = absurd (omega arith)
same_bytes-same (suc n) a b h i k = elim (suc_cases i n k) [
  | inl e ↦ rw e (==→eq (a n) (b n) (and_left _ _ h))
  | inr less ↦ same_bytes-same n a b (and_right _ _ h) i less
]

abbrev pub base : BaseLib
base = record {
  calculate_sum16 = λ buffer n. word_sum buffer (n / 2) % 2 ^ 16;
  calculate_check_sum16 = λ buffer n. (2 ^ 16 - word_sum buffer (n / 2) % 2 ^ 16) % 2 ^ 16;
  compare_guid = same_bytes 16;
  copy_guid = λ buffer offset guid. copied offset 16 guid buffer;
}

half : (n : ℕ) → 2 * n / 2 ≡ n
half n = omega arith

pub base-IsBaseLib : IsBaseLib base
base-IsBaseLib = record {
  sum16 = λ buffer n. rw (half n) refl;
  check_sum16 = λ buffer n. refl;
  compare = λ a b. (same_bytes-same 16 a b, same_bytes-true 16 a b);
  copy = λ buffer offset guid x. refl;
}

abbrev pub pool : PoolLib Buffer
pool = record { allocate_zero_pool = λ n w. (true, w); free_pool = λ w. w }

pub pool-IsPoolLib : IsPoolLib pool contents
pool-IsPoolLib = record { allocate_keeps = λ n w. refl; free_keeps = λ w. refl }

abbrev pub guids : Guids
guids = record {
  system_nv_data_fv = λ i. i + 0x10;
  variable = λ i. i + 0x40;
  authenticated_variable = λ i. i + 0x70;
}

abbrev pub divide : Division
divide n d = (n / d, n % d)

quotient_parts : (n d : ℕ) → 0 < d → n / d * d + n % d ≡ n
quotient_parts n d h = grind arith

remainder_lt : (n d : ℕ) → 0 < d → n % d < d
remainder_lt n d h = grind arith

pub divide-IsDivision : IsDivision divide
divide-IsDivision = record { parts = quotient_parts; remainder = remainder_lt }

-- The PCDs of the board's variable store.
abbrev pub pcds : Pcds
pcds = record {
  variable_size = 0x28000;
  ftw_working_size = 0x28000;
  ftw_spare_size = 0x28000;
  variable_base64 = 0;
  variable_base = 0x380000;
  ftw_working_base64 = 0;
  ftw_working_base = 0x3A8000;
  ftw_spare_base64 = 0;
  ftw_spare_base = 0x3D0000;
}

abbrev pub media : Media
media = record {
  media_id = 0;
  removable_media = false;
  media_present = true;
  logical_partition = false;
  read_only = false;
  write_caching = false;
  block_size = 0x1000;
  io_align = 4;
  last_block = 0x7FF;
  lowest_aligned_lba = 0;
  logical_blocks_per_physical_block = 1;
}

abbrev pub volume : NorFlashInstance
volume = record {
  media_address = 0x6000;
  device_base_address = 0;
  size = 0x800000;
  shadow_buffer = some 0x2000;
  media = media;
  block_io_protocol = record {
    media = media_at 0x6000;
    reset = 1;
    read_blocks = 2;
    write_blocks = 3;
    flush_blocks = 4;
  };
  disk_io_protocol = record { read_disk = 5; write_disk = 6 };
  device_path_guid = 7;
  device_path_index = 0;
  access_info = record { base_address = 0; dma_base_address = 0; size = 0; remapped_offset = 0 };
  region_base_address = 0x380000;
  blocks = 120;
  start_lba = 0x380;
  fvb_protocol = record {
    get_attributes = 8;
    set_attributes = 9;
    get_physical_address = 10;
    get_block_size = 11;
    read = 12;
    write = 13;
    erase_blocks = 14;
  };
}

-- The volume with its medium read-only, and with no medium yet.
abbrev pub locked : NorFlashInstance
locked = record volume { media = record media { read_only = true } }

-- Flash that was erased.
abbrev pub blank : Buffer
blank x = 255

-- Some bytes to write.
abbrev pub text : Buffer
text i = 0x41 + i
