-- ===== src/Fvb/Header/Environment.antt =====
-- What the headers depend on and the repository does not hold: the platform's PCDs, the GUIDs,
-- and the calls of BaseLib, BaseMemoryLib and MemoryAllocationLib.
use odp_platform_radxa_orion.Common.{
  ℕ, zero, suc, ◌+◌, ◌-◌, ◌*◌, ◌%◌, ◌^◌, ◌<◌, ◌≡◌, ◌↔◌, Bool, true,
}
use odp_platform_radxa_orion.Flash.{Buffer}
use odp_platform_radxa_orion.Flash.Laws.{copied}
use odp_platform_radxa_orion.Fvb.Header.Memory.{load}

-- The PCDs of the variable store: sizes and 32-bit bases by PcdGet32, 64-bit bases by PcdGet64.
pub record Pcds : Type 0 where
  pub variable_size : ℕ
  pub ftw_working_size : ℕ
  pub ftw_spare_size : ℕ
  pub variable_base64 : ℕ
  pub variable_base : ℕ
  pub ftw_working_base64 : ℕ
  pub ftw_working_base : ℕ
  pub ftw_spare_base64 : ℕ
  pub ftw_spare_base : ℕ

-- gEfiSystemNvDataFvGuid, gEfiVariableGuid and gEfiAuthenticatedVariableGuid, of 16 bytes each
pub record Guids : Type 0 where
  pub system_nv_data_fv : Buffer
  pub variable : Buffer
  pub authenticated_variable : Buffer

-- CopyGuid writes at a byte offset of a buffer.
pub record BaseLib : Type 0 where
  pub calculate_sum16 : Buffer → ℕ → ℕ
  pub calculate_check_sum16 : Buffer → ℕ → ℕ
  pub compare_guid : Buffer → Buffer → Bool
  pub copy_guid : Buffer → ℕ → Buffer → Buffer

-- AllocateZeroPool tells whether it returned a buffer; FreePool returns it.
pub record PoolLib (W : Type 0) : Type 0 where
  pub allocate_zero_pool : ℕ → W → Bool × W
  pub free_pool : W → W

-- The sum of the first `n` 16-bit words of a buffer.
unfoldable pub word_sum : Buffer → ℕ → ℕ
word_sum buffer zero = 0
word_sum buffer (suc n) = word_sum buffer n + load buffer (2 * n) 2

-- What the libraries document: the sum of the words modulo 2^16, its two's complement, and the
-- comparison and the copy of the 16 bytes of a GUID.
pub record IsBaseLib (base : BaseLib) : Type 0 where
  pub sum16 :
      (buffer : Buffer) (n : ℕ) → base.calculate_sum16 buffer (2 * n) ≡ word_sum buffer n % 2 ^ 16
  pub check_sum16 :
      (buffer : Buffer) (n : ℕ)
      → base.calculate_check_sum16 buffer n ≡ (2 ^ 16 - base.calculate_sum16 buffer n) % 2 ^ 16
  pub compare : (a b : Buffer) → (base.compare_guid a b ≡ true) ↔ ((i : ℕ) → i < 16 → a i ≡ b i)
  pub copy :
      (buffer : Buffer) (offset : ℕ) (guid : Buffer) (x : ℕ)
      → base.copy_guid buffer offset guid x ≡ copied offset 16 guid buffer x

-- The pool is not the flash.
pub record IsPoolLib {W : Type 0} (pool : PoolLib W) (contents : W → Buffer) : Type 0 where
  pub allocate_keeps : (n : ℕ) (w : W) → contents (pool.allocate_zero_pool n w).1 ≡ contents w
  pub free_keeps : (w : W) → contents (pool.free_pool w) ≡ contents w
