-- ===== src/Fvb/Header/Memory.antt =====
-- Fields of the headers in memory: little-endian numbers at byte offsets of a buffer.
use odp_platform_radxa_orion.Common.{
  ℕ, zero, suc, ◌+◌, ◌-◌, ◌*◌, ◌/◌, ◌%◌, ◌^◌, ◌&&◌, ltb, leb, if◌then◌else◌,
}
use odp_platform_radxa_orion.Flash.{Buffer}

-- The field of `width` bytes at `offset`.
abbrev pub load : Buffer → ℕ → ℕ → ℕ
load buffer offset zero = 0
load buffer offset (suc width) = buffer offset + 256 * load buffer (offset + 1) width

-- An assignment to that field.
abbrev pub store : Buffer → ℕ → ℕ → ℕ → Buffer
store buffer offset width value x =
    if leb offset x && ltb x (offset + width) then value / 256 ^ (x - offset) % 256 else buffer x

-- A pointer into a buffer.
abbrev pub from : Buffer → ℕ → Buffer
from buffer offset i = buffer (offset + i)

-- What AllocateZeroPool returns.
abbrev pub zeros : Buffer
zeros x = 0
