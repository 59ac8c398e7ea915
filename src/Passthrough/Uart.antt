-- ===== src/Passthrough/Uart.antt =====
-- uart.rs down to its accesses of the two registers. The device behind them is a parameter: an
-- access may change its state. `none` is no end of the code: a loop ran out of the rounds that it
-- was given.
pub mod Bytes
pub mod Refine
pub mod Related
pub mod Session
use odp_platform_radxa_orion.Passthrough.{Ending, returned, waiting, Port}
use odp_platform_radxa_orion.Common.{
  ℕ, zero, suc, ◌%◌, ◌^◌, Bool, true, false, not, ◌==◌, bit_and, Option, none, some, List, [], ◌∷◌,
}

-- Reads of UART_FR and UART_DR, and a write of UART_DR.
pub record Registers (S : Type 0) : Type 0 where
  pub read_fr : S → ℕ × S
  pub read_dr : S → ℕ × S
  pub write_dr : ℕ → S → S

-- `FR & (1 << 5) != 0` and `FR & (1 << 4) != 0`
abbrev pub is_full : ℕ → Bool
is_full flags = not (bit_and flags (2 ^ 5) == 0)

abbrev pub is_empty : ℕ → Bool
is_empty flags = not (bit_and flags (2 ^ 4) == 0)

module _ {S : Type 0} (uart : Registers S) where
  -- The loop that reads the flags while one of them is set.
  unfoldable pub poll : (ℕ → Bool) → ℕ → S → Option S
  poll flag zero s = none
  poll flag (suc rounds) s = elim (flag (uart.read_fr s).0) [
    | true ↦ poll flag rounds (uart.read_fr s).1
    | false ↦ some (uart.read_fr s).1
  ]

  -- EcUart::write_byte
  unfoldable pub write_byte : ℕ → ℕ → S → Option S
  write_byte rounds c s = elim (poll is_full rounds s) [
    | none ↦ none
    | some ready ↦ some (uart.write_dr c ready)
  ]

  -- EcUart::read_byte; the cast to `u8` keeps the low eight bits.
  unfoldable pub read_byte : ℕ → S → Option (ℕ × S)
  read_byte rounds s = elim (poll is_empty rounds s) [
    | none ↦ none
    | some ready ↦ some ((uart.read_dr ready).0 % 2 ^ 8, (uart.read_dr ready).1)
  ]

  -- EcUart::write
  unfoldable pub write_bytes : ℕ → List ℕ → S → Option S
  write_bytes rounds [] s = some s
  write_bytes rounds (c ∷ cs) s = elim (write_byte rounds c s) [
    | none ↦ none
    | some left ↦ write_bytes rounds cs left
  ]

  -- EcUart::read, of a buffer with so many bytes.
  unfoldable pub read_bytes : ℕ → ℕ → S → Option (List ℕ × S)
  read_bytes rounds zero s = some ([], s)
  read_bytes rounds (suc n) s = elim (read_byte rounds s) [
    | none ↦ none
    | some (b, left) ↦ elim (read_bytes rounds n left) [
      | none ↦ none
      | some (bs, end) ↦ some (b ∷ bs, end)
    ]
  ]

-- A write or a read that takes more rounds than it is given waits; the state is then that before it,
-- as what it has done of its bytes is not kept.
abbrev pub to_write : {S : Type 0} → S → Option S → Ending S (Unit {0})
to_write s none = waiting s
to_write s (some left) = returned tt left

abbrev pub to_read : {S A : Type 0} → S → Option (A × S) → Ending S A
to_read s none = waiting s
to_read s (some (a, left)) = returned a left

-- The registers as a port, with the rounds that are given to each wait for a flag and to the loop of
-- send_cmd.
abbrev pub registers_port : {S : Type 0} → Registers S → ℕ → (S → ℕ) → Port S
registers_port uart waits loop_rounds = record {
  put = λ bytes s. to_write s (write_bytes uart waits bytes s);
  get = λ n s. to_read s (read_bytes uart waits n s);
  rounds = loop_rounds;
}
