-- ===== src/Passthrough.antt =====
-- passthrough_service.rs and uart.rs of the secure services: a command is framed for the embedded
-- controller, sent over the UART, and the answer is put together from the controller's packets.
-- A call of Rust returns, panics, or waits for a byte that does not come.
pub mod Request
pub mod Services
pub mod Ends
pub mod Packets
pub mod Flags
pub mod Accepted
pub mod Received
pub mod Message
pub mod Delivered
pub mod Exactly
pub mod Frame
pub mod Answers
pub mod Serve
pub mod Tables
pub mod Partition
pub mod Uart
use odp_platform_radxa_orion.Common.{
  ℕ, zero, suc, ◌+◌, ◌*◌, Bool, true, false, not, ◌&&◌, Option, none, some, List, [], ◌∷◌, ◌++◌,
  ltb, leb, ◌==◌, if◌then◌else◌, bit_and,
}
use odp_platform_radxa_orion.Common.Lists.{length}

-- The constants of the headers, and the bytes of the 14 payload registers.
abbrev pub smbus_packet_header_bytes : ℕ
smbus_packet_header_bytes = 4

abbrev pub mctp_packet_header_bytes : ℕ
mctp_packet_header_bytes = 4

abbrev pub mctp_message_header_bytes : ℕ
mctp_message_header_bytes = 1

abbrev pub odp_message_header_bytes : ℕ
odp_message_header_bytes = 4

abbrev pub max_message_size_bytes : ℕ
max_message_size_bytes = 14 * 8

abbrev pub packet_header_bytes : ℕ
packet_header_bytes =
    smbus_packet_header_bytes + mctp_packet_header_bytes + mctp_message_header_bytes
    + odp_message_header_bytes

abbrev pub max_mctp_packet_len : ℕ
max_mctp_packet_len = 69

-- BUFSZ
abbrev pub bufsz : ℕ
bufsz = 256

abbrev pub soc_mctp_entity_id : ℕ
soc_mctp_entity_id = 0x80

-- The UART: the bytes that were sent, and those that the controller sends from now on.
pub record Line : Type 0 where
  pub sent : List ℕ
  pub incoming : List ℕ

-- How a call ends, with the state of the UART behind it. `stuck` is no end of the code: the loop
-- ran out of the rounds that it was given.
pub data Ending (S A : Type 0) : Type 0 where
  returned : A → S → Ending S A
  panicked : S → Ending S A
  waiting : S → Ending S A
  stuck : Ending S A

abbrev pub Outcome : Type 0 → Type 0
Outcome A = Ending Line A

infixl 5 ◌>>=◌
abbrev pub ◌>>=◌ : {S A B : Type 0} → Ending S A → (A → S → Ending S B) → Ending S B
returned a line >>= f = f a line
panicked line >>= f = panicked line
waiting line >>= f = waiting line
stuck >>= f = stuck

-- A panic where a computation without effects has no result.
abbrev pub or_panic : {S A : Type 0} → Option A → S → Ending S A
or_panic none line = panicked line
or_panic (some a) line = returned a line

-- The UART as the services use it: EcUart::write and EcUart::read, and the rounds that are given to
-- the loop of send_cmd.
pub record Port (S : Type 0) : Type 0 where
  pub put : List ℕ → S → Ending S (Unit {0})
  pub get : ℕ → S → Ending S (List ℕ)
  pub rounds : S → ℕ

-- EcUart::write
unfoldable pub write : List ℕ → Line → Line
write bytes line = record line { sent = line.sent ++ bytes }

-- The next so many bytes, and those behind them.
unfoldable pub take_bytes : ℕ → List ℕ → Option (List ℕ × List ℕ)
take_bytes zero bytes = some ([], bytes)
take_bytes (suc n) [] = none
take_bytes (suc n) (b ∷ bytes) = elim (take_bytes n bytes) [
  | none ↦ none
  | some (front, rest) ↦ some (b ∷ front, rest)
]

-- EcUart::read fills a buffer of `n` bytes.
unfoldable pub read : ℕ → Line → Outcome (List ℕ)
read n line = elim (take_bytes n line.incoming) [
  | none ↦ waiting (record line { incoming = [] })
  | some (front, rest) ↦ returned front (record line { incoming = rest })
]

-- The line as a port. Each round of the loop takes four bytes at least.
instance abbrev pub line_port : Port Line
line_port = record {
  put = λ bytes line. returned tt (write bytes line);
  get = read;
  rounds = λ line. suc (length line.incoming);
}

-- A byte of a buffer that is given by its first bytes and zero behind them.
abbrev pub byte_at : List ℕ → ℕ → ℕ
byte_at [] i = 0
byte_at (b ∷ bytes) zero = b
byte_at (b ∷ bytes) (suc i) = byte_at bytes i

-- The start-of-message and end-of-message flags of a packet.
abbrev pub is_start : ℕ → Bool
is_start flags = not (bit_and flags 0x80 == 0)

abbrev pub is_end : ℕ → Bool
is_end flags = not (bit_and flags 0x40 == 0)

-- Where the payload of a packet starts: only the first packet of a message has the other headers.
abbrev pub payload_start : ℕ → ℕ
payload_start flags =
    smbus_packet_header_bytes
    + mctp_packet_header_bytes
    + (if is_start flags then mctp_message_header_bytes + odp_message_header_bytes else 0)

-- The bytes behind the first `n`.
unfoldable pub skip_bytes : ℕ → List ℕ → Option (List ℕ)
skip_bytes zero bytes = some bytes
skip_bytes (suc n) [] = none
skip_bytes (suc n) (b ∷ bytes) = skip_bytes n bytes

-- `&buffer[packet_payload_start_index..len + SMBUS_PACKET_HEADER_BYTES]`, of a packet's bytes.
unfoldable pub packet_payload : List ℕ → Option (List ℕ)
packet_payload bytes = skip_bytes (payload_start (byte_at bytes 7)) bytes

-- `out_buf[out_len..out_slice.len() + out_len].copy_from_slice(out_slice)`
unfoldable pub extend : List ℕ → List ℕ → Option (List ℕ)
extend out slice = if leb (length out + length slice) bufsz then some (out ++ slice) else none

-- What is done with a packet that was read: the bytes so far, and whether the message ends.
unfoldable pub accept : List ℕ → List ℕ → Option (Bool × List ℕ)
accept out bytes = elim (packet_payload bytes) [
  | none ↦ none
  | some slice ↦ elim (extend out slice) [
    | none ↦ none
    | some more ↦ some (is_end (byte_at bytes 7), more)
  ]
]

-- `(MCTP_PACKET_HEADER_BYTES..=MAX_MCTP_PACKET_LEN).contains(&len)`
unfoldable pub accepted_len : ℕ → Bool
accepted_len len = leb mctp_packet_header_bytes len && leb len max_mctp_packet_len

module _ {S : Type 0} ⦃port : Port S⦄ where
  -- The rest of a round, behind the SMBus header.
  unfoldable pub read_body : List ℕ → List ℕ → S → Ending S (Bool × List ℕ)
  read_body out header s =
      if accepted_len (byte_at header 2)
      then (port.get (byte_at header 2) s >>= λ body. or_panic (accept out (header ++ body)))
      else panicked s

  -- One round of the loop of send_cmd.
  unfoldable pub round : List ℕ → S → Ending S (Bool × List ℕ)
  round out s = port.get smbus_packet_header_bytes s >>= read_body out

  -- The loop's end or next round.
  unfoldable pub next : (List ℕ → S → Ending S (List ℕ)) → Bool × List ℕ → S → Ending S (List ℕ)
  next again (true, out) s = returned out s
  next again (false, out) s = again out s

  -- The loop of send_cmd, in at most so many rounds.
  unfoldable pub receive : ℕ → List ℕ → S → Ending S (List ℕ)
  receive zero out s = stuck
  receive (suc fuel) out s = round out s >>= next (receive fuel)
