-- ===== src/Passthrough/Packets.antt =====
-- The controller's packets, independently of the code that reads them: a message of MCTP over
-- SMBus is a sequence of packets, of which the last one alone has the end-of-message flag.
use odp_platform_radxa_orion.Common.{
  Bool, ◌==◌, ℕ, ◌+◌, ◌≤◌, ◌≡◌, true, false, List, [], ◌∷◌, ◌++◌, if◌then◌else◌,
}
use odp_platform_radxa_orion.Common.Lists.{length}
use odp_platform_radxa_orion.Common.Bits.{bit}

-- The digits of the flags: start of message has the weight 2^7, and end of message 2^6.
abbrev pub starts_message : ℕ → Bool
starts_message flags = bit flags 7 == 1

abbrev pub ends_message : ℕ → Bool
ends_message flags = bit flags 6 == 1

-- A packet's bytes except for its byte count. The headers of the message have 5 bytes.
pub record Packet : Type 0 where
  pub destination : ℕ
  pub command : ℕ
  pub source : ℕ
  pub version : ℕ
  pub destination_eid : ℕ
  pub source_eid : ℕ
  pub flags : ℕ
  pub message_headers : List ℕ
  pub payload : List ℕ

-- The byte count counts what stands behind the four bytes of the SMBus header.
abbrev pub byte_count : Packet → ℕ
byte_count p = 4 + length (p.message_headers ++ p.payload)

abbrev pub packet_bytes : Packet → List ℕ
packet_bytes p =
    p.destination
      ∷ p.command
      ∷ byte_count p
      ∷ p.source
      ∷ p.version
      ∷ p.destination_eid
      ∷ p.source_eid
      ∷ p.flags
      ∷ p.message_headers
    ++ p.payload

-- Headers of the message stand in the packet that starts it only, and a packet has 69 bytes at
-- most behind its SMBus header.
pub record IsPacket (p : Packet) : Type 0 where
  pub headers : length p.message_headers ≡ (if starts_message p.flags then 5 else 0)
  pub fits : byte_count p ≤ 69

-- A packet, and others behind it exactly if it does not end the message.
abbrev pub IsMessage : List Packet → Type 0
IsMessage [] = ⊥
IsMessage (p ∷ []) = IsPacket p × (ends_message p.flags ≡ true)
IsMessage (p ∷ q ∷ ps) = IsPacket p × (ends_message p.flags ≡ false) × IsMessage (q ∷ ps)

abbrev pub wire : List Packet → List ℕ
wire [] = []
wire (p ∷ ps) = packet_bytes p ++ wire ps

abbrev pub payloads : List Packet → List ℕ
payloads [] = []
payloads (p ∷ ps) = p.payload ++ payloads ps
