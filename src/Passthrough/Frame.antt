-- ===== src/Passthrough/Frame.antt =====
-- The packet that handle_message sends for a request.
use native.Mathlib.Nat.{mod-eq_of_lt}
use odp_platform_radxa_orion.Common.{
  ℕ, zero, suc, ◌+◌, ◌-◌, ◌%◌, ◌<◌, ◌≤◌, ◌≡◌, ◌∙◌, refl, ap, true, some, List, [], ◌∷◌, ◌++◌, arith,
  lt→ltb,
}
use odp_platform_radxa_orion.Common.Bits.{bit}
use odp_platform_radxa_orion.Common.Lists.{length}
use odp_platform_radxa_orion.Passthrough.{byte_at}
use odp_platform_radxa_orion.Passthrough.Request.{Ffa, copy_bytes, headers, frame}
use odp_platform_radxa_orion.Passthrough.Packets.{
  starts_message, ends_message, Packet, IsPacket, packet_bytes,
}
use odp_platform_radxa_orion.Passthrough.Delivered.{take_bytes_all}

-- What the service may expect of odp_ffa: a payload has the bytes of 14 registers of 8 bytes, and
-- one that is made of at most as many bytes starts with them.
pub record IsFfa {Message Payload Response : Type 0} (ffa : Ffa Message Payload Response)
    : Type 0 where
  pub register_byte : (p : Payload) (i : ℕ) → i < 112 → (b : ℕ) × (ffa.u8_at p i ≡ some b)
  pub collected :
      (bytes : List ℕ)
      → length bytes ≤ 112
      → (p : Payload) × (ffa.collect bytes ≡ some p)
        × ((i : ℕ) → i < length bytes → ffa.u8_at p i ≡ some (byte_at bytes i))

add_sub_one : (n : ℕ) → n + 1 - 1 ≡ n
add_sub_one n = omega arith

module _ {Message Payload Response : Type 0} (ffa : Ffa Message Payload Response) where
  -- The bytes of a payload from the i-th on.
  abbrev pub AreBytes : Payload → ℕ → List ℕ → Type 0
  AreBytes payload i [] = Unit
  AreBytes payload i (b ∷ bs) = (ffa.u8_at payload i ≡ some b) × AreBytes payload (suc i) bs

  -- A packet that is a message of its own, from the SoC (entity 0x80) to a service, with the
  -- request's command in its headers and `n` bytes of the request behind them.
  pub record IsRequest (eid : ℕ) (payload : Payload) (n : ℕ) (p : Packet) : Type 0 where
    pub packet : IsPacket p
    pub starts : starts_message p.flags ≡ true
    pub ends : ends_message p.flags ≡ true
    pub destination : p.destination_eid ≡ eid
    pub source : p.source_eid ≡ 0x80
    pub command :
        (cmd : ℕ) × (ffa.u8_at payload 0 ≡ some cmd)
        × (p.message_headers ≡ 0x7D ∷ 2 ∷ eid ∷ 0 ∷ cmd ∷ [])
    pub count : length p.payload ≡ n
    pub bytes : AreBytes payload 1 p.payload

  module _ (laws : IsFfa ffa) where
    copy_bytes_lem :
        (payload : Payload) (i n : ℕ)
        → i + n ≤ 112
        → (bs : List ℕ) × (copy_bytes ffa payload i n ≡ some bs)
          × (length bs ≡ n)
          × AreBytes payload i bs
    unfolding copy_bytes
    copy_bytes_lem payload i zero h = ([], refl, refl, tt)
    copy_bytes_lem payload i (suc n) h =
        let (b, e) = laws.register_byte payload i (omega arith) in
        let (bs, copied, l, are) = copy_bytes_lem payload (suc i) n (omega arith) in
        (b ∷ bs, rw (lt→ltb (i + 12) 125 (omega arith), e, copied) refl, omega arith, (e, are))

    count_byte :
        (n l : ℕ) → l ≡ n → n ≤ 60 → (8 + (n + 1)) % 256 ≡ 4 + suc (suc (suc (suc (suc l))))
    count_byte n l e h = mod-eq_of_lt {n = 8 + (n + 1)} {m = 256} (omega arith) ∙ omega arith

    frame_bytes :
        (eid : ℕ) (payload : Payload) (n cmd : ℕ) (bs : List ℕ)
        → ffa.u8_at payload 0 ≡ some cmd
        → copy_bytes ffa payload 1 n ≡ some bs
        → length bs ≡ n
        → frame ffa eid payload (n + 1) ≡ some (headers ffa eid (n + 1) cmd ++ bs)
    unfolding frame headers
    frame_bytes eid payload n cmd bs e copied l =
        rw
          (
            frame,
            e,
            add_sub_one n,
            copied,
            take_bytes_all (13 + (n + 1) - 1) (headers ffa eid (n + 1) cmd ++ bs) (omega arith),
          )
          refl

    -- With an odp_ffa that keeps its laws, the bytes that handle_message makes of a message, for a
    -- length of at most 61, are those of a well-formed packet: it starts and ends its message,
    -- goes from entity 0x80 to the service's, has the command in the last of its five message
    -- headers, and as payload the bytes of the message from the second on, one less than the
    -- length; the byte count of the packet counts what is behind its SMBus header.
    pub frame-IsRequest :
        (eid : ℕ) (payload : Payload) (n : ℕ)
        → n ≤ 60
        → (p : Packet) × (frame ffa eid payload (n + 1) ≡ some (packet_bytes p))
          × IsRequest eid payload n p
    unfolding frame headers bit
    frame-IsRequest eid payload n h =
        let (cmd, e) = laws.register_byte payload 0 (omega arith) in
        let (bs, copied, l, are) = copy_bytes_lem payload 1 n (omega arith) in
        (
          record {
            destination = 0x2;
            command = 0xF;
            source = 0x1;
            version = 0x1;
            destination_eid = eid;
            source_eid = 0x80;
            flags = 0xD3;
            message_headers = 0x7D ∷ 2 ∷ eid ∷ 0 ∷ cmd ∷ [];
            payload = bs;
          },
          frame_bytes eid payload n cmd bs e copied l
              ∙ ap (λ t. some (2 ∷ 15 ∷ t ∷ 1 ∷ 1 ∷ eid ∷ 128 ∷ 211 ∷ 125 ∷ 2 ∷ eid ∷ 0 ∷ cmd ∷ bs))
                  (count_byte n (length bs) l h),
          record {
            packet = record { headers = refl; fits = omega arith };
            starts = refl;
            ends = refl;
            destination = refl;
            source = refl;
            command = (cmd, e, refl);
            count = l;
            bytes = are;
          },
        )
