-- ===== src/Tests/Controller.antt =====
-- The services of the secure partition with a controller at the other end of the line.
use odp_platform_radxa_orion.Common.{
  ℕ, ◌<◌, ◌≤◌, ◌≡◌, refl, none, some, List, [], ◌∷◌, ltb, leb, if◌then◌else◌, arith, lt→ltb, le→leb,
}
use odp_platform_radxa_orion.Common.Lists.{length}
use odp_platform_radxa_orion.Passthrough.{
  line_port, returned, receive, byte_at, write, take_bytes, read, skip_bytes, packet_payload,
  extend, accept, accepted_len, read_body, round, next,
}
use odp_platform_radxa_orion.Passthrough.Request.{
  Ffa, CommandInfo, PassthroughService, ok, find, copy_bytes, headers, frame, send_cmd, answer,
  handle_message, respond, handle_request,
}
use odp_platform_radxa_orion.Passthrough.Ends.{Ends}
use odp_platform_radxa_orion.Common.Bits.{bit}
use odp_platform_radxa_orion.Passthrough.Packets.{Packet, IsMessage, packet_bytes, wire}
use odp_platform_radxa_orion.Passthrough.Accepted.{Kept}
use odp_platform_radxa_orion.Passthrough.Message.{Received, receive-Received}
use odp_platform_radxa_orion.Common.{◌↔◌}
use odp_platform_radxa_orion.Passthrough.Exactly.{receive_iff}
use odp_platform_radxa_orion.Passthrough.Delivered.{on_line}
use odp_platform_radxa_orion.Passthrough.Frame.{IsFfa, IsRequest, frame-IsRequest}
use odp_platform_radxa_orion.Passthrough.Serve.{Serves, handle_request-Serves}

-- Messages and payloads as lists of bytes, with zeros behind them up to the 112 bytes.
abbrev pub ffa : Ffa (List ℕ) (List ℕ) (List ℕ)
ffa = record {
  payload = λ msg. msg;
  u8_at = λ p i. if ltb i 112 then some (byte_at p i) else none;
  collect = λ bytes. if leb (length bytes) 112 then some bytes else none;
  from_req_with_payload = λ msg p. p;
}

register_byte_at : (p : List ℕ) (i : ℕ) → i < 112 → ffa.u8_at p i ≡ some (byte_at p i)
register_byte_at p i h = rw (lt→ltb i 112 h) refl

collect_all : (bytes : List ℕ) → length bytes ≤ 112 → ffa.collect bytes ≡ some bytes
collect_all bytes h = rw (le→leb (length bytes) 112 h) refl

pub ffa-IsFfa : IsFfa ffa
ffa-IsFfa = record {
  register_byte = λ p i h. (byte_at p i, register_byte_at p i h);
  collected =
      λ bytes h. (bytes, collect_all bytes h, λ i below. register_byte_at bytes i (omega arith));
}

-- SetBtp of the battery, with two bytes for the controller.
abbrev set_btp : CommandInfo
set_btp = record { command_code = 6; payload_len = 2 }

abbrev battery_service : PassthroughService
battery_service = record {
  destination_eid = 8;
  supported_commands = record { command_code = 1; payload_len = 1 } ∷ set_btp ∷ [];
}

abbrev pub request : List ℕ
request = 6 ∷ 44 ∷ 1 ∷ []

-- The controller's answer in two packets.
abbrev first_packet : Packet
first_packet = record {
  destination = 1;
  command = 0xF;
  source = 2;
  version = 1;
  destination_eid = 0x80;
  source_eid = 8;
  flags = 0x83;
  message_headers = 0x7D ∷ 0 ∷ 8 ∷ 0 ∷ 6 ∷ [];
  payload = 10 ∷ 20 ∷ [];
}

abbrev second_packet : Packet
second_packet = record {
  destination = 1;
  command = 0xF;
  source = 2;
  version = 1;
  destination_eid = 0x80;
  source_eid = 8;
  flags = 0x53;
  message_headers = [];
  payload = 30 ∷ [];
}

abbrev pub reply : List Packet
reply = first_packet ∷ second_packet ∷ []

pub reply-IsMessage : IsMessage reply
unfolding bit
reply-IsMessage = (
  record { headers = refl; fits = omega arith },
  refl,
  (record { headers = refl; fits = omega arith }, refl),
)

set_btp_found : find 6 battery_service.supported_commands ≡ some set_btp
unfolding find
set_btp_found = refl

-- The service answers with the payload of both packets.
served :
    handle_request ffa battery_service request (on_line [] (wire reply))
    ≡ returned
        (ok (10 ∷ 20 ∷ 30 ∷ []))
        (on_line (2 ∷ 15 ∷ 11 ∷ 1 ∷ 1 ∷ 8 ∷ 0x80 ∷ 0xD3 ∷ 0x7D ∷ 2 ∷ 8 ∷ 0 ∷ 6 ∷ 44 ∷ 1 ∷ []) [])
unfolding handle_request find handle_message frame copy_bytes headers send_cmd answer respond write
    take_bytes read skip_bytes packet_payload extend accept accepted_len read_body round next
    receive
served = refl

handle_request-Serves_example :
    Serves ffa battery_service set_btp request
      (on_line [] (wire reply))
      (handle_request ffa battery_service request (on_line [] (wire reply)))
handle_request-Serves_example =
    handle_request-Serves ffa battery_service request 6 refl ffa-IsFfa set_btp
      (on_line [] (wire reply)) set_btp_found (omega arith)

receive-Received_example :
    Ends
      (Kept (on_line [] (wire reply)))
      (Received [] (on_line [] (wire reply)))
      (receive 30 [] (on_line [] (wire reply)))
receive-Received_example = receive-Received 30 [] (on_line [] (wire reply)) (omega arith)

frame-IsRequest_example :
    (p : Packet) × (frame ffa 8 request 3 ≡ some (packet_bytes p)) × IsRequest ffa 8 request 2 p
frame-IsRequest_example = frame-IsRequest ffa ffa-IsFfa 8 request 2 (omega arith)

receive_iff_example :
    (receive 30 [] (on_line [] (wire reply)) ≡ returned (10 ∷ 20 ∷ 30 ∷ []) (on_line [] []))
    ↔ Received [] (on_line [] (wire reply)) (10 ∷ 20 ∷ 30 ∷ []) (on_line [] [])
receive_iff_example =
    receive_iff 30 [] (on_line [] (wire reply)) (omega arith) (10 ∷ 20 ∷ 30 ∷ []) (on_line [] [])
