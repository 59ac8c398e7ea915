-- ===== src/Passthrough/Serve.antt =====
-- handle_request from the request to the response.

use odp_platform_radxa_orion.Common.{
  ℕ, suc, ◌+◌, ◌<◌, ◌≤◌, ◌≡◌, ◌≢◌, ◌∙◌, refl, ap, none, some, List, [], ◌∷◌, ◌++◌, arith, ne→==,
}
use odp_platform_radxa_orion.Common.Lists.{length, length-append, All}
use odp_platform_radxa_orion.Passthrough.{line_port, Line, Outcome, returned, ◌>>=◌, write, byte_at}
use odp_platform_radxa_orion.Passthrough.Request.{
  Ffa, CommandInfo, PassthroughService, Result, ok, err, invalid_parameters, find, frame, send_cmd,
  answer, handle_message, respond, handle_request,
}
use odp_platform_radxa_orion.Passthrough.Ends.{Ends, bind-Ends}
use odp_platform_radxa_orion.Passthrough.Answers.{
  Answered, HasSent, send_cmd-Ends, answer-Ends, respond-Ends,
}
use odp_platform_radxa_orion.Passthrough.Packets.{Packet, IsMessage, packet_bytes, wire, payloads}
use odp_platform_radxa_orion.Passthrough.Delivered.{on_line, receive-wire, length-wire}
use odp_platform_radxa_orion.Passthrough.Frame.{IsFfa, IsRequest, frame-IsRequest}

module _ {Message Payload Response : Type 0} (ffa : Ffa Message Payload Response) where
  -- The request is sent as one packet, and the call ends: a response is made of the payload of a
  -- message that was taken off the line.
  abbrev pub Serves :
      PassthroughService → CommandInfo → Message → Line → Outcome (Result Response) → Type 0
  Serves service c msg line call =
      (p : Packet) × IsRequest ffa service.destination_eid (ffa.payload msg) c.payload_len p
      × Ends (HasSent (packet_bytes p) line)
          (Answered ffa {A = Result Response} (λ q. ok (ffa.from_req_with_payload msg q))
            (packet_bytes p) line)
          call

  send_cmd-wire :
      (bytes sent rest : List ℕ) (ps : List Packet) (p : Payload)
      → IsMessage ps
      → length (payloads ps) ≤ 112
      → ffa.collect (payloads ps) ≡ some p
      → send_cmd ffa bytes (on_line sent (wire ps ++ rest))
        ≡ returned (ok p) (on_line (sent ++ bytes) rest)
  unfolding send_cmd write
  send_cmd-wire bytes sent rest ps p message room collected =
      rw
        (
          receive-wire (suc (length (wire ps ++ rest))) [] ps (sent ++ bytes) rest message
              (omega (arith, length-wire ps, length-append (wire ps) rest)) (omega (arith, room)),
          collected,
        )
        refl

  not_found :
      (cmd : ℕ) (cs : List CommandInfo) → All (λ c. c.command_code ≢ cmd) cs → find cmd cs ≡ none
  unfolding find
  not_found cmd [] h = refl
  not_found cmd (c ∷ cs) (ne, h) = rw (ne→== c.command_code cmd ne) (not_found cmd cs h)

  module _ (service : PassthroughService) (msg : Message) (cmd : ℕ)
      (known : ffa.u8_at (ffa.payload msg) 0 ≡ some cmd) where
    -- A supported request is framed and sent, and the answer is wrapped.
    handled :
        (c : CommandInfo) (line : Line) (bytes : List ℕ)
        → find cmd service.supported_commands ≡ some c
        → frame ffa service.destination_eid (ffa.payload msg) (c.payload_len + 1) ≡ some bytes
        → handle_request ffa service msg line
          ≡ (send_cmd ffa bytes line >>= answer ffa >>= respond ffa msg)
    unfolding handle_request handle_message
    handled c line bytes found framed =
        rw (handle_request, known, found, handle_message, framed) refl

    pub handle_request_unfound :
        (line : Line)
        → find cmd service.supported_commands ≡ none
        → handle_request ffa service msg line ≡ returned (err invalid_parameters) line
    unfolding handle_request
    handle_request_unfound line h = rw (handle_request, known, h) refl

    -- For a message whose first byte is the code of no command of the service, handle_request
    -- returns the error InvalidParameters, sends nothing and takes nothing off the line.
    handle_request_unsupported :
        (line : Line)
        → All (λ c. c.command_code ≢ cmd) service.supported_commands
        → handle_request ffa service msg line ≡ returned (err invalid_parameters) line
    handle_request_unsupported line h =
        handle_request_unfound line (not_found cmd service.supported_commands h)

    module _ (laws : IsFfa ffa) where
      -- With an odp_ffa that keeps its laws, for a message whose first byte is the code of a
      -- command of the service, of at most 60 bytes: handle_request ends on every line, and its
      -- loop does not run for ever on the bytes of the line. It has sent one packet and no other
      -- byte, also where it panics or waits for a byte: the packet of the request, for the
      -- service's entity, with the command and as many bytes of the message as the table has for
      -- the command. If it returns, it has taken a well-formed message of at most 256 payload
      -- bytes off the line, and the response holds the payload that odp_ffa makes of these bytes.
      pub handle_request-Serves :
          (c : CommandInfo) (line : Line)
          → find cmd service.supported_commands ≡ some c
          → c.payload_len ≤ 60
          → Serves service c msg line (handle_request ffa service msg line)
      handle_request-Serves c line found small =
          let (p, framed, request) =
            frame-IsRequest ffa laws service.destination_eid (ffa.payload msg) c.payload_len
              small in
          (
            p,
            request,
            rw (handled c line (packet_bytes p) found framed) (
                bind-Ends (HasSent (packet_bytes p) line)
                  (Answered ffa {A = Result Payload} ok (packet_bytes p) line)
                  (Answered ffa {A = Result Response} (λ q. ok (ffa.from_req_with_payload msg q))
                    (packet_bytes p) line)
                  (send_cmd ffa (packet_bytes p) line >>= answer ffa) (respond ffa msg)
                  (bind-Ends (HasSent (packet_bytes p) line)
                    (Answered ffa {A = Result Payload} ok (packet_bytes p) line)
                    (Answered ffa {A = Result Payload} ok (packet_bytes p) line)
                    (send_cmd ffa (packet_bytes p) line) (answer ffa)
                    (send_cmd-Ends ffa (packet_bytes p) line)
                    (answer-Ends ffa (packet_bytes p) line))
                  (respond-Ends ffa msg (packet_bytes p) line)),
          )

      -- With an odp_ffa that keeps its laws, for a message whose first byte is the code of a
      -- command of the service, of at most 60 bytes, and a line on which the controller sends a
      -- well-formed message with at most 112 payload bytes: handle_request returns a response
      -- whose payload starts with the payload bytes of the message's packets in order. It has sent
      -- the packet of the request and leaves what is behind the message on the line.
      pub handle_request-wire :
          (c : CommandInfo) (sent rest : List ℕ) (ps : List Packet)
          → find cmd service.supported_commands ≡ some c
          → c.payload_len ≤ 60
          → IsMessage ps
          → length (payloads ps) ≤ 112
          → (p : Packet) × IsRequest ffa service.destination_eid (ffa.payload msg) c.payload_len p
            × (q : Payload) × (handle_request ffa service msg (on_line sent (wire ps ++ rest))
                ≡ returned
                    (ok (ffa.from_req_with_payload msg q))
                    (on_line (sent ++ packet_bytes p) rest))
            × ((i : ℕ) → i < length (payloads ps) → ffa.u8_at q i ≡ some (byte_at (payloads ps) i))
      unfolding answer respond
      handle_request-wire c sent rest ps found small message room =
          let (p, framed, request) =
            frame-IsRequest ffa laws service.destination_eid (ffa.payload msg) c.payload_len
              small in
          let (q, collected, bytes) = laws.collected (payloads ps) room in
          (
            p,
            request,
            q,
            handled c (on_line sent (wire ps ++ rest)) (packet_bytes p) found framed
                ∙ ap (λ call. call >>= answer ffa >>= respond ffa msg)
                    (send_cmd-wire (packet_bytes p) sent rest ps q message room collected),
            bytes,
          )
