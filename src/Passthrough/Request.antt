-- ===== src/Passthrough/Request.antt =====
-- handle_request and handle_message of PassthroughService, and send_cmd behind its loop. The
-- messages of FF-A belong to the crate odp_ffa, which is a parameter.
use odp_platform_radxa_orion.Common.{
  ℕ, zero, suc, ◌+◌, ◌-◌, ◌%◌, Option, none, some, List, [], ◌∷◌, ◌++◌, ltb, ◌==◌, if◌then◌else◌,
}
use odp_platform_radxa_orion.Passthrough.{
  Port, Ending, returned, panicked, ◌>>=◌, or_panic, take_bytes, receive, max_message_size_bytes,
  packet_header_bytes, soc_mctp_entity_id,
}

-- The only ErrorCode that the service makes itself.
pub data ErrorCode : Type 0 where
  invalid_parameters : ErrorCode

pub data Result (A : Type 0) : Type 0 where
  ok : A → Result A
  err : ErrorCode → Result A

-- MsgSendDirectReq2, DirectMessagePayload and MsgSendDirectResp2. Where there is no byte, or the
-- bytes are too many, the calls panic.
pub record Ffa (Message Payload Response : Type 0) : Type 0 where
  pub payload : Message → Payload
  pub u8_at : Payload → ℕ → Option ℕ
  pub collect : List ℕ → Option Payload
  pub from_req_with_payload : Message → Payload → Response

pub record CommandInfo : Type 0 where
  pub command_code : ℕ
  pub payload_len : ℕ

-- CommandInfo::new, which panics where the payload is too large.
unfoldable pub new_command_info : ℕ → ℕ → Option CommandInfo
new_command_info code len =
    if ltb max_message_size_bytes len
    then none
    else some (record { command_code = code; payload_len = len })

pub record PassthroughService : Type 0 where
  pub destination_eid : ℕ
  pub supported_commands : List CommandInfo

-- `.iter().find(|c| c.command_code == cmd)`
unfoldable pub find : ℕ → List CommandInfo → Option CommandInfo
find cmd [] = none
find cmd (c ∷ cs) = let rest = find cmd cs in if c.command_code == cmd then some c else rest

module _ {Message Payload Response : Type 0} (ffa : Ffa Message Payload Response) where
  -- The loop over the bytes of the message from the i-th on, `n` of them; the array has room for
  -- 125 bytes.
  unfoldable pub copy_bytes : Payload → ℕ → ℕ → Option (List ℕ)
  copy_bytes payload i zero = some []
  copy_bytes payload i (suc n) =
      if ltb (i + (packet_header_bytes - 1)) (max_message_size_bytes + packet_header_bytes)
      then (elim (ffa.u8_at payload i) [
        | none ↦ none
        | some b ↦ elim (copy_bytes payload (suc i) n) [ none ↦ none | some bs ↦ some (b ∷ bs) ]
      ])
      else none

  -- data[0] to data[12]
  unfoldable pub headers : ℕ → ℕ → ℕ → List ℕ
  headers eid len cmd =
      0x2
      ∷ 0xF
      ∷ (8 + len) % 256
      ∷ 0x1
      ∷ 0x1
      ∷ eid
      ∷ soc_mctp_entity_id
      ∷ 0xD3
      ∷ 0x7D
      ∷ 0x2
      ∷ eid
      ∷ 0
      ∷ cmd
      ∷ []

  -- `&data[0..total_len]`
  unfoldable pub frame : ℕ → Payload → ℕ → Option (List ℕ)
  frame eid payload len = elim (ffa.u8_at payload 0) [
    | none ↦ none
    | some cmd ↦ elim (copy_bytes payload 1 (len - 1)) [
      | none ↦ none
      | some bs ↦ elim (take_bytes (packet_header_bytes + len - 1) (headers eid len cmd ++ bs)) [
        | none ↦ none
        | some (sent, rest) ↦ some sent
      ]
    ]
  ]

  module _ {S : Type 0} ⦃port : Port S⦄ where
    unfoldable pub send_cmd : List ℕ → S → Ending S (Result Payload)
    send_cmd bytes s =
        port.put bytes s >>= (λ done sent. receive (port.rounds s) [] sent) >>= λ out.
        or_panic (elim (ffa.collect out) [ none ↦ none | some p ↦ some (ok p) ])

    -- The answer to an error of send_cmd is AcpiError::Error in little-endian bytes.
    unfoldable pub answer : Result Payload → S → Ending S (Result Payload)
    answer (ok value) s = returned (ok value) s
    answer (err e) s =
        or_panic (elim (ffa.collect (1 ∷ 0 ∷ 0 ∷ 0 ∷ [])) [ none ↦ none | some p ↦ some (ok p) ]) s

    unfoldable pub handle_message : PassthroughService → Message → ℕ → S → Ending S (Result Payload)
    handle_message service msg len s = elim (frame service.destination_eid (ffa.payload msg) len) [
      | none ↦ panicked s
      | some bytes ↦ send_cmd bytes s >>= answer
    ]

    unfoldable pub respond : Message → Result Payload → S → Ending S (Result Response)
    respond msg (ok p) s = returned (ok (ffa.from_req_with_payload msg p)) s
    respond msg (err e) s = returned (err e) s

    unfoldable pub handle_request : PassthroughService → Message → S → Ending S (Result Response)
    handle_request service msg s = elim (ffa.u8_at (ffa.payload msg) 0) [
      | none ↦ panicked s
      | some cmd ↦ elim (find cmd service.supported_commands) [
        | none ↦ returned (err invalid_parameters) s
        | some c ↦ handle_message service msg (c.payload_len + 1) s >>= respond msg
      ]
    ]
