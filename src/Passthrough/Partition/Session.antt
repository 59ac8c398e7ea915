-- ===== src/Passthrough/Partition/Session.antt =====
-- A session of the partition with the controller.
use mathlib.Core.Path.{subst}
use mathlib.Core.List.{append-nil, append_assoc}
use odp_platform_radxa_orion.Common.{
  ℕ, ◌<◌, ◌≤◌, ◌≡◌, ◌≢◌, ◌⊎◌, inl, inr, refl, sym, ◌∙◌, ap, none, some, List, [], ◌∷◌, ◌++◌,
}
use odp_platform_radxa_orion.Common.Lists.{length, All}
use odp_platform_radxa_orion.Passthrough.{line_port, returned, byte_at}
use odp_platform_radxa_orion.Passthrough.Request.{
  Ffa, PassthroughService, Result, ok, err, invalid_parameters, find,
}
use odp_platform_radxa_orion.Passthrough.Packets.{Packet, IsMessage, packet_bytes, wire, payloads}
use odp_platform_radxa_orion.Passthrough.Delivered.{on_line}
use odp_platform_radxa_orion.Passthrough.Frame.{IsFfa, IsRequest}
use odp_platform_radxa_orion.Passthrough.Serve.{handle_request-wire, handle_request_unfound}
use odp_platform_radxa_orion.Passthrough.Tables.{info, services-IsService}
use odp_platform_radxa_orion.Passthrough.Partition.{
  Appended, to_battery, to_thermal, to_time_alarm, Partition, services, inner, commands,
  ffa_msg_send_direct_req2, serve_all,
}

-- The entities of the services.
abbrev pub entity : Appended → ℕ
entity to_battery = 8
entity to_thermal = 9
entity to_time_alarm = 0xB

-- A row stands in a table.
abbrev pub IsRow : ℕ × ℕ → List (ℕ × ℕ) → Type 0
IsRow row [] = ⊥
IsRow row (r ∷ rows) = (row ≡ r) ⊎ IsRow row rows

All-IsRow :
    (P : ℕ × ℕ → Type 0) (rows : List (ℕ × ℕ)) (row : ℕ × ℕ) → All P rows → IsRow row rows → P row
All-IsRow P [] row hs h = absurd h
All-IsRow P (r ∷ rows) row (h, hs) (inl e) = subst P (sym e) h
All-IsRow P (r ∷ rows) row (h, hs) (inr later) = All-IsRow P rows row hs later

some_eq : {A : Type 0} (a b : A) → some a ≡ some b → a ≡ b
some_eq a b e = cc

abbrev pub built_services : Partition
built_services = record {
  battery_service = (services-IsService.0).0;
  thermal_service = (services-IsService.1).0;
  time_alarm_service = (services-IsService.2).0;
}

pub services_lem : services ≡ some built_services
unfolding services
services_lem = rw (services-IsService.0.1, services-IsService.1.1, services-IsService.2.1) refl

-- What the tables promise, of a service that was built.
abbrev HasTable : ℕ → List (ℕ × ℕ) → PassthroughService → Type 0
HasTable eid rows service =
    (service.destination_eid ≡ eid)
    × All (λ row. (find row.0 service.supported_commands ≡ some (info row)) × (row.1 ≤ 60)) rows
    × ((cmd : ℕ) → All (λ row. row.0 ≢ cmd) rows → find cmd service.supported_commands ≡ none)

inner-HasTable :
    (p : Partition)
    → services ≡ some p
    → (s : Appended) → HasTable (entity s) (commands s) (inner p s)
inner-HasTable p built s =
    subst (λ q. HasTable (entity s) (commands s) (inner q s))
      (some_eq built_services p (sym services_lem ∙ built)) (of_table s)
  where
    of_table : (s : Appended) → HasTable (entity s) (commands s) (inner built_services s)
    of_table to_battery = let h = services-IsService.0 in (h.2, h.3, h.4)
    of_table to_thermal = let h = services-IsService.1 in (h.2, h.3, h.4)
    of_table to_time_alarm = let h = services-IsService.2 in (h.2, h.3, h.4)

module _ {Message Payload Response : Type 0} (ffa : Ffa Message Payload Response) where
  -- A request of the operating system: for a row of the service's table, with the packets that the
  -- controller answers; or for another command.
  pub data Exchange : Type 0 where
    supported : Appended → Message → ℕ × ℕ → List Packet → Exchange
    refused : Appended → Message → ℕ → Exchange

  abbrev pub IsExchange : Exchange → Type 0
  IsExchange (supported service msg row reply) =
      (ffa.u8_at (ffa.payload msg) 0 ≡ some row.0)
      × IsRow row (commands service)
      × IsMessage reply
      × (length (payloads reply) ≤ 112)
  IsExchange (refused service msg cmd) =
      (ffa.u8_at (ffa.payload msg) 0 ≡ some cmd) × All (λ row. row.0 ≢ cmd) (commands service)

  abbrev pub requests : List Exchange → List (Appended × Message)
  requests [] = []
  requests (supported service msg row reply ∷ es) = (service, msg) ∷ requests es
  requests (refused service msg cmd ∷ es) = (service, msg) ∷ requests es

  -- What the controller sends.
  abbrev pub replies : List Exchange → List ℕ
  replies [] = []
  replies (supported service msg row reply ∷ es) = wire reply ++ replies es
  replies (refused service msg cmd ∷ es) = replies es

  -- The packets that were sent, and the responses: for each supported request its packet, and a
  -- response whose payload starts with the payload of the controller's answer to it; for another
  -- one no packet, and an error.
  abbrev pub Served : List Exchange → List Packet → List (Result Response) → Type 0
  Served [] [] [] = Unit
  Served (supported service msg row reply ∷ es) (p ∷ ps) (r ∷ rs) =
      IsRequest ffa (entity service) (ffa.payload msg) row.1 p
      × ((q : Payload) × (r ≡ ok (ffa.from_req_with_payload msg q))
          × ((i : ℕ)
              → i < length (payloads reply)
              → ffa.u8_at q i ≡ some (byte_at (payloads reply) i)))
      × Served es ps rs
  Served (refused service msg cmd ∷ es) ps (r ∷ rs) = (r ≡ err invalid_parameters) × Served es ps rs
  Served _ _ _ = ⊥

  module _ (laws : IsFfa ffa) (partition : Partition) (built : services ≡ some partition) where
    -- With an odp_ffa that keeps its laws and the three services that main builds, for any
    -- sequence of requests to them in which each is for a row of the service's table and answered
    -- by the controller with a well-formed message of at most 112 payload bytes, or is for another
    -- command: where the controller's answers stand on the line one behind the other, the calls of
    -- ffa_msg_send_direct_req2 all return. They have sent one packet for each request of a row, in
    -- order, and no other byte, with the service's entity, the command and as many bytes of the
    -- request as the row says; each such request has the response whose payload starts with the
    -- payload bytes of the answer to it, each other one the error InvalidParameters; and what is
    -- behind the answers is left on the line.
    pub serve_all-Served :
        (es : List Exchange) (sent rest : List ℕ)
        → All IsExchange es
        → (ps : List Packet) × (rs : List (Result Response)) × Served es ps rs
          × (serve_all ffa partition (requests es) (on_line sent (replies es ++ rest))
              ≡ returned rs (on_line (sent ++ wire ps) rest))
    unfolding serve_all ffa_msg_send_direct_req2
    serve_all-Served [] sent rest h =
        ([], [], tt, ap (λ t. returned [] (on_line t rest)) (sym (append-nil sent)))
    serve_all-Served (supported service msg row reply ∷ es) sent rest
          ((first, row_in, message, room), h) =
        let (eid, rows, others) = inner-HasTable partition built service in
        let (found, small) = All-IsRow _ (commands service) row rows row_in in
        let (p, request, q, served, bytes) =
          handle_request-wire ffa (inner partition service) msg row.0 first laws (info row) sent
            (replies es ++ rest) reply found small message room in
        let (ps, rs, later, run) = serve_all-Served es (sent ++ packet_bytes p) rest h in
        (
          p ∷ ps,
          ok (ffa.from_req_with_payload msg q) ∷ rs,
          (
            subst (λ e. IsRequest ffa e (ffa.payload msg) row.1 p) eid request,
            (q, refl, bytes),
            later,
          ),
          rw
              (
                append_assoc (wire reply) (replies es) rest,
                served,
                run,
                append_assoc sent (packet_bytes p) (wire ps),
              )
              refl,
        )
    serve_all-Served (refused service msg cmd ∷ es) sent rest ((first, unknown), h) =
        let (eid, rows, others) = inner-HasTable partition built service in
        let (ps, rs, later, run) = serve_all-Served es sent rest h in
        (
          ps,
          err invalid_parameters ∷ rs,
          (refl, later),
          rw
              (
                handle_request_unfound ffa (inner partition service) msg cmd first
                    (on_line sent (replies es ++ rest)) (others cmd unknown),
                run,
              )
              refl,
        )
