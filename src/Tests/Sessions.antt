-- ===== src/Tests/Sessions.antt =====
-- The partition with three requests: one that the controller answers in two packets, one that no
-- service knows, and one without bytes behind its command.
use odp_platform_radxa_orion.Common.{ℕ, ◌≡◌, inl, inr, refl, List, [], ◌∷◌, ◌++◌, arith}
use odp_platform_radxa_orion.Common.Bits.{bit}
use odp_platform_radxa_orion.Common.Lists.{All}
use odp_platform_radxa_orion.Passthrough.{line_port, returned}
use odp_platform_radxa_orion.Passthrough.Request.{Result}
use odp_platform_radxa_orion.Passthrough.Packets.{Packet, IsMessage, wire}
use odp_platform_radxa_orion.Passthrough.Delivered.{on_line}
use odp_platform_radxa_orion.Passthrough.Partition.{
  to_battery, to_thermal, to_time_alarm, serve_all,
}
use odp_platform_radxa_orion.Passthrough.Partition.Session.{
  Exchange, supported, refused, IsExchange, requests, replies, Served, serve_all-Served,
  built_services, services_lem,
}
use odp_platform_radxa_orion.Passthrough.Uart.Related.{Related}
use odp_platform_radxa_orion.Passthrough.Uart.Session.{device, registers_session, serve_all-Related}
use odp_platform_radxa_orion.Tests.Uarts.{Pl011, idle, two_more, pl011, line, pl011-IsUart}
use odp_platform_radxa_orion.Tests.Controller.{ffa, ffa-IsFfa, request, reply, reply-IsMessage}

-- GetCapabilities of the alarm, answered by four bytes.
abbrev capabilities : Packet
capabilities = record {
  destination = 1;
  command = 0xF;
  source = 2;
  version = 1;
  destination_eid = 0x80;
  source_eid = 0xB;
  flags = 0xD3;
  message_headers = 0x7D ∷ 0 ∷ 0xB ∷ 0 ∷ 1 ∷ [];
  payload = 0xF7 ∷ 0 ∷ 0 ∷ 0 ∷ [];
}

capabilities-IsMessage : IsMessage (capabilities ∷ [])
unfolding bit
capabilities-IsMessage = (record { headers = refl; fits = omega arith }, refl)

abbrev session : List (Exchange ffa)
session =
    supported to_battery request (6, 2) reply
    ∷ refused to_thermal (9 ∷ []) 9
    ∷ supported to_time_alarm (1 ∷ []) (1, 0) (capabilities ∷ [])
    ∷ []

session-IsExchange : All (IsExchange ffa) session
session-IsExchange = (
  (refl, inr (inr (inr (inr (inr (inl refl))))), reply-IsMessage, omega arith),
  (
    (
      refl,
      (
        λ e. omega (arith, e),
        (
          λ e. omega (arith, e),
          (
            λ e. omega (arith, e),
            (λ e. omega (arith, e), (λ e. omega (arith, e), (λ e. omega (arith, e), tt))),
          ),
        ),
      ),
    ),
    ((refl, inl refl, capabilities-IsMessage, omega arith), tt),
  ),
)

serve_all-Served_example :
    (ps : List Packet) × (rs : List (Result (List ℕ))) × Served ffa session ps rs
    × (serve_all ffa built_services
          (requests ffa session)
          (on_line [] (replies ffa session ++ 7 ∷ []))
        ≡ returned rs (on_line (wire ps) (7 ∷ [])))
serve_all-Served_example =
    serve_all-Served ffa ffa-IsFfa built_services services_lem session [] (7 ∷ [])
      session-IsExchange

-- The same session over the registers of a UART that is busy for two reads of its flags behind each
-- byte.
abbrev start : Pl011
start = record { sent = []; incoming = replies ffa session ++ 7 ∷ []; busy = two_more }

registers_session_example :
    (ps : List Packet) × (rs : List (Result (List ℕ))) × (s' : Pl011) × Served ffa session ps rs
    × (serve_all ffa ⦃port = device pl011 line 3 pl011-IsUart 3 (omega arith)⦄ built_services
          (requests ffa session)
          start
        ≡ returned rs s')
    × (line s' ≡ on_line (wire ps) (7 ∷ []))
registers_session_example =
    registers_session pl011 line 3 pl011-IsUart 3 (omega arith) ffa ffa-IsFfa built_services
      services_lem session [] (7 ∷ []) start session-IsExchange refl

-- The controller answers with a packet whose byte count is 3.
abbrev malformed : Pl011
malformed = record { sent = []; incoming = 2 ∷ 0xF ∷ 3 ∷ 0 ∷ []; busy = idle }

serve_all-Related_example :
    Related line
      (serve_all ffa ⦃port = device pl011 line 3 pl011-IsUart 3 (omega arith)⦄ built_services
        (requests ffa session)
        malformed)
      (serve_all ffa built_services (requests ffa session) (line malformed))
serve_all-Related_example =
    serve_all-Related pl011 line 3 pl011-IsUart 3 (omega arith) ffa built_services
      (requests ffa session) malformed
