-- ===== src/Passthrough/Partition.antt =====
-- main.rs of the secure partition: the three services are built and appended to the message handler
-- of ec_service_lib, which calls ffa_msg_send_direct_req2 of the service that a request is for, one
-- request behind the other. All services speak over the same UART.
pub mod Session
use odp_platform_radxa_orion.Common.{ℕ, Option, none, some, List, [], ◌∷◌}
use odp_platform_radxa_orion.Passthrough.{Port, Ending, returned, ◌>>=◌}
use odp_platform_radxa_orion.Passthrough.Request.{Ffa, PassthroughService, Result, handle_request}
use odp_platform_radxa_orion.Passthrough.Services.{
  battery, battery_commands, thermal, thermal_commands, time_alarm, time_alarm_commands,
}

-- The services that are appended and use the UART.
pub data Appended : Type 0 where
  to_battery to_thermal to_time_alarm : Appended

pub record Partition : Type 0 where
  pub battery_service : PassthroughService
  pub thermal_service : PassthroughService
  pub time_alarm_service : PassthroughService

-- A call of new that panics would stop the build.
abbrev pub gather :
    Option PassthroughService
    → Option PassthroughService
    → Option PassthroughService
    → Option Partition
gather (some b) (some t) (some a) =
    some (record { battery_service = b; thermal_service = t; time_alarm_service = a })
gather _ _ _ = none

-- Battery::new, Thermal::new and TimeAlarm::new in main
unfoldable pub services : Option Partition
services = gather battery thermal time_alarm

-- The service behind `inner`, and the rows of its table.
abbrev pub inner : Partition → Appended → PassthroughService
inner p to_battery = p.battery_service
inner p to_thermal = p.thermal_service
inner p to_time_alarm = p.time_alarm_service

abbrev pub commands : Appended → List (ℕ × ℕ)
commands to_battery = battery_commands
commands to_thermal = thermal_commands
commands to_time_alarm = time_alarm_commands

module _ {Message Payload Response : Type 0} (ffa : Ffa Message Payload Response) where
  module _ {S : Type 0} ⦃port : Port S⦄ where
    -- Service::ffa_msg_send_direct_req2
    unfoldable pub ffa_msg_send_direct_req2 :
        Partition → Appended → Message → S → Ending S (Result Response)
    ffa_msg_send_direct_req2 p service msg s = handle_request ffa (inner p service) msg s

    -- The calls for a sequence of requests, with their responses.
    unfoldable pub serve_all :
        Partition → List (Appended × Message) → S → Ending S (List (Result Response))
    serve_all p [] s = returned [] s
    serve_all p ((service, msg) ∷ requests) s =
        ffa_msg_send_direct_req2 p service msg s >>= λ response left.
        serve_all p requests left >>= λ responses end. returned (response ∷ responses) end
