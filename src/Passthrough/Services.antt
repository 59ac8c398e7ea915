-- ===== src/Passthrough/Services.antt =====
-- The services of battery.rs, thermal.rs and time_alarm.rs: their entity ids and commands.
use odp_platform_radxa_orion.Common.{ℕ, Option, none, some, List, [], ◌∷◌}
use odp_platform_radxa_orion.Passthrough.Request.{CommandInfo, PassthroughService, new_command_info}

-- A table of commands; a call of CommandInfo::new that panics would stop the build.
unfoldable pub command_table : List (ℕ × ℕ) → Option (List CommandInfo)
command_table [] = some []
command_table ((code, len) ∷ rows) = elim (new_command_info code len) [
  | none ↦ none
  | some c ↦ elim (command_table rows) [ none ↦ none | some cs ↦ some (c ∷ cs) ]
]

abbrev pub battery_commands : List (ℕ × ℕ)
battery_commands =
    (0x1, 1)
    ∷ (0x2, 1)
    ∷ (0x3, 1)
    ∷ (0x4, 1)
    ∷ (0x5, 1)
    ∷ (0x6, 2)
    ∷ (0x7, 2)
    ∷ (0x8, 1)
    ∷ (0x9, 2)
    ∷ (0xa, 1)
    ∷ (0xb, 1)
    ∷ (0xc, 1)
    ∷ (0xd, 2)
    ∷ (0xe, 2)
    ∷ (0xf, 1)
    ∷ (0x80, 1)
    ∷ []

abbrev pub thermal_commands : List (ℕ × ℕ)
thermal_commands = (0x1, 1) ∷ (0x2, 13) ∷ (0x3, 1) ∷ (0x4, 13) ∷ (0x5, 19) ∷ (0x6, 23) ∷ []

abbrev pub time_alarm_commands : List (ℕ × ℕ)
time_alarm_commands =
    (1, 0) ∷ (2, 0) ∷ (3, 16) ∷ (4, 4) ∷ (5, 4) ∷ (6, 8) ∷ (7, 4) ∷ (8, 8) ∷ (9, 4) ∷ []

-- PassthroughService::new, of a table that was built.
unfoldable pub new_service : ℕ → List (ℕ × ℕ) → Option PassthroughService
new_service eid rows = elim (command_table rows) [
  | none ↦ none
  | some cs ↦ some (record { destination_eid = eid; supported_commands = cs })
]

-- Battery::new, Thermal::new and TimeAlarm::new
unfoldable pub battery : Option PassthroughService
battery = new_service 8 battery_commands

unfoldable pub thermal : Option PassthroughService
thermal = new_service 9 thermal_commands

unfoldable pub time_alarm : Option PassthroughService
time_alarm = new_service 0xB time_alarm_commands
