-- ===== src/Passthrough/Tables.antt =====
-- The commands of the three services.
use odp_platform_radxa_orion.Common.{
  ℕ, ◌≤◌, ◌≡◌, ◌≢◌, refl, ap₂, Bool, true, false, ◌&&◌, ◌==◌, leb, ne→==, Option, none, some, List,
  [], ◌∷◌, arith,
}
use odp_platform_radxa_orion.Common.Lists.{All}
use odp_platform_radxa_orion.Passthrough.Request.{
  CommandInfo, PassthroughService, new_command_info, find,
}
use odp_platform_radxa_orion.Passthrough.Services.{
  command_table, new_service, battery, battery_commands, thermal, thermal_commands, time_alarm,
  time_alarm_commands,
}

abbrev pub info : ℕ × ℕ → CommandInfo
info row = record { command_code = row.0; payload_len = row.1 }

abbrev infos : List (ℕ × ℕ) → List CommandInfo
infos [] = []
infos (row ∷ rows) = info row ∷ infos rows

abbrev serving : ℕ → List (ℕ × ℕ) → PassthroughService
serving eid rows = record { destination_eid = eid; supported_commands = infos rows }

-- The service is built for its entity. Each row of its table is what its search finds for the
-- row's command, and a request of the row is one packet; it finds no other command.
abbrev pub IsService : ℕ → List (ℕ × ℕ) → Option PassthroughService → Type 0
IsService eid rows built =
    (service : PassthroughService) × (built ≡ some service)
    × (service.destination_eid ≡ eid)
    × All (λ row. (find row.0 service.supported_commands ≡ some (info row)) × (row.1 ≤ 60)) rows
    × ((cmd : ℕ) → All (λ row. row.0 ≢ cmd) rows → find cmd service.supported_commands ≡ none)

abbrev is_row : ℕ × ℕ → Option CommandInfo → Bool
is_row row none = false
is_row row (some c) = c.command_code == row.0 && (c.payload_len == row.1 && leb row.1 60)

is_row_lem :
    (row : ℕ × ℕ) (found : Option CommandInfo)
    → is_row row found ≡ true
    → (found ≡ some (info row)) × (row.1 ≤ 60)
is_row_lem row none h = absurd (ground arith)
is_row_lem row (some c) h = (
  ap₂ (λ a b. some (record { command_code = a; payload_len = b })) (ground arith) (ground arith),
  ground arith,
)

both_true : (a b : Bool) → (a && b) ≡ true → (a ≡ true) × (b ≡ true)
both_true true b h = (refl, h)
both_true false b h = absurd (ground arith)

abbrev all_rows : List CommandInfo → List (ℕ × ℕ) → Bool
all_rows cs [] = true
all_rows cs (row ∷ rows) = is_row row (find row.0 cs) && all_rows cs rows

all_rows_lem :
    (cs : List CommandInfo) (rows : List (ℕ × ℕ))
    → all_rows cs rows ≡ true
    → All (λ row. (find row.0 cs ≡ some (info row)) × (row.1 ≤ 60)) rows
all_rows_lem cs [] h = tt
all_rows_lem cs (row ∷ rows) h =
    let (first, rest) = both_true (is_row row (find row.0 cs)) (all_rows cs rows) h in
    (is_row_lem row (find row.0 cs) first, all_rows_lem cs rows rest)

other_command :
    (rows : List (ℕ × ℕ)) (cmd : ℕ) → All (λ row. row.0 ≢ cmd) rows → find cmd (infos rows) ≡ none
unfolding find
other_command [] cmd h = refl
other_command (row ∷ rows) cmd (ne, h) = rw (ne→== row.0 cmd ne) (other_command rows cmd h)

-- The services of the battery, the thermal zones and the alarms are built, for the entities 8, 9
-- and 11. In each, the search for the command of a row of its table finds the row, which has at
-- most 60 bytes, and the search for another command finds nothing.
pub services-IsService :
    IsService 8 battery_commands battery
    × IsService 9 thermal_commands thermal
    × IsService 0xB time_alarm_commands time_alarm
unfolding battery thermal time_alarm new_service command_table new_command_info find
services-IsService = (
  (
    serving 8 battery_commands,
    refl,
    refl,
    all_rows_lem (infos battery_commands) battery_commands refl,
    other_command battery_commands,
  ),
  (
    serving 9 thermal_commands,
    refl,
    refl,
    all_rows_lem (infos thermal_commands) thermal_commands refl,
    other_command thermal_commands,
  ),
  (
    serving 0xB time_alarm_commands,
    refl,
    refl,
    all_rows_lem (infos time_alarm_commands) time_alarm_commands refl,
    other_command time_alarm_commands,
  ),
)
