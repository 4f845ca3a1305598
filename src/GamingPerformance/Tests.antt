-- ===== src/GamingPerformance/Tests.antt =====
-- src/gaming-performance/main.cpp: a game is started, and the owner of the profiles changes.
use nagi_shell.Prelude.{
  ◌≡◌, refl, Bool, true, false, none, some, List, [], ◌∷◌, ◌++◌, list_eq, if◌then◌else◌,
}
use nagi_shell.Prelude.Int.{pos}
use nagi_shell.Notifications.Text.{QString, literal}
use nagi_shell.Bytes.{Bytes}
use nagi_shell.Json.{Json, bool, double, integral, string, Fields, end, field}
use nagi_shell.GamingPerformance.{
  int, text, other, Buses, read_game_client_count, read_power_profile, is_performance,
  valid_profile,
}
use nagi_shell.GamingPerformance.Attachments.{
  game_service, modern_endpoint, legacy_endpoint, preferred_power_endpoint, same_endpoint,
  read_valid_profile,
}
use nagi_shell.GamingPerformance.Events.{
  event_of, announced_profile, Event, game_event, game_owner_changed, power_properties_changed,
  power_owner_changed, start, run,
}
use nagi_shell.GamingPerformance.Sources
use nagi_shell.GamingPerformance.Sources.{
  message, find_game, find_power, count_clients, follow_game, hear_profile, concerns, follow_power,
}
use nagi_shell.GamingPerformance.Refinement.{latest}
use nagi_shell.GamingPerformance.Refinement.Histories.{run-refines}
use nagi_shell.GamingPerformance.Validity.{IsSound}
use nagi_shell.GamingPerformance.Validity.Histories.{run-start-IsSound}

-- A printer of keys and values.
abbrev print_value : Json → Bytes
print_value (bool true) = literal "true"
print_value (bool false) = literal "false"
print_value (double (integral (pos n))) = n ∷ []
print_value (string s) = s
print_value _ = []

abbrev print : Fields → Bytes
print end = []
print (field key v rest) = key ++ literal ":" ++ print_value v ++ literal "," ++ print rest

-- Buses that name an owner of the modern service, and a profile.
abbrev buses : Bool → QString → QString → Buses
buses game modern profile = record {
  session_connected = true;
  system_connected = true;
  session_owner = λ name. some (literal ":1.4");
  system_owner = λ name.
      if list_eq name (literal "net.hadess.PowerProfiles")
      then some (literal ":1.5")
      else some modern;
  connects_registered = true;
  connects_unregistered = game;
  connects_power = λ e. true;
  client_count = record { is_reply = true; arguments = some (int (pos 2)) ∷ [] };
  active_profile = λ e. record { is_reply = true; arguments = some (text profile) ∷ [] };
}

abbrev history : List (Buses × Event)
history =
    (
      buses true (literal ":1.6") (literal "balanced"),
      game_event (literal "GameRegistered") (other ∷ other ∷ []),
    )
    ∷ (
      buses true (literal ":1.6") (literal "balanced"),
      power_properties_changed (literal "org.freedesktop.UPower.PowerProfiles")
          ((literal "ActiveProfile", text (literal "performance")) ∷ []) [],
    )
    ∷ (
      buses true [] (literal "power-saver"),
      power_owner_changed (literal "org.freedesktop.UPower.PowerProfiles") (literal ":1.6") [],
    )
    ∷ (buses false [] (literal "balanced"), game_owner_changed (literal ":1.4") (literal ":1.8"))
    ∷ []

abbrev first : Buses
first = buses true (literal ":1.6") (literal "balanced")

run-refines_example :
    (event : QString) × (latest (run print history (start print first)).output.lines
      ≡ some (print (message (Sources.run history (Sources.start first)) event)))
run-refines_example = run-refines print first history

run-start-IsSound_example : IsSound (run print history (start print first))
run-start-IsSound_example = run-start-IsSound print first history

-- The endpoint is the legacy one, and GameMode could not be observed.
sources_after :
    Sources.run history (Sources.start first)
    ≡ record { game = none; power = some (legacy_endpoint (literal ":1.5"), false) }
unfolding Sources.run Sources.step Sources.start find_game find_power count_clients follow_game
    hear_profile concerns follow_power read_game_client_count read_power_profile is_performance
    valid_profile game_service modern_endpoint legacy_endpoint preferred_power_endpoint
    same_endpoint read_valid_profile event_of announced_profile list_eq
sources_after = refl
