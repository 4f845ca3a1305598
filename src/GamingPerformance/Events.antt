-- ===== src/GamingPerformance/Events.antt =====
-- src/gaming-performance/main.cpp: the slots, initialize, and the histories of events.
use nagi_shell.Prelude.{
  Bool, true, false, not, ◌&&◌, ◌||◌, Option, none, some, List, [], ◌∷◌, ◌==◌, any, length, list_eq,
  if◌then◌else◌,
}
use nagi_shell.Prelude.Result.{Result, ok, err}
use nagi_shell.Notifications.Text.{QString, literal}
use nagi_shell.Bytes.{Bytes}
use nagi_shell.Json.{string, Fields, end, field}
use nagi_shell.GamingPerformance.{
  Variant, text, PowerEndpoint, available, is_empty, Buses, GamingPerformanceObserver,
  read_game_client_count, read_power_profile, is_performance, valid_profile, publish, publish_state,
  diagnose,
}
use nagi_shell.GamingPerformance.Attachments.{
  game_service, no_endpoint, owner_of, detach_game, attach_game, preferred_power_endpoint,
  same_endpoint, detach_power, attach_power,
}

-- The object after its construction.
unfoldable pub initial : GamingPerformanceObserver
initial = record {
  game_owner = [];
  power_endpoint = no_endpoint;
  game_client_count = 0;
  performance_profile = false;
  registered = false;
  unregistered = false;
  observed = [];
  output = record { last_state = []; lines = [] };
  diagnostics = record { diagnostic_count = 0; last_diagnostic = []; messages = [] };
}

-- onGameEvent: the event of a signal by its member; empty for another.
unfoldable pub event_of : QString → QString
event_of member =
    if list_eq member (literal "GameRegistered")
    then literal "registered"
    else if list_eq member (literal "GameUnregistered")
    then literal "unregistered"
    else []

abbrev pub same_flag : Bool → Bool → Bool
same_flag true b = b
same_flag false b = not b

-- The value of a key in a QVariantMap; the first entry counts.
abbrev pub lookup : QString → List (QString × Variant) → Option Variant
lookup key [] = none
lookup key ((k, v) ∷ rest) = if list_eq k key then some v else lookup key rest

abbrev pub active_profile_name : QString
active_profile_name = literal "ActiveProfile"

-- onPowerPropertiesChanged: the profile that is announced, a diagnostic, or nothing.
abbrev pub announced_value : Variant → Result QString QString
announced_value (text profile) = ok profile
announced_value _ = err (literal "invalid ActiveProfile event")

unfoldable pub announced_profile :
    Buses
    → PowerEndpoint
    → List (QString × Variant)
    → List QString
    → Option (Result QString QString)
unfolding read_power_profile
announced_profile w e changed invalidated = elim (lookup active_profile_name changed) [
  | some v ↦ some (announced_value v)
  | none ↦
      if any (λ name. list_eq name active_profile_name) invalidated
      then some (elim (read_power_profile w e) [
        | none ↦ err (literal "invalid ActiveProfile refresh")
        | some profile ↦ ok profile
      ])
      else none
]

abbrev pub source_unavailable : QString
source_unavailable = literal "sourceUnavailable"

abbrev pub snapshot : QString
snapshot = literal "snapshot"

-- initialize: the session bus, and the system bus.
unfoldable pub attach_session_bus : Buses → GamingPerformanceObserver → GamingPerformanceObserver
unfolding game_service attach_game diagnose
attach_session_bus w s =
    let name = owner_of (w.session_owner game_service) in
    if not w.session_connected
    then diagnose (literal "session bus unavailable") s
    else if is_empty name
    then s
    else attach_game w name s

unfoldable pub attach_system_bus : Buses → GamingPerformanceObserver → GamingPerformanceObserver
unfolding preferred_power_endpoint attach_power diagnose
attach_system_bus w s =
    let e = preferred_power_endpoint w in
    if not w.system_connected
    then diagnose (literal "system bus unavailable") s
    else if available e
    then attach_power w e s
    else s

-- The printer of messages.
module _ (to_json : Fields → Bytes) where
  -- onGameEvent, with the member of the message and its arguments.
  unfoldable pub on_game_event :
      Buses → QString → List Variant → GamingPerformanceObserver → GamingPerformanceObserver
  unfolding event_of read_game_client_count publish_state diagnose
  on_game_event w member arguments s =
      if is_empty (event_of member) || not (length arguments == 2) || is_empty s.game_owner
      then diagnose (literal "invalid GameMode event") s
      else elim (read_game_client_count w) [
        | none ↦ diagnose (literal "invalid GameMode ClientCount") s
        | some n ↦ publish_state to_json (event_of member) true (record s { game_client_count = n })
      ]

  -- onGameOwnerChanged.
  unfoldable pub on_game_owner_changed :
      Buses → QString → QString → GamingPerformanceObserver → GamingPerformanceObserver
  unfolding detach_game attach_game publish_state
  on_game_owner_changed w old new s =
      let s1 = record (detach_game s) { game_client_count = 0 } in
      let s2 = if is_empty old then s1 else publish_state to_json source_unavailable true s1 in
      let s3 = if is_empty new then s2 else attach_game w new s2 in
      if list_eq old new || (is_empty old && list_eq new s.game_owner)
      then s
      else publish_state to_json snapshot false s3

  -- onPowerPropertiesChanged, of a profile.
  unfoldable pub change_profile : QString → GamingPerformanceObserver → GamingPerformanceObserver
  unfolding is_performance valid_profile publish_state diagnose
  change_profile profile s =
      if not (valid_profile profile)
      then diagnose (literal "unsupported ActiveProfile value") s
      else if same_flag (is_performance profile) s.performance_profile
      then s
      else publish_state to_json (literal "profile") true
          (record s { performance_profile = is_performance profile })

  abbrev pub announce :
      Option (Result QString QString) → GamingPerformanceObserver → GamingPerformanceObserver
  announce none s = s
  announce (some (err message)) s = diagnose message s
  announce (some (ok profile)) s = change_profile profile s

  -- onPowerPropertiesChanged.
  unfoldable pub on_power_properties_changed :
      Buses
      → QString
      → List (QString × Variant)
      → List QString
      → GamingPerformanceObserver
      → GamingPerformanceObserver
  unfolding announced_profile change_profile diagnose
  on_power_properties_changed w interface changed invalidated s =
      let e = s.power_endpoint in
      if not (available e) || not (list_eq interface e.interface)
      then s
      else announce (announced_profile w e changed invalidated) s

  -- onPowerOwnerChanged: the source keeps its names, and has another owner.
  unfoldable pub follow_owner :
      Buses → PowerEndpoint → QString → GamingPerformanceObserver → GamingPerformanceObserver
  unfolding detach_power attach_power publish_state
  follow_owner w next old s =
      let s1 = record (detach_power s) { performance_profile = false } in
      let s2 = if is_empty old then s1 else publish_state to_json source_unavailable true s1 in
      let s3 = if available next then attach_power w next s2 else s2 in
      publish_state to_json snapshot false s3

  -- onPowerOwnerChanged: another source is preferred, or none.
  unfoldable pub switch_endpoint :
      Buses → PowerEndpoint → GamingPerformanceObserver → GamingPerformanceObserver
  unfolding detach_power attach_power publish_state
  switch_endpoint w next s =
      let lost = available s.power_endpoint && not (available next) in
      let s1 = record (detach_power s) { performance_profile = false } in
      let s2 = if available next then attach_power w next s1 else s1 in
      let s3 = if lost then publish_state to_json source_unavailable true s2 else s2 in
      publish_state to_json snapshot false s3

  -- onPowerOwnerChanged.
  unfoldable pub on_power_owner_changed :
      Buses → QString → QString → QString → GamingPerformanceObserver → GamingPerformanceObserver
  unfolding preferred_power_endpoint same_endpoint follow_owner switch_endpoint
  on_power_owner_changed w service old new s =
      let e = s.power_endpoint in
      let next = preferred_power_endpoint w in
      if list_eq old new
      then s
      else if not (same_endpoint next e)
      then switch_endpoint w next s
      else if not (list_eq e.owner next.owner) && list_eq service e.service
      then follow_owner w next old s
      else s

  -- initialize.
  unfoldable pub initialize : Buses → GamingPerformanceObserver → GamingPerformanceObserver
  unfolding attach_session_bus attach_system_bus publish_state
  initialize w s =
      publish_state to_json snapshot true (attach_system_bus w (attach_session_bus w s))

  -- The first event: the message that the helper is ready, and initialize.
  unfoldable pub start : Buses → GamingPerformanceObserver
  unfolding initial publish initialize
  start w =
      let s = record initial {
        output =
            publish to_json (field (literal "type") (string (literal "ready")) end) true
              initial.output;
      } in
      initialize w s

-- The signals that the helper receives.
pub data Event : Type 0 where
  game_event : QString → List Variant → Event
  game_owner_changed : QString → QString → Event
  power_properties_changed : QString → List (QString × Variant) → List QString → Event
  power_owner_changed : QString → QString → QString → Event

module _ (to_json : Fields → Bytes) where
  unfoldable pub step : Buses → Event → GamingPerformanceObserver → GamingPerformanceObserver
  step w (game_event member arguments) s = on_game_event to_json w member arguments s
  step w (game_owner_changed old new) s = on_game_owner_changed to_json w old new s
  step w (power_properties_changed interface changed invalidated) s =
      on_power_properties_changed to_json w interface changed invalidated s
  step w (power_owner_changed service old new) s =
      on_power_owner_changed to_json w service old new s

  -- Each event comes with the answers that it gets.
  unfoldable pub run : List (Buses × Event) → GamingPerformanceObserver → GamingPerformanceObserver
  unfolding step
  run [] s = s
  run ((w, e) ∷ rest) s = run rest (step w e s)
