-- ===== src/GamingPerformance/Sources.antt =====
-- src/gaming-performance/main.cpp: what the observer is to know, as two sources and nothing else. A source
-- is there or it is not, and what is known of it is known only while it is there.
use nagi_shell.Prelude.{
  ℕ, Bool, false, not, ◌&&◌, ◌||◌, Option, none, some, is_some, List, [], ◌∷◌, ◌==◌, length,
  list_eq, if◌then◌else◌,
}
use nagi_shell.Prelude.Result.{Result, ok}
use nagi_shell.Notifications.Text.{QString}
use nagi_shell.Json.{Fields}
use nagi_shell.GamingPerformance.{
  Variant, PowerEndpoint, available, is_empty, Buses, read_game_client_count, is_performance,
  valid_profile, state_message,
}
use nagi_shell.GamingPerformance.Attachments.{
  game_service, no_endpoint, owner_of, connects_game, preferred_power_endpoint, same_endpoint,
  read_valid_profile,
}
use nagi_shell.GamingPerformance.Events.{
  event_of, announced_profile, Event, game_event, game_owner_changed, power_properties_changed,
  power_owner_changed,
}

-- The owner of GameMode and its clients; the endpoint of the profiles and whether it is `performance`.
pub record Sources : Type 0 where
  pub game : Option (QString × ℕ)
  pub power : Option (PowerEndpoint × Bool)

-- What is found under the name of an owner, and on the system bus.
abbrev pub with_clients : QString → Option ℕ → Option (QString × ℕ)
with_clients name none = none
with_clients name (some n) = some (name, n)

unfoldable pub find_game : Buses → QString → Option (QString × ℕ)
find_game w name =
    if is_empty name || not (connects_game w)
    then none
    else with_clients name (read_game_client_count w)

abbrev pub with_profile : PowerEndpoint → Option QString → Option (PowerEndpoint × Bool)
with_profile e none = none
with_profile e (some profile) = some (e, is_performance profile)

unfoldable pub find_power : Buses → Option (PowerEndpoint × Bool)
find_power w =
    let e = preferred_power_endpoint w in
    if not (available e) || not (w.connects_power e)
    then none
    else with_profile e (read_valid_profile w e)

abbrev pub owner_in : Option (QString × ℕ) → QString
owner_in none = []
owner_in (some g) = g.0

abbrev pub endpoint_in : Option (PowerEndpoint × Bool) → PowerEndpoint
endpoint_in none = no_endpoint
endpoint_in (some p) = p.0

-- A signal of GameMode brings the number of clients up to date.
abbrev pub is_game_event : QString → List Variant → Bool
is_game_event member arguments = not (is_empty (event_of member)) && length arguments == 2

unfoldable pub count_clients :
    Buses → QString → List Variant → Option (QString × ℕ) → Option (QString × ℕ)
count_clients w member arguments none = none
count_clients w member arguments (some (name, n)) = elim (read_game_client_count w) [
  | none ↦ some (name, n)
  | some m ↦ some (name, if is_game_event member arguments then m else n)
]

-- A change of GameMode's owner that is not known yet.
unfoldable pub follow_game : Buses → QString → QString → Option (QString × ℕ) → Option (QString × ℕ)
follow_game w old new g =
    if list_eq old new || (is_empty old && list_eq new (owner_in g)) then g else find_game w new

-- A profile that is announced and valid.
abbrev pub accept_profile : Option (Result QString QString) → Bool → Bool
accept_profile (some (ok profile)) b = if valid_profile profile then is_performance profile else b
accept_profile _ b = b

unfoldable pub hear_profile :
    Buses
    → QString
    → List (QString × Variant)
    → List QString
    → Option (PowerEndpoint × Bool)
    → Option (PowerEndpoint × Bool)
hear_profile w interface changed invalidated none = none
hear_profile w interface changed invalidated (some (e, b)) =
    if list_eq interface e.interface
    then some (e, accept_profile (announced_profile w e changed invalidated) b)
    else some (e, b)

-- A change of an owner concerns the source where another is preferred now, or the source's own name has
-- another owner.
unfoldable pub concerns : Buses → QString → PowerEndpoint → Bool
concerns w service e =
    let next = preferred_power_endpoint w in
    not (same_endpoint next e) || (not (list_eq e.owner next.owner) && list_eq service e.service)

unfoldable pub follow_power :
    Buses
    → QString
    → QString
    → QString
    → Option (PowerEndpoint × Bool)
    → Option (PowerEndpoint × Bool)
follow_power w service old new p =
    if not (list_eq old new) && concerns w service (endpoint_in p) then find_power w else p

unfoldable pub start : Buses → Sources
start w = record {
  game =
      if w.session_connected then find_game w (owner_of (w.session_owner game_service)) else none;
  power = if w.system_connected then find_power w else none;
}

unfoldable pub step : Buses → Event → Sources → Sources
step w (game_event member arguments) t = record t { game = count_clients w member arguments t.game }
step w (game_owner_changed old new) t = record t { game = follow_game w old new t.game }
step w (power_properties_changed interface changed invalidated) t = record t {
  power = hear_profile w interface changed invalidated t.power;
}
step w (power_owner_changed service old new) t = record t {
  power = follow_power w service old new t.power;
}

unfoldable pub run : List (Buses × Event) → Sources → Sources
unfolding step
run [] t = t
run ((w, e) ∷ rest) t = run rest (step w e t)

-- What a message of the sources says, for an event.
abbrev pub clients_in : Option (QString × ℕ) → ℕ
clients_in none = 0
clients_in (some g) = g.1

abbrev pub performance_in : Option (PowerEndpoint × Bool) → Bool
performance_in none = false
performance_in (some p) = p.1

unfoldable pub message : Sources → QString → Fields
message t event =
    state_message (is_some t.game) (is_some t.power) (clients_in t.game) (performance_in t.power)
      event
