-- ===== src/GamingPerformance/Attachments.antt =====
-- src/gaming-performance/main.cpp: the sources that are observed, their owners and their signals.
use nagi_shell.Prelude.{
  Bool, not, ◌&&◌, ◌||◌, Option, none, some, List, [], ◌∷◌, list_eq, if◌then◌else◌,
}
use nagi_shell.Notifications.Text.{QString, literal}
use nagi_shell.GamingPerformance.{
  PowerEndpoint, available, is_empty, Buses, GamingPerformanceObserver, read_game_client_count,
  read_power_profile, is_performance, valid_profile, diagnose,
}

unfoldable pub game_service : QString
game_service = literal "com.feralinteractive.GameMode"

unfoldable pub modern_endpoint : QString → PowerEndpoint
modern_endpoint name = record {
  service = literal "org.freedesktop.UPower.PowerProfiles";
  path = literal "/org/freedesktop/UPower/PowerProfiles";
  interface = literal "org.freedesktop.UPower.PowerProfiles";
  owner = name;
}

unfoldable pub legacy_endpoint : QString → PowerEndpoint
legacy_endpoint name = record {
  service = literal "net.hadess.PowerProfiles";
  path = literal "/net/hadess/PowerProfiles";
  interface = literal "net.hadess.PowerProfiles";
  owner = name;
}

abbrev pub no_endpoint : PowerEndpoint
no_endpoint = record { service = []; path = []; interface = []; owner = [] }

-- serviceOwner.
abbrev pub owner_of : Option QString → QString
owner_of none = []
owner_of (some name) = name

-- detachGame.
unfoldable pub detach_game : GamingPerformanceObserver → GamingPerformanceObserver
detach_game s = record s {
  game_owner = [];
  registered = is_empty s.game_owner && s.registered;
  unregistered = is_empty s.game_owner && s.unregistered;
}

-- attachGame, once the signals are connected.
unfoldable pub read_clients :
    Buses → QString → GamingPerformanceObserver → GamingPerformanceObserver
unfolding detach_game diagnose
read_clients w name s =
    let s' = record s { game_owner = name } in
    elim (read_game_client_count w) [
      | none ↦ detach_game (diagnose (literal "could not read GameMode ClientCount") s')
      | some n ↦ record s' { game_client_count = n }
    ]

-- attachGame. The second signal is connected only if the first one was.
abbrev pub connects_game : Buses → Bool
connects_game w = w.connects_registered && w.connects_unregistered

unfoldable pub attach_game : Buses → QString → GamingPerformanceObserver → GamingPerformanceObserver
unfolding read_clients detach_game diagnose
attach_game w name s =
    let s' = record s {
      registered = s.registered || w.connects_registered;
      unregistered = s.unregistered || connects_game w;
    } in
    if is_empty name
    then s
    else if not (connects_game w)
    then detach_game (diagnose (literal "could not observe GameMode") s')
    else read_clients w name s'

-- preferredPowerEndpoint.
unfoldable pub preferred_power_endpoint : Buses → PowerEndpoint
unfolding modern_endpoint legacy_endpoint
preferred_power_endpoint w =
    let modern = owner_of (w.system_owner (literal "org.freedesktop.UPower.PowerProfiles")) in
    let legacy = owner_of (w.system_owner (literal "net.hadess.PowerProfiles")) in
    if not (is_empty modern)
    then modern_endpoint modern
    else if not (is_empty legacy)
    then legacy_endpoint legacy
    else no_endpoint

-- sameEndpoint.
unfoldable pub same_endpoint : PowerEndpoint → PowerEndpoint → Bool
same_endpoint left right =
    list_eq left.service right.service
    && list_eq left.path right.path
    && list_eq left.interface right.interface

-- QDBusConnection::disconnect, of the services that are observed.
unfoldable pub remove : QString → List QString → List QString
remove name [] = []
remove name (x ∷ xs) = let rest = remove name xs in if list_eq x name then rest else x ∷ rest

-- detachPower.
unfoldable pub detach_power : GamingPerformanceObserver → GamingPerformanceObserver
detach_power s = record s {
  power_endpoint = no_endpoint;
  observed =
      if available s.power_endpoint then remove s.power_endpoint.service s.observed else s.observed;
}

-- attachPower: the profile, where it can be read and is a valid one.
unfoldable pub read_valid_profile : Buses → PowerEndpoint → Option QString
unfolding read_power_profile valid_profile
read_valid_profile w e = elim (read_power_profile w e) [
  | none ↦ none
  | some profile ↦ if valid_profile profile then some profile else none
]

-- attachPower, once the signal is connected.
unfoldable pub read_profile :
    Buses → PowerEndpoint → GamingPerformanceObserver → GamingPerformanceObserver
unfolding read_valid_profile detach_power diagnose is_performance
read_profile w e s =
    let s' = record s { power_endpoint = e; observed = e.service ∷ s.observed } in
    elim (read_valid_profile w e) [
      | none ↦ detach_power (diagnose (literal "could not read ActiveProfile") s')
      | some profile ↦ record s' { performance_profile = is_performance profile }
    ]

-- attachPower.
unfoldable pub attach_power :
    Buses → PowerEndpoint → GamingPerformanceObserver → GamingPerformanceObserver
unfolding read_profile diagnose
attach_power w e s =
    if not (available e)
    then s
    else if not (w.connects_power e)
    then diagnose (literal "could not observe Power Profiles") s
    else read_profile w e s
