-- ===== src/GamingPerformance.antt =====
-- src/gaming-performance/main.cpp: the state of GamingPerformanceObserver, and what it prints. What D-Bus
-- answers during one event is a parameter, and so is Qt's JSON printer.
pub mod Attachments
pub mod Events
pub mod Sources
pub mod Refinement
pub mod Validity
mod Tests
use nagi_shell.Prelude.{
  ℕ, zero, suc, ◌+◌, Bool, true, false, not, ◌&&◌, ◌||◌, Option, none, some, List, [], ◌∷◌, leb,
  list_eq, take, if◌then◌else◌,
}
use nagi_shell.Prelude.Int.{ℤ, pos}
use nagi_shell.Notifications.Text.{QString, literal}
use nagi_shell.Bytes.{Bytes}
use nagi_shell.Json.{bool, double, integral, string, Fields, end, field, value, string_of}

-- A QVariant by its metatype; `text` holds a string.
pub data Variant : Type 0 where
  invalid other : Variant
  int : ℤ → Variant
  text : QString → Variant

-- A reply to a call of Get: whether it is one, and its arguments, each a QDBusVariant or `none`.
pub record Reply : Type 0 where
  pub is_reply : Bool
  pub arguments : List (Option Variant)

pub record PowerEndpoint : Type 0 where
  pub service : QString
  pub path : QString
  pub interface : QString
  pub owner : QString

abbrev pub is_empty {ℓ} : {A : Type ℓ} → List A → Bool
is_empty [] = true
is_empty (x ∷ xs) = false

-- PowerEndpoint::available.
abbrev pub available : PowerEndpoint → Bool
available e = not (is_empty e.owner)

-- What the buses answer: whether they are connected, the owner of a name where the reply is valid, whether a
-- signal could be connected, and the replies to Get.
pub record Buses : Type 0 where
  pub session_connected : Bool
  pub system_connected : Bool
  pub session_owner : QString → Option QString
  pub system_owner : QString → Option QString
  pub connects_registered : Bool
  pub connects_unregistered : Bool
  pub connects_power : PowerEndpoint → Bool
  pub client_count : Reply
  pub active_profile : PowerEndpoint → Reply

-- The fields of publish, with the lines on the standard output, and those of diagnose, with the lines on the
-- standard error; the newest line comes first.
pub record Output : Type 0 where
  pub last_state : Bytes
  pub lines : List Bytes

pub record Diagnostics : Type 0 where
  pub diagnostic_count : ℕ
  pub last_diagnostic : QString
  pub messages : List QString

-- `registered` and `unregistered` are whether the two signals of GameMode are connected to onGameEvent, and
-- `observed` the services whose PropertiesChanged is connected to onPowerPropertiesChanged.
pub record GamingPerformanceObserver : Type 0 where
  pub game_owner : QString
  pub power_endpoint : PowerEndpoint
  pub game_client_count : ℕ
  pub performance_profile : Bool
  pub registered : Bool
  pub unregistered : Bool
  pub observed : List QString
  pub output : Output
  pub diagnostics : Diagnostics

abbrev pub maximum_client_count : ℕ
maximum_client_count = 1000000

abbrev pub maximum_diagnostics : ℕ
maximum_diagnostics = 8

-- readProperty, of the reply.
abbrev pub only_argument : List (Option Variant) → Variant
only_argument (some v ∷ []) = v
only_argument _ = invalid

abbrev pub read_property : Reply → Variant
read_property r = if not r.is_reply then invalid else only_argument r.arguments

-- readGameClientCount.
abbrev pub client_count_of : Variant → Option ℕ
client_count_of (int (pos n)) = if leb n maximum_client_count then some n else none
client_count_of _ = none

unfoldable pub read_game_client_count : Buses → Option ℕ
read_game_client_count w = client_count_of (read_property w.client_count)

-- readPowerProfile.
abbrev pub profile_of : Variant → Option QString
profile_of (text s) = some s
profile_of _ = none

unfoldable pub read_power_profile : Buses → PowerEndpoint → Option QString
read_power_profile w e = profile_of (read_property (w.active_profile e))

unfoldable pub is_performance : QString → Bool
is_performance profile = list_eq profile (literal "performance")

-- validProfile.
unfoldable pub valid_profile : QString → Bool
unfolding is_performance
valid_profile profile =
    is_performance profile
    || list_eq profile (literal "balanced")
    || list_eq profile (literal "power-saver")

-- publish: what it does with the bytes of a message.
unfoldable pub is_state : Fields → Bool
is_state message = list_eq (string_of (value (literal "type") message)) (literal "state")

unfoldable pub publish : (Fields → Bytes) → Fields → Bool → Output → Output
unfolding is_state
publish to_json message force o =
    let bytes = to_json message in
    if not force && is_state message && list_eq bytes o.last_state then o else record {
      last_state = if is_state message then bytes else o.last_state;
      lines = bytes ∷ o.lines;
    }

abbrev pub number : ℕ → QString → Fields → Fields
number n key rest = field key (double (integral (pos n))) rest

-- The message of publishState.
unfoldable pub state_message : Bool → Bool → ℕ → Bool → QString → Fields
state_message game power clients performance event =
    field (literal "type") (string (literal "state")) (
      field (literal "available") (bool (game || power)) (
        field (literal "gameModeAvailable") (bool game) (
          field (literal "powerProfilesAvailable") (bool power) (
            number clients (literal "gameClientCount") (
              field (literal "performanceProfile") (bool performance) (
                number (clients + (if performance then 1 else 0)) (literal "sourceCount")
                  (field (literal "event") (string event) end)))))))

-- publishState.
unfoldable pub publish_state :
    (Fields → Bytes) → QString → Bool → GamingPerformanceObserver → GamingPerformanceObserver
unfolding publish state_message
publish_state to_json event force s = record s {
  output =
      publish to_json
        (state_message (not (is_empty s.game_owner)) (available s.power_endpoint)
          s.game_client_count s.performance_profile event)
        force s.output;
}

-- diagnose. The messages are ASCII, so their bytes are their code units.
unfoldable pub note : QString → Diagnostics → Diagnostics
note message d =
    if leb maximum_diagnostics d.diagnostic_count || list_eq message d.last_diagnostic
    then d
    else record {
      diagnostic_count = suc d.diagnostic_count;
      last_diagnostic = message;
      messages = take 160 message ∷ d.messages;
    }

unfoldable pub diagnose : QString → GamingPerformanceObserver → GamingPerformanceObserver
unfolding note
diagnose message s = record s { diagnostics = note message s.diagnostics }
