-- ===== src/Brightness.antt =====
-- src/brightness/main.cpp: the state of BrightnessBridge, and what it prints. What D-Bus, the clock and
-- Qt's conversions answer during one event is a parameter. The log lines of `diagnose` are left out.
pub mod Requests
pub mod Snapshots
pub mod Events
pub mod Validity
pub mod Deadlines
pub mod Answers
pub mod Accounts
mod Tests
use nagi_shell.Prelude.{
  ℕ, zero, suc, ◌+◌, ◌-◌, min, max, Bool, true, false, not, ◌&&◌, ◌||◌, Option, none, some, is_some,
  List, [], ◌∷◌, ◌++◌, ◌==◌, ltb, leb, if◌then◌else◌, length, map, any, all, list_eq,
}
use nagi_shell.Prelude.Int.{ℤ, pos, negsuc}
use nagi_shell.Notifications.Text.{QString, literal}
use nagi_shell.Bytes.{Bytes}
use nagi_shell.Json.{Double, Json}

pub record DisplayState : Type 0 where
  pub name : QString
  pub key : QString
  pub label : QString
  pub is_internal : Bool
  pub maximum : ℕ
  pub brightness : ℕ

pub record PendingRequest : Type 0 where
  pub request_id : ℕ
  pub generation : ℕ
  pub key : QString
  pub name : QString
  pub context : QString
  pub requested_brightness : ℕ
  pub maximum : ℕ
  pub deadline_ms : ℕ

pub data Origin : Type 0 where
  self external unknown : Origin

pub record ObservedChange : Type 0 where
  pub name : QString
  pub brightness : ℤ
  pub origin : Origin
  pub request_id : ℕ

pub data Outcome : Type 0 where
  pending stale busy noop invalid confirmed timeout unavailable backend : Outcome

-- displayJson; the ratio is printed from the brightness and the maximum.
pub record DisplayLine : Type 0 where
  pub display : DisplayState
  pub is_pending : Bool
  pub failure : Option Outcome

-- A state, with the change and the request that it reports.
pub data Message : Type 0 where
  state_unavailable : Message
  state : Bool → ℕ → List DisplayLine → Option ObservedChange → Option (ℕ × Outcome) → Message

-- A call of SetBrightnessWithContext, to an owner, for a display.
pub record Call : Type 0 where
  pub owner : QString
  pub display_name : QString
  pub value : ℕ
  pub call_context : QString

-- The properties of a display, where they have the types that are expected.
pub record Properties : Type 0 where
  pub label : QString
  pub is_internal : Bool
  pub maximum : ℤ
  pub brightness : ℤ

-- `number` is QString::number, and `scaled` the product of a ratio and a maximum, rounded by lround.
pub record Session : Type 0 where
  pub elapsed : ℕ
  pub connected : Bool
  pub base_service : QString
  pub service_owner : QString
  pub display_names : Option (List QString)
  pub properties : QString → Option Properties
  pub number : ℕ → QString
  pub scaled : Double → ℕ → ℤ
  pub from_json : Bytes → Option Json
  pub to_bytes : Message → Bytes

-- A hash is a list with one entry for a name. The timer holds its interval and when it was started;
-- `calls` and `output` what was called and printed, newest first.
pub record BrightnessBridge : Type 0 where
  pub active_owner : QString
  pub owner_generation : ℕ
  pub snapshot_scheduled : Bool
  pub displays : List DisplayState
  pub pending_requests : List PendingRequest
  pub display_failures : List (QString × Outcome)
  pub observed_changes : List ObservedChange
  pub request_timer : Option (ℕ × ℕ)
  pub command_buffer : Bytes
  pub last_state_message : Bytes
  pub running : Bool
  pub calls : List Call
  pub output : List Message

abbrev pub request_timeout_ms : ℕ
request_timeout_ms = 2500

abbrev pub maximum_command_bytes : ℕ
maximum_command_bytes = 4096

abbrev pub maximum_displays : ℕ
maximum_displays = 32

abbrev pub maximum_display_name_length : ℕ
maximum_display_name_length = 128

abbrev pub maximum_label_length : ℕ
maximum_label_length = 128

abbrev pub int_max : ℕ
int_max = 2147483647

abbrev pub is_empty {ℓ} : {A : Type ℓ} → List A → Bool
is_empty [] = true
is_empty (x ∷ xs) = false

-- validDisplayName.
abbrev pub is_name_unit : ℕ → Bool
is_name_unit c =
    (leb b'A' c && leb c b'Z')
    || (leb b'a' c && leb c b'z')
    || (leb b'0' c && leb c b'9')
    || c == b'_'

unfoldable pub valid_display_name : QString → Bool
valid_display_name name =
    not (is_empty name)
    && not (ltb maximum_display_name_length (length name))
    && all is_name_unit name

-- The hashes, by name.
unfoldable pub find_display : QString → List DisplayState → Option DisplayState
find_display name [] = none
find_display name (d ∷ rest) = if list_eq d.name name then some d else find_display name rest

unfoldable pub insert_display : DisplayState → List DisplayState → List DisplayState
insert_display d [] = d ∷ []
insert_display d (e ∷ rest) = if list_eq e.name d.name then d ∷ rest else e ∷ insert_display d rest

unfoldable pub find_pending : QString → List PendingRequest → Option PendingRequest
find_pending name [] = none
find_pending name (p ∷ rest) = if list_eq p.name name then some p else find_pending name rest

unfoldable pub remove_pending : QString → List PendingRequest → List PendingRequest
remove_pending name [] = []
remove_pending name (p ∷ rest) = if list_eq p.name name then rest else p ∷ remove_pending name rest

unfoldable pub find_failure : QString → List (QString × Outcome) → Option Outcome
find_failure name [] = none
find_failure name ((n, o) ∷ rest) = if list_eq n name then some o else find_failure name rest

unfoldable pub remove_failure : QString → List (QString × Outcome) → List (QString × Outcome)
remove_failure name [] = []
remove_failure name ((n, o) ∷ rest) =
    if list_eq n name then rest else (n, o) ∷ remove_failure name rest

abbrev pub insert_failure : QString → Outcome → List (QString × Outcome) → List (QString × Outcome)
insert_failure name o failures = (name, o) ∷ remove_failure name failures

-- armRequestTimer.
abbrev pub nearest_deadline : List PendingRequest → ℕ → ℕ
nearest_deadline [] nearest = nearest
nearest_deadline (p ∷ rest) nearest = nearest_deadline rest (min nearest p.deadline_ms)

unfoldable pub interval : ℕ → PendingRequest → List PendingRequest → ℕ
interval now p rest = min (max 1 (nearest_deadline rest p.deadline_ms - now)) int_max

abbrev pub timer_for : ℕ → List PendingRequest → Option (ℕ × ℕ)
timer_for now [] = none
timer_for now (p ∷ rest) = some (interval now p rest, now)

abbrev pub arm_request_timer : Session → BrightnessBridge → BrightnessBridge
arm_request_timer w b = record b { request_timer = timer_for w.elapsed b.pending_requests }
