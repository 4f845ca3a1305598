-- ===== src/Brightness/Events.antt =====
-- src/brightness/main.cpp: the signals, the owner of the service, the commands, and the histories of
-- events.
use nagi_shell.Prelude.{
  ℕ, suc, ◌+◌, ◌*◌, Bool, true, false, not, ◌&&◌, ◌||◌, Option, none, some, List, [], ◌∷◌, ◌++◌,
  ◌==◌, ltb, leb, if◌then◌else◌, length, any, list_eq,
}
use nagi_shell.Prelude.Int.{ℤ, pos}
use nagi_shell.Notifications.Text.{QString, literal}
use nagi_shell.Bytes.{Bytes, split_lines, chop_return}
use nagi_shell.Json.{Double, integral, Json, object, double, Fields, value, size, string_of}
use nagi_shell.Audio.Protocol.{is_volume}
use nagi_shell.Brightness.{
  self, external, unknown, ObservedChange, Outcome, stale, invalid, Session, PendingRequest,
  BrightnessBridge, maximum_command_bytes, maximum_displays, maximum_display_name_length, int_max,
  is_empty, valid_display_name, find_pending,
}
use nagi_shell.Brightness.Requests.{
  publish_request_result, publish_unavailable, request_brightness, on_reply, clear_pending,
  expire_requests,
}
use nagi_shell.Brightness.Snapshots.{refresh_snapshot}

-- The object after its construction.
unfoldable pub initial : BrightnessBridge
initial = record {
  active_owner = [];
  owner_generation = 0;
  snapshot_scheduled = false;
  displays = [];
  pending_requests = [];
  display_failures = [];
  observed_changes = [];
  request_timer = none;
  command_buffer = [];
  last_state_message = [];
  running = true;
  calls = [];
  output = [];
}

-- scheduleSnapshot.
abbrev pub schedule_snapshot : BrightnessBridge → BrightnessBridge
schedule_snapshot b = record b {
  snapshot_scheduled = b.snapshot_scheduled || not (is_empty b.active_owner);
}

-- queueObservedChange.
abbrev pub replace_change : ObservedChange → List ObservedChange → List ObservedChange
replace_change o [] = []
replace_change o (q ∷ rest) =
    let later = replace_change o rest in if list_eq q.name o.name then o ∷ rest else q ∷ later

abbrev pub without_first : List ObservedChange → List ObservedChange
without_first [] = []
without_first (q ∷ rest) = rest

unfoldable pub queue_observed_change : ObservedChange → List ObservedChange → List ObservedChange
queue_observed_change o changes =
    if any (λ (q : ObservedChange). list_eq q.name o.name) changes
    then replace_change o changes
    else if leb maximum_displays (length changes)
    then without_first changes ++ (o ∷ [])
    else changes ++ (o ∷ [])

-- onRootSignal, of BrightnessChanged.
abbrev pub is_own : Session → QString → QString → Option PendingRequest → Bool
is_own w source_name source_context none = false
is_own w source_name source_context (some p) =
    list_eq source_name w.base_service && list_eq source_context p.context

abbrev pub id_of : Option PendingRequest → ℕ
id_of none = 0
id_of (some p) = p.request_id

abbrev pub observed : Session → QString → ℤ → QString → QString → BrightnessBridge → ObservedChange
observed w name brightness source_name source_context b =
    let p = find_pending name b.pending_requests in
    record {
      name = name;
      brightness = brightness;
      origin =
          if is_own w source_name source_context p
          then self
          else if not (is_empty source_name) || not (is_empty source_context)
          then external
          else unknown;
      request_id = if is_own w source_name source_context p then id_of p else 0;
    }

unfoldable pub on_brightness_changed :
    Session → QString → ℤ → QString → QString → BrightnessBridge → BrightnessBridge
unfolding queue_observed_change
on_brightness_changed w name brightness source_name source_context b =
    if not (valid_display_name name)
    then b
    else schedule_snapshot (record b {
      observed_changes =
          queue_observed_change (observed w name brightness source_name source_context b)
            b.observed_changes;
    })

-- onRootSignal, of BrightnessRangeChanged, and of the signals that only tell of a display.
unfoldable pub on_range_changed : Session → QString → BrightnessBridge → BrightnessBridge
unfolding clear_pending
on_range_changed w name b =
    if not (valid_display_name name) then b else schedule_snapshot (clear_pending w name stale b)

unfoldable pub on_display_listed : QString → BrightnessBridge → BrightnessBridge
on_display_listed name b = if not (valid_display_name name) then b else schedule_snapshot b

-- detachOwner.
abbrev pub detach_owner : BrightnessBridge → BrightnessBridge
detach_owner b = record b {
  snapshot_scheduled = false;
  observed_changes = [];
  pending_requests = [];
  request_timer = none;
  displays = [];
  display_failures = [];
  active_owner = [];
}

-- attachOwner.
unfoldable pub attach_owner : QString → BrightnessBridge → BrightnessBridge
attach_owner owner b =
    let b' = if is_empty b.active_owner then b else detach_owner b in
    if is_empty owner || list_eq owner b.active_owner
    then b
    else if leb int_max b'.owner_generation
    then b'
    else schedule_snapshot
        (record b' { owner_generation = suc b'.owner_generation; active_owner = owner })

-- onServiceOwnerChanged.
unfoldable pub on_service_owner_changed : Session → QString → BrightnessBridge → BrightnessBridge
unfolding attach_owner publish_unavailable
on_service_owner_changed w owner b =
    if list_eq owner b.active_owner
    then b
    else let b' = publish_unavailable w (detach_owner b) in
      if is_empty owner then b' else attach_owner owner b'

-- initialize.
unfoldable pub initialize : Session → BrightnessBridge → BrightnessBridge
unfolding attach_owner publish_unavailable
initialize w b =
    if not w.connected || is_empty w.service_owner
    then publish_unavailable w b
    else attach_owner w.service_owner b

-- handleCommand.
abbrev pub request_id_of : Json → Option ℕ
request_id_of (double (integral (pos n))) = if leb 1 n && leb n int_max then some n else none
request_id_of _ = none

abbrev pub ratio_of : Json → Option Double
ratio_of (double d) = if is_volume d then some d else none
ratio_of _ = none

unfoldable pub reject : Session → Option ℕ → BrightnessBridge → BrightnessBridge
unfolding publish_request_result
reject w none b = b
reject w (some request_id) b = publish_request_result w request_id invalid b

abbrev pub is_setting : Fields → Bool
is_setting o =
    let key = string_of (value (literal "displayKey") o) in
    size o == 4
    && list_eq (string_of (value (literal "action") o)) (literal "setBrightness")
    && not (is_empty key)
    && not (ltb (maximum_display_name_length + 16) (length key))

unfoldable pub set_command :
    Session → Fields → Option ℕ → Option Double → BrightnessBridge → BrightnessBridge
unfolding reject request_brightness
set_command w o (some request_id) (some ratio) b =
    if is_setting o
    then request_brightness w request_id (string_of (value (literal "displayKey") o)) ratio b
    else reject w (some request_id) b
set_command w o id ratio b = reject w id b

unfoldable pub handle_command : Session → Fields → BrightnessBridge → BrightnessBridge
unfolding set_command
handle_command w o b =
    if list_eq (string_of (value (literal "action") o)) (literal "shutdown") && size o == 1
    then record b { running = false }
    else set_command w o (request_id_of (value (literal "requestId") o))
        (ratio_of (value (literal "ratio") o)) b

abbrev pub handle_document : Session → Option Json → BrightnessBridge → BrightnessBridge
handle_document w (some (object o)) b = handle_command w o b
handle_document w _ b = b

-- One line of the input.
unfoldable pub handle_line : Session → Bytes → BrightnessBridge → BrightnessBridge
unfolding handle_command
handle_line w line b =
    if is_empty line || ltb maximum_command_bytes (length line)
    then b
    else handle_document w (w.from_json line) b

unfoldable pub handle_lines : Session → List Bytes → BrightnessBridge → BrightnessBridge
unfolding handle_line
handle_lines w [] b = b
handle_lines w (line ∷ lines) b = handle_lines w lines (handle_line w (chop_return line) b)

-- readCommands, of the bytes that were read.
unfoldable pub read_commands : Session → Bytes → BrightnessBridge → BrightnessBridge
unfolding handle_lines
read_commands w bytes b =
    let buffer = b.command_buffer ++ bytes in
    let found =
      split_lines (if ltb (maximum_command_bytes * 2) (length buffer) then [] else buffer) in
    handle_lines w found.lines (record b { command_buffer = found.rest })

-- The timer fires once, when its interval is over.
abbrev pub is_over : ℕ → Option (ℕ × ℕ) → Bool
is_over now none = false
is_over now (some (interval, start)) = leb (start + interval) now

unfoldable pub on_timeout : Session → BrightnessBridge → BrightnessBridge
unfolding expire_requests
on_timeout w b =
    if is_over w.elapsed b.request_timer
    then expire_requests w (record b { request_timer = none })
    else b

pub data Event : Type 0 where
  initialized refreshed timer_fired input_closed : Event
  owner_changed range_changed display_listed : QString → Event
  brightness_changed : QString → ℤ → QString → QString → Event
  replied : QString → ℕ → QString → ℕ → Option Outcome → Event
  bytes_read : Bytes → Event

unfoldable pub step : Session → Event → BrightnessBridge → BrightnessBridge
step w initialized b = initialize w b
step w refreshed b = refresh_snapshot w b
step w timer_fired b = on_timeout w b
step w input_closed b = record b { running = false }
step w (owner_changed owner) b = on_service_owner_changed w owner b
step w (range_changed name) b = on_range_changed w name b
step w (display_listed name) b = on_display_listed name b
step w (brightness_changed name brightness source_name source_context) b =
    on_brightness_changed w name brightness source_name source_context b
step w (replied owner generation name request_id outcome) b =
    on_reply w owner generation name request_id outcome b
step w (bytes_read bytes) b = read_commands w bytes b

-- Each event comes with the answers that it gets.
unfoldable pub run : List (Session × Event) → BrightnessBridge → BrightnessBridge
run [] b = b
run ((w, e) ∷ rest) b = run rest (step w e b)
