-- ===== src/Brightness/Requests.antt =====
-- src/brightness/main.cpp: the states that are published, and the requests.
use nagi_shell.Prelude.{
  ℕ, ◌+◌, min, Bool, true, false, not, ◌&&◌, ◌||◌, Option, none, some, is_some, List, [], ◌∷◌, ◌++◌,
  ◌==◌, ltb, if◌then◌else◌, map, any, list_eq,
}
use nagi_shell.Prelude.Int.{ℤ, pos, negsuc}
use nagi_shell.Notifications.Text.{QString, literal}
use nagi_shell.Json.{Double}
use nagi_shell.Brightness.{
  DisplayState, PendingRequest, ObservedChange, Outcome, pending, stale, busy, noop, timeout,
  DisplayLine, Message, state, state_unavailable, Call, Session, BrightnessBridge,
  request_timeout_ms, is_empty, find_pending, remove_pending, find_failure, remove_failure,
  insert_failure, arm_request_timer,
}

-- publishMessage, of a state.
unfoldable pub publish_message : Session → Bool → Message → BrightnessBridge → BrightnessBridge
publish_message w force message b =
    let bytes = w.to_bytes message in
    if not force && list_eq bytes b.last_state_message
    then b
    else record b { last_state_message = bytes; output = message ∷ b.output }

-- publishState prints the displays in the order of their names.
unfoldable pub comes_before : QString → QString → Bool
comes_before [] ys = true
comes_before (x ∷ xs) [] = false
comes_before (x ∷ xs) (y ∷ ys) = let later = comes_before xs ys in if x == y then later else ltb x y

abbrev pub insert_sorted : DisplayState → List DisplayState → List DisplayState
insert_sorted d [] = d ∷ []
insert_sorted d (e ∷ rest) =
    let later = insert_sorted d rest in
    if comes_before d.name e.name then d ∷ e ∷ rest else e ∷ later

unfoldable pub sort_displays : List DisplayState → List DisplayState
sort_displays [] = []
sort_displays (d ∷ rest) = insert_sorted d (sort_displays rest)

abbrev pub display_line : BrightnessBridge → DisplayState → DisplayLine
display_line b d = record {
  display = d;
  is_pending = is_some (find_pending d.name b.pending_requests);
  failure = find_failure d.name b.display_failures;
}

abbrev pub state_message : Option ObservedChange → Option (ℕ × Outcome) → BrightnessBridge → Message
state_message change request b =
    state (not (is_empty b.active_owner))
      (if is_empty b.active_owner then 0 else b.owner_generation)
      (map (display_line b) (sort_displays b.displays)) change request

unfoldable pub publish_state :
    Session → Option ObservedChange → Option (ℕ × Outcome) → BrightnessBridge → BrightnessBridge
unfolding publish_message
publish_state w change request b =
    publish_message w (is_some change || is_some request) (state_message change request b) b

-- publishRequestResult, with no change.
unfoldable pub publish_request_result : Session → ℕ → Outcome → BrightnessBridge → BrightnessBridge
unfolding publish_state
publish_request_result w request_id outcome b = publish_state w none (some (request_id, outcome)) b

unfoldable pub publish_results : Session → List ℕ → Outcome → BrightnessBridge → BrightnessBridge
unfolding publish_request_result
publish_results w [] outcome b = b
publish_results w (id ∷ ids) outcome b =
    publish_results w ids outcome (publish_request_result w id outcome b)

unfoldable pub publish_unavailable : Session → BrightnessBridge → BrightnessBridge
unfolding publish_message
publish_unavailable w b = publish_message w true state_unavailable b

-- std::clamp of the brightness that a ratio asks for.
abbrev pub clamped : ℤ → ℕ → ℕ
clamped (negsuc n) maximum = 0
clamped (pos n) maximum = min n maximum

abbrev pub find_key : QString → List DisplayState → Option DisplayState
find_key key [] = none
find_key key (d ∷ rest) = if list_eq d.key key then some d else find_key key rest

abbrev pub context_of : Session → ℕ → QString
context_of w request_id = literal "nagi-shell:" ++ w.number request_id

abbrev pub new_request : Session → ℕ → ℕ → DisplayState → BrightnessBridge → PendingRequest
new_request w request_id requested d b = record {
  request_id = request_id;
  generation = b.owner_generation;
  key = d.key;
  name = d.name;
  context = context_of w request_id;
  requested_brightness = requested;
  maximum = d.maximum;
  deadline_ms = w.elapsed + request_timeout_ms;
}

abbrev pub set_brightness : Session → ℕ → ℕ → DisplayState → BrightnessBridge → Call
set_brightness w request_id requested d b = record {
  owner = b.active_owner;
  display_name = d.name;
  value = requested;
  call_context = context_of w request_id;
}

-- requestBrightness, once the request is admitted.
unfoldable pub send_request : Session → ℕ → ℕ → DisplayState → BrightnessBridge → BrightnessBridge
unfolding publish_request_result
send_request w request_id requested d b =
    let b1 = arm_request_timer w (record b {
      pending_requests = new_request w request_id requested d b ∷ b.pending_requests;
      display_failures = remove_failure d.name b.display_failures;
    }) in
    let b2 = publish_request_result w request_id pending b1 in
    record b2 { calls = set_brightness w request_id requested d b ∷ b2.calls }

unfoldable pub request_for :
    Session → ℕ → Double → DisplayState → BrightnessBridge → BrightnessBridge
unfolding send_request publish_request_result
request_for w request_id ratio d b =
    let requested = clamped (w.scaled ratio d.maximum) d.maximum in
    if any (λ p. p.request_id == request_id) b.pending_requests
      || is_some (find_pending d.name b.pending_requests)
    then publish_request_result w request_id busy b
    else if requested == d.brightness
    then publish_request_result w request_id noop
        (record b { display_failures = remove_failure d.name b.display_failures })
    else send_request w request_id requested d b

-- requestBrightness.
unfoldable pub request_brightness :
    Session → ℕ → QString → Double → BrightnessBridge → BrightnessBridge
unfolding request_for publish_request_result
request_brightness w request_id key ratio b =
    if is_empty b.active_owner
    then publish_request_result w request_id stale b
    else elim (find_key key b.displays) [
      | none ↦ publish_request_result w request_id stale b
      | some d ↦ request_for w request_id ratio d b
    ]

-- The reply to a request; `none` is no error, else the outcome of normalizeDbusFailure.
unfoldable pub settle : Session → QString → ℕ → Outcome → BrightnessBridge → BrightnessBridge
unfolding publish_request_result
settle w name request_id outcome b = publish_request_result w request_id outcome (
    arm_request_timer w (record b {
      pending_requests = remove_pending name b.pending_requests;
      display_failures = insert_failure name outcome b.display_failures;
    }))

abbrev pub is_request : ℕ → Option PendingRequest → Bool
is_request request_id none = false
is_request request_id (some p) = p.request_id == request_id

unfoldable pub on_reply :
    Session → QString → ℕ → QString → ℕ → Option Outcome → BrightnessBridge → BrightnessBridge
unfolding settle
on_reply w owner generation name request_id none b = b
on_reply w owner generation name request_id (some outcome) b =
    if list_eq b.active_owner owner
      && b.owner_generation == generation
      && is_request request_id (find_pending name b.pending_requests)
    then settle w name request_id outcome b
    else b

-- clearPending.
unfoldable pub clear_pending : Session → QString → Outcome → BrightnessBridge → BrightnessBridge
unfolding publish_request_result
clear_pending w name outcome b = elim (find_pending name b.pending_requests) [
  | none ↦ b
  | some p ↦
      publish_request_result w p.request_id outcome (
        arm_request_timer w
          (record b { pending_requests = remove_pending name b.pending_requests }))
]

-- expireRequests.
abbrev pub is_expired : ℕ → PendingRequest → Bool
is_expired now p = not (ltb now p.deadline_ms)

unfoldable pub filter_requests : (PendingRequest → Bool) → List PendingRequest → List PendingRequest
filter_requests f [] = []
filter_requests f (p ∷ rest) =
    let later = filter_requests f rest in if f p then p ∷ later else later

abbrev pub timed_out : List PendingRequest → List (QString × Outcome) → List (QString × Outcome)
timed_out [] failures = failures
timed_out (p ∷ rest) failures = timed_out rest (insert_failure p.name timeout failures)

unfoldable pub expire_requests : Session → BrightnessBridge → BrightnessBridge
unfolding publish_results filter_requests
expire_requests w b =
    let expired = filter_requests (is_expired w.elapsed) b.pending_requests in
    publish_results w (map (λ p. p.request_id) expired) timeout (
      arm_request_timer w (record b {
        pending_requests = filter_requests (λ p. not (is_expired w.elapsed p)) b.pending_requests;
        display_failures = timed_out expired b.display_failures;
      }))
