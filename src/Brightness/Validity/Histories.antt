-- ===== src/Brightness/Validity/Histories.antt =====
-- Every event keeps the invariant of the brightness helper, and so does every history.
use nagi_shell.Prelude.{
  ℕ, suc, ◌*◌, ◌≤◌, ◌<◌, ◌≡◌, refl, true, false, not, ◌&&◌, ◌||◌, Option, none, some, List, [], ◌∷◌,
  ◌++◌, ◌==◌, ltb, leb, if◌then◌else◌, length, length-append, any, list_eq, arith, if_ind,
}
use nagi_shell.Prelude.Int.{ℤ}
use nagi_shell.Notifications.Text.{QString, literal}
use nagi_shell.Bytes.{Bytes, split_lines, chop_return}
use nagi_shell.Json.{Double, Json, object, Fields, value, size, string_of}
use nagi_shell.Brightness.{
  ObservedChange, stale, invalid, Session, int_max, BrightnessBridge, is_empty, valid_display_name,
  maximum_displays, maximum_command_bytes,
}
use nagi_shell.Brightness.Requests.{publish_unavailable, expire_requests}
use nagi_shell.Brightness.Events.{
  initial, replace_change, without_first, queue_observed_change, observed, on_brightness_changed,
  on_range_changed, on_display_listed, detach_owner, attach_owner, on_service_owner_changed,
  initialize, reject, is_setting, set_command, handle_command, handle_document, handle_line,
  handle_lines, read_commands, is_over, on_timeout, Event, initialized, refreshed, timer_fired,
  input_closed, owner_changed, range_changed, display_listed, brightness_changed, replied,
  bytes_read, step, run,
}
use nagi_shell.Brightness.Validity.{IsCoherent}
use nagi_shell.Brightness.Validity.Requests.{
  publish_request_result-IsCoherent, publish_unavailable-IsCoherent, on_reply-IsCoherent,
  clear_pending-IsCoherent, expire_requests-IsCoherent, request_brightness-IsCoherent,
}
use nagi_shell.Brightness.Validity.Snapshots.{refresh_snapshot-IsCoherent}

pub initial-IsCoherent : IsCoherent initial
unfolding initial
initial-IsCoherent = record {
  ranged = tt;
  named = tt;
  fit = tt;
  apart = tt;
  few_changes = omega arith;
  timed = refl;
  owned = refl;
}

-- The queue of observed changes keeps its bound.
length-replace_change :
    (o : ObservedChange) (changes : List ObservedChange)
    → length (replace_change o changes) ≡ length changes
length-replace_change o [] = refl
length-replace_change o (q ∷ rest) = ground (arith, length-replace_change o rest)

length-without_first :
    (changes : List ObservedChange)
    → 1 ≤ length changes
    → suc (length (without_first changes)) ≡ length changes
length-without_first [] h = omega (arith, h)
length-without_first (q ∷ rest) h = refl

length-queue_observed_change :
    (o : ObservedChange) (changes : List ObservedChange)
    → length changes ≤ 32
    → length (queue_observed_change o changes) ≤ 32
unfolding queue_observed_change
length-queue_observed_change o changes few =
    if_ind (λ (qs : List ObservedChange). length qs ≤ 32)
      (any (λ (q : ObservedChange). list_eq q.name o.name) changes) (λ _. replaced_few)
      λ _.
        if_ind (λ (qs : List ObservedChange). length qs ≤ 32)
          (leb maximum_displays (length changes)) full (λ e. room (below changes e))
  where
    below : (qs : List ObservedChange) → leb maximum_displays (length qs) ≡ false → length qs < 32
    below qs e = ground (arith, e)

    above : (qs : List ObservedChange) → leb maximum_displays (length qs) ≡ true → 32 ≤ length qs
    above qs e = ground (arith, e)

    replaced_few : length (replace_change o changes) ≤ 32
    replaced_few = omega (arith, few, length-replace_change o changes)

    full :
        leb maximum_displays (length changes) ≡ true
        → length (without_first changes ++ (o ∷ [])) ≤ 32
    full e =
        let h : 32 ≤ length changes = above changes e in
        let g : suc (length (without_first changes)) ≡ length changes =
          length-without_first changes (omega (arith, h)) in
        omega (arith, few, g, length-append (without_first changes) (o ∷ []))

    room : length changes < 32 → length (changes ++ (o ∷ [])) ≤ 32
    room h = omega (arith, h, length-append changes (o ∷ []))

module _ (w : Session) where
  on_brightness_changed-IsCoherent :
      (name : QString) (z : ℤ) (source_name source_context : QString) (b : BrightnessBridge)
      → IsCoherent b
      → IsCoherent (on_brightness_changed w name z source_name source_context b)
  unfolding on_brightness_changed
  on_brightness_changed-IsCoherent name z source_name source_context b v =
      if_ind IsCoherent (not (valid_display_name name)) (λ _. v)
        λ _. record {
          ranged = v.ranged;
          named = v.named;
          fit = v.fit;
          apart = v.apart;
          few_changes =
              length-queue_observed_change (observed w name z source_name source_context b)
                b.observed_changes v.few_changes;
          timed = v.timed;
          owned = v.owned;
        }

  on_range_changed-IsCoherent :
      (name : QString) (b : BrightnessBridge)
      → IsCoherent b
      → IsCoherent (on_range_changed w name b)
  unfolding on_range_changed
  on_range_changed-IsCoherent name b v =
      if_ind IsCoherent (not (valid_display_name name)) (λ _. v)
        λ _. clear_pending-IsCoherent w name stale b v

  detach_owner-IsCoherent : (b : BrightnessBridge) → IsCoherent (detach_owner b)
  detach_owner-IsCoherent b = record {
    ranged = tt;
    named = tt;
    fit = tt;
    apart = tt;
    few_changes = omega arith;
    timed = refl;
    owned = refl;
  }

  -- A new owner, of a helper that had none.
  owned-IsCoherent :
      (owner : QString) (generation : ℕ) (b : BrightnessBridge)
      → IsCoherent b
      → is_empty owner ≡ false
      → IsCoherent (record b { owner_generation = generation; active_owner = owner })
  owned-IsCoherent owner generation b v some_owner = record {
    ranged = v.ranged;
    named = v.named;
    fit = v.fit;
    apart = v.apart;
    few_changes = v.few_changes;
    timed = v.timed;
    owned = ground (arith, some_owner);
  }

  attach_owner-IsCoherent :
      (owner : QString) (b : BrightnessBridge) → IsCoherent b → IsCoherent (attach_owner owner b)
  unfolding attach_owner
  attach_owner-IsCoherent owner b v =
      let b' = if is_empty b.active_owner then b else detach_owner b in
      let v' =
        if_ind IsCoherent (is_empty b.active_owner) (λ _. v) (λ _. detach_owner-IsCoherent b) in
      if_ind IsCoherent (is_empty owner || list_eq owner b.active_owner) (λ _. v)
        λ e.
          if_ind IsCoherent (leb int_max b'.owner_generation) (λ _. v')
            λ _. owned-IsCoherent owner (suc b'.owner_generation) b' v' (ground (arith, e))

  on_service_owner_changed-IsCoherent :
      (owner : QString) (b : BrightnessBridge)
      → IsCoherent b
      → IsCoherent (on_service_owner_changed w owner b)
  unfolding on_service_owner_changed
  on_service_owner_changed-IsCoherent owner b v =
      let b' = publish_unavailable w (detach_owner b) in
      let v' = publish_unavailable-IsCoherent w (detach_owner b) (detach_owner-IsCoherent b) in
      if_ind IsCoherent (list_eq owner b.active_owner) (λ _. v)
        λ _. if_ind IsCoherent (is_empty owner) (λ _. v') λ _. attach_owner-IsCoherent owner b' v'

  initialize-IsCoherent : (b : BrightnessBridge) → IsCoherent b → IsCoherent (initialize w b)
  unfolding initialize
  initialize-IsCoherent b v =
      if_ind IsCoherent (not w.connected || is_empty w.service_owner)
        (λ _. publish_unavailable-IsCoherent w b v) λ _. attach_owner-IsCoherent w.service_owner b v

  reject-IsCoherent :
      (o : Option ℕ) (b : BrightnessBridge) → IsCoherent b → IsCoherent (reject w o b)
  unfolding reject
  reject-IsCoherent none b v = v
  reject-IsCoherent (some id) b v = publish_request_result-IsCoherent w id invalid b v

  set_command-IsCoherent :
      (o : Fields) (id : Option ℕ) (ratio : Option Double) (b : BrightnessBridge)
      → IsCoherent b
      → IsCoherent (set_command w o id ratio b)
  unfolding set_command
  set_command-IsCoherent o (some id) (some ratio) b v =
      if_ind IsCoherent (is_setting o)
        (λ _.
          request_brightness-IsCoherent w id (string_of (value (literal "displayKey") o)) ratio b v)
        λ _. reject-IsCoherent (some id) b v
  set_command-IsCoherent o none ratio b v = reject-IsCoherent none b v
  set_command-IsCoherent o (some id) none b v = reject-IsCoherent (some id) b v

  handle_command-IsCoherent :
      (o : Fields) (b : BrightnessBridge) → IsCoherent b → IsCoherent (handle_command w o b)
  unfolding handle_command
  handle_command-IsCoherent o b v =
      if_ind IsCoherent
        (list_eq (string_of (value (literal "action") o)) (literal "shutdown") && size o == 1)
        (λ _. v) λ _. set_command-IsCoherent o _ _ b v

  handle_document-IsCoherent :
      (j : Option Json) (b : BrightnessBridge) → IsCoherent b → IsCoherent (handle_document w j b)
  handle_document-IsCoherent (some (object o)) b v = handle_command-IsCoherent o b v
  handle_document-IsCoherent _ b v = v

  handle_line-IsCoherent :
      (line : Bytes) (b : BrightnessBridge) → IsCoherent b → IsCoherent (handle_line w line b)
  unfolding handle_line
  handle_line-IsCoherent line b v =
      if_ind IsCoherent (is_empty line || ltb maximum_command_bytes (length line)) (λ _. v)
        λ _. handle_document-IsCoherent (w.from_json line) b v

  handle_lines-IsCoherent :
      (lines : List Bytes) (b : BrightnessBridge)
      → IsCoherent b
      → IsCoherent (handle_lines w lines b)
  unfolding handle_lines
  handle_lines-IsCoherent [] b v = v
  handle_lines-IsCoherent (line ∷ lines) b v =
      handle_lines-IsCoherent lines (handle_line w (chop_return line) b)
        (handle_line-IsCoherent (chop_return line) b v)

  off :
      (b : BrightnessBridge)
      → IsCoherent b
      → IsCoherent (expire_requests w (record b { request_timer = none }))
  unfolding expire_requests
  off b v = expire_requests-IsCoherent w b v

  step-IsCoherent : (e : Event) (b : BrightnessBridge) → IsCoherent b → IsCoherent (step w e b)
  unfolding step on_timeout on_display_listed read_commands
  step-IsCoherent initialized b v = initialize-IsCoherent b v
  step-IsCoherent refreshed b v = refresh_snapshot-IsCoherent w b v
  step-IsCoherent timer_fired b v =
      if_ind IsCoherent (is_over w.elapsed b.request_timer) (λ _. off b v) (λ _. v)
  step-IsCoherent input_closed b v = v
  step-IsCoherent (owner_changed owner) b v = on_service_owner_changed-IsCoherent owner b v
  step-IsCoherent (range_changed name) b v = on_range_changed-IsCoherent name b v
  step-IsCoherent (display_listed name) b v =
      if_ind IsCoherent (not (valid_display_name name)) (λ _. v) (λ _. v)
  step-IsCoherent (brightness_changed name z source_name source_context) b v =
      on_brightness_changed-IsCoherent name z source_name source_context b v
  step-IsCoherent (replied owner generation name id outcome) b v =
      on_reply-IsCoherent w owner generation name id outcome b v
  step-IsCoherent (bytes_read bytes) b v =
      let buffer = b.command_buffer ++ bytes in
      let found =
        split_lines (if ltb (maximum_command_bytes * 2) (length buffer) then [] else buffer) in
      handle_lines-IsCoherent found.lines (record b { command_buffer = found.rest }) v

run-IsCoherent :
    (history : List (Session × Event)) (b : BrightnessBridge)
    → IsCoherent b
    → IsCoherent (run history b)
unfolding run
run-IsCoherent [] b v = v
run-IsCoherent ((w, e) ∷ rest) b v = run-IsCoherent rest (step w e b) (step-IsCoherent w e b v)

-- From the start, whatever the answers and events: each display has a brightness within its range and a
-- name of its own; each request that waits is for a display that is there, of that display's maximum, and
-- asks for no more; no two wait for one display; at most 32 changes are observed; the timer runs exactly
-- while a request waits; and without an owner there is no display.
pub run-initial-IsCoherent : (history : List (Session × Event)) → IsCoherent (run history initial)
run-initial-IsCoherent history = run-IsCoherent history initial initial-IsCoherent
