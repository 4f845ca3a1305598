-- ===== src/Brightness/Tests.antt =====
-- src/brightness/main.cpp: a helper with one display.
use nagi_shell.Prelude.{
  ◌≡◌, refl, ◌⊎◌, inl, inr, ◌++◌, ℕ, ◌<◌, true, false, none, some, List, [], ◌∷◌, All,
}
use nagi_shell.Prelude.Int.{pos}
use nagi_shell.Notifications.Text.{QString, literal}
use nagi_shell.Brightness.{Message, DisplayState, PendingRequest, Session, BrightnessBridge}
use nagi_shell.Brightness.Requests.{expire_requests}
use nagi_shell.Brightness.Events.{
  initial, Event, initialized, refreshed, brightness_changed, timer_fired, owner_changed,
  range_changed, run,
}
use nagi_shell.Brightness.Validity.{IsCoherent}
use nagi_shell.Brightness.Validity.Histories.{run-initial-IsCoherent}
use nagi_shell.Brightness.Deadlines.{FiresBy, expire_requests-FiresBy}
use nagi_shell.Brightness.Accounts.{Waits, Told}
use nagi_shell.Brightness.Accounts.Histories.{run-answers}

abbrev at : ℕ → Session
at now = record {
  elapsed = now;
  connected = true;
  base_service = literal ":1.7";
  service_owner = literal ":1.2";
  display_names = some (literal "panel" ∷ []);
  properties = λ name. some (record {
    label = literal "Panel";
    is_internal = true;
    maximum = pos 100;
    brightness = pos 40;
  });
  number = λ n. literal "1";
  scaled = λ ratio maximum. pos 50;
  from_json = λ line. none;
  to_bytes = λ message. [];
}

abbrev history : List (Session × Event)
history =
    (at 1, initialized)
    ∷ (at 2, refreshed)
    ∷ (at 3, brightness_changed (literal "panel") (pos 40) [] [])
    ∷ (at 4, refreshed)
    ∷ (at 5, timer_fired)
    ∷ (at 6, owner_changed [])
    ∷ []

run-initial-IsCoherent_example : IsCoherent (run history initial)
run-initial-IsCoherent_example = run-initial-IsCoherent history

abbrev panel : DisplayState
panel = record {
  name = literal "panel";
  key = literal "1:panel";
  label = literal "Panel";
  is_internal = true;
  maximum = 100;
  brightness = 40;
}

abbrev waiting : ℕ → QString → ℕ → PendingRequest
waiting id name deadline = record {
  request_id = id;
  generation = 1;
  key = literal "1:panel";
  name = name;
  context = literal "nagi-shell:1";
  requested_brightness = 50;
  maximum = 100;
  deadline_ms = deadline;
}

abbrev with_panel : List PendingRequest → BrightnessBridge
with_panel requests = record {
  active_owner = literal ":1.2";
  owner_generation = 1;
  snapshot_scheduled = false;
  displays = panel ∷ [];
  pending_requests = requests;
  display_failures = [];
  observed_changes = [];
  request_timer = none;
  command_buffer = [];
  last_state_message = [];
  running = true;
  calls = [];
  output = [];
}

abbrev two_requests : BrightnessBridge
two_requests = with_panel (waiting 1 (literal "panel") 2600 ∷ waiting 2 (literal "other") 3100 ∷ [])

expire_requests-FiresBy_example :
    All
      (λ p.
        (2600 < p.deadline_ms)
        × FiresBy p.deadline_ms (expire_requests (at 2600) two_requests).request_timer)
      (expire_requests (at 2600) two_requests).pending_requests
expire_requests-FiresBy_example = expire_requests-FiresBy (at 2600) two_requests

-- The first display's maximum changes, then a time limit passes.
abbrev later : List (Session × Event)
later =
    (at 100, brightness_changed (literal "panel") (pos 40) [] [])
    ∷ (at 200, refreshed)
    ∷ (at 300, range_changed (literal "panel"))
    ∷ (at 3200, timer_fired)
    ∷ []

run-answers_example :
    (new : List Message) × (((run later two_requests).output ≡ new ++ two_requests.output)
      × (Waits (waiting 2 (literal "other") 3100) (run later two_requests).pending_requests
          ⊎ Told 2 new))
run-answers_example =
    run-answers later two_requests (waiting 2 (literal "other") 3100) (tt, (tt, (tt, (tt, tt))))
      (inr (inl refl))
