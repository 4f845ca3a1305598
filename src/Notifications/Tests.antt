-- ===== src/Notifications/Tests.antt =====
-- src/notifications/runtime.cpp and notification_text.cpp: the runtime on small inputs.
use nagi_shell.Prelude.{
  ℕ, ◌+◌, ◌≤◌, ◌≡◌, refl, ◌⊎◌, inr, true, false, none, some, List, [], ◌∷◌, take, All, arith,
}
use nagi_shell.Prelude.Int.{pos, negsuc}
use nagi_shell.Notifications.Text.{
  QString, literal, characters, bounded_normalized, utf8_length, sanitize, decode_unit,
  append_code_point, surrogate_to_ucs4,
}
use nagi_shell.Notifications.Text.Bounds.{IsUnits, Encodes, CutOnly, bounded_normalized-Encodes}
use nagi_shell.Notifications.Types.{
  World, not_invoked, closes, NotificationRuntime, NotificationSnapshot, LiveAssociation, normal,
}
use nagi_shell.Notifications.History.{max_history}
use nagi_shell.Notifications.Live.{find, Victim, select_victim}
use nagi_shell.Notifications.Live.Victims.{Precedes, IsCandidate, candidate, select_victim-least}
use nagi_shell.Notifications.Scheduler.{arm_scheduler}
use nagi_shell.Notifications.Scheduler.Coverage.{FiresBy, arm_scheduler-FiresBy}
use nagi_shell.Notifications.Operations.{prune_history}
use nagi_shell.Notifications.Operations.Pruning.{IsFresh}
use nagi_shell.Notifications.Operations.Retention.{fresh, prune_history-retains}
use nagi_shell.Notifications.Operations.Validity.{IsValid}
use nagi_shell.Notifications.Replacement.Coalescing.{
  Updates, queue_all, firsts, with_updates, queue_all-firsts,
}
use nagi_shell.Notifications.Runtime.{
  initial, run, Event, begins, attaches, finishes, updates, posted, refreshes, due_ids,
  process_due_deadlines, set_server_owned, linked_keys,
}
use nagi_shell.Notifications.Runtime.Deadlines.{Responds, process_due_deadlines-settles}
use nagi_shell.Notifications.Runtime.Ownership.{Unknown, set_server_owned-clears}
use nagi_shell.Notifications.Runtime.Validity.{run-initial-IsValid}

-- The identifier of an object is its number; objects close with reason 1 when they are expired.
abbrev world_at : ℕ → World
world_at now = record {
  now = now;
  properties = λ notification. record {
    protocol_id = notification;
    app_name = literal "mail";
    summary = literal "new message";
    body = literal "<b>hello</b>";
    urgency = some (pos 1);
    desktop_entry = literal "org.mail";
    app_icon = literal "mail-unread";
    resident = false;
    transient = false;
    expire_timeout = negsuc 0;
    last_generation = false;
  };
  alive = λ notification. true;
  expire = λ notification. closes (pos 1);
  dismiss = λ notification. not_invoked;
  read_xml = λ text. record { tokens = characters text ∷ []; has_error = false };
  number_text = λ number. (number + 48) ∷ [];
}

abbrev morning : World
morning = world_at 1000

abbrev evening : World
evening = world_at 50000

abbrev own_name : QString
own_name = literal ":1.7"

-- The server is owned, two notifications are admitted, and one of them is updated.
abbrev two_notifications : List (World × Event)
two_notifications =
    (morning, refreshes (some own_name) own_name)
    ∷ (morning, begins)
    ∷ (morning, attaches (some 3) 1)
    ∷ (morning, finishes 1)
    ∷ (morning, attaches (some 4) 1)
    ∷ (morning, updates (some 4))
    ∷ (morning, posted)
    ∷ []

abbrev held : ℕ → ℕ → LiveAssociation
held id key = record {
  protocol_id = id;
  live_admission_sequence = key;
  notification = id;
  record_key = some key;
  urgency = normal;
  transient = false;
  expiry_deadline_monotonic_ms = some (11000 + id);
  update_queued = false;
  seen_in_generation = true;
  transient_source_token = literal "notification";
  transient_app_name = literal "mail";
  transient_summary = [];
  transient_body = [];
  transient_app_icon_name = [];
  transient_source_generation = 1;
  transient_revision = 1;
  transient_presentation_valid = true;
}

abbrev kept : ℕ → ℕ → NotificationSnapshot
kept key admitted_at = record {
  first_admission_sequence = key;
  first_admitted_monotonic_ms = admitted_at;
  history_cutoff_monotonic_ms = admitted_at + 86400000;
  live = true;
  app_name = literal "mail";
  summary = [];
  body = [];
  urgency = normal;
  desktop_entry = [];
  app_icon_name = [];
  resident = false;
}

-- Two live notifications, with their snapshots.
abbrev busy : NotificationRuntime
busy = record {
  live_associations = held 4 2 ∷ held 3 1 ∷ [];
  history_snapshots = kept 2 1000 ∷ kept 1 900 ∷ [];
  buffered_notifications = [];
  next_history_sequence = 3;
  next_live_sequence = 3;
  current_generation = 1;
  history_sequence_exhausted = false;
  live_sequence_exhausted = false;
  invalid_timeout_reported = false;
  history_exhaustion_reported = false;
  live_exhaustion_reported = false;
  reconciling_generation = false;
  latest_transient_urgency = none;
  owns_notification_server = true;
  ownership_monitoring_enabled = true;
  timer = some 10003;
  queued = [];
  signals = [];
}

busy-IsValid : IsValid busy
unfolding find
busy-IsValid = record {
  live_ok = record {
    within = omega arith;
    distinct = (refl, (refl, tt));
    descending = (omega arith, (omega arith, tt));
    linked = (refl, (refl, tt));
  };
  few = omega arith;
  ordered = (omega arith, (omega arith, tt));
  below = omega arith;
  history_fits = omega arith;
  live_fits = omega arith;
}

busy-Responds : All (Responds evening) busy.live_associations
busy-Responds = (inr (inr (pos 1, refl, refl)), (inr (inr (pos 1, refl, refl)), tt))

run-initial-IsValid_example : IsValid (run two_notifications (initial true))
run-initial-IsValid_example = run-initial-IsValid true two_notifications

process_due_deadlines-settles_example :
    let q = process_due_deadlines evening busy in
    (due_ids 50000 q.live_associations ≡ []) × All (IsFresh 50000) q.history_snapshots
process_due_deadlines-settles_example =
    process_due_deadlines-settles evening busy busy-IsValid busy-Responds

set_server_owned-clears_example :
    let q = set_server_owned evening false busy in
    (q.owns_notification_server ≡ false)
    × (q.live_associations ≡ [])
    × All (Unknown q.history_snapshots) (linked_keys busy.live_associations)
set_server_owned-clears_example = set_server_owned-clears evening busy busy-IsValid refl

abbrev newcomer : Victim
newcomer = record { provisional = true; id = 0; capacity = 2; sequence = 9 }

select_victim-least_example :
    let v = select_victim busy.history_snapshots newcomer busy.live_associations in
    ((v ≡ newcomer) ⊎ IsCandidate busy.history_snapshots v busy.live_associations)
    × Precedes v newcomer
    × All (λ a. Precedes v (candidate busy.history_snapshots a)) busy.live_associations
select_victim-least_example =
    select_victim-least busy.history_snapshots newcomer busy.live_associations

arm_scheduler-FiresBy_example :
    let q = arm_scheduler morning busy in
    All (λ a. FiresBy 1000 q.timer a.expiry_deadline_monotonic_ms) q.live_associations
    × All (λ s. FiresBy 1000 q.timer (some s.history_cutoff_monotonic_ms)) q.history_snapshots
arm_scheduler-FiresBy_example = arm_scheduler-FiresBy morning busy

prune_history-retains_example :
    (prune_history 90000000 busy).history_snapshots
    ≡ take max_history (fresh 90000000 busy.history_snapshots)
prune_history-retains_example = prune_history-retains 90000000 busy

-- Two updates of a notification around one of another that is not there.
abbrev burst : Updates
burst = (3, 3) ∷ (77, 5) ∷ (3, 4) ∷ []

burst-firsts : firsts burst busy.live_associations ≡ (3, 3) ∷ []
unfolding firsts find
burst-firsts = refl

queue_all-firsts_example :
    queue_all burst busy ≡ with_updates (firsts burst busy.live_associations) busy
queue_all-firsts_example = queue_all-firsts burst busy

-- A bell, a lone high surrogate, and a pair of surrogates.
abbrev rough_text : QString
rough_text = 7 ∷ 0xd83d ∷ 65 ∷ 0xd83d ∷ 0xde00 ∷ 66 ∷ []

rough_text-IsUnits : IsUnits rough_text
rough_text-IsUnits =
    (omega arith, (omega arith, (omega arith, (omega arith, (omega arith, (omega arith, tt))))))

rough_text-normalized :
    bounded_normalized rough_text 11 false ≡ 0xfffd ∷ 0xfffd ∷ 65 ∷ 0xd83d ∷ 0xde00 ∷ []
unfolding bounded_normalized utf8_length sanitize decode_unit append_code_point surrogate_to_ucs4
rough_text-normalized = refl

bounded_normalized-Encodes_example :
    let output = bounded_normalized rough_text 11 false in
    (size : ℕ) × (size ≤ 11) × Encodes false output size × CutOnly 11 size rough_text output
bounded_normalized-Encodes_example =
    bounded_normalized-Encodes rough_text 11 false rough_text-IsUnits
