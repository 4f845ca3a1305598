-- ===== src/Notifications/Runtime.antt =====
-- src/notifications/runtime.cpp: the other handlers of NotificationRuntime, the initial object, and
-- the histories of events.
pub mod Ownership
pub mod Deadlines
pub mod Validity
use nagi_shell.Prelude.{
  ℕ, zero, ◌+◌, ◌<◌, Bool, true, false, not, ◌&&◌, ◌||◌, Option, none, some, is_some, List, [], ◌∷◌,
  ◌++◌, ◌==◌, leb, if◌then◌else◌, length, map, list_eq, get_elem?, min,
}
use nagi_shell.Prelude.Int.{ℤ}
use nagi_shell.Notifications.Text.{QString}
use nagi_shell.Notifications.Types.{
  World, Reaction, not_invoked, ignored, closes, NotificationRuntime, LiveAssociation,
  NotificationSnapshot, Signal, server_ownership_changed,
}
use nagi_shell.Notifications.History.{snapshot_index, max_history}
use nagi_shell.Notifications.Live.{
  find, refers_to, unlink, is_linked, invalidated, signal_invalidated,
}
use nagi_shell.Notifications.Scheduler.{arm_scheduler}
use nagi_shell.Notifications.Operations.{
  remove_snapshot, notify_history_reset, notify_history_reset_if, notify_live_count_if_changed,
  erase_association, prune_history, expire_notification, invoke, emit_if, close_notification,
}
use nagi_shell.Notifications.Replacement.{queue_replacement, run_posted}
use nagi_shell.Notifications.Admission.{begin_generation, attach_notification, finish_generation}

-- The object after its construction.
unfoldable pub initial : Bool → NotificationRuntime
initial watch_server_ownership = record {
  live_associations = [];
  history_snapshots = [];
  buffered_notifications = [];
  next_history_sequence = 1;
  next_live_sequence = 1;
  current_generation = 0;
  history_sequence_exhausted = false;
  live_sequence_exhausted = false;
  invalid_timeout_reported = false;
  history_exhaustion_reported = false;
  live_exhaustion_reported = false;
  reconciling_generation = false;
  latest_transient_urgency = none;
  owns_notification_server = false;
  ownership_monitoring_enabled = watch_server_ownership;
  timer = none;
  queued = [];
  signals = [];
}

-- NotificationHistoryModel::rowCount of the root, and data as the snapshot of a row.
unfoldable pub row_count : ℕ → NotificationRuntime → ℕ
row_count limit r = min limit (length r.history_snapshots)

unfoldable pub row : ℕ → NotificationRuntime → ℕ → Option NotificationSnapshot
unfolding row_count
row limit r index =
    if leb (row_count limit r) index then none else get_elem? r.history_snapshots index

-- updateNotification.
unfoldable pub update_notification : World → Option ℕ → NotificationRuntime → NotificationRuntime
update_notification w none r = r
update_notification w (some notification) r =
    let id = (w.properties notification).protocol_id in
    elim (find id r.live_associations) [
      | none ↦ r
      | some a ↦
          if not (refers_to w a notification) || r.reconciling_generation
          then r
          else queue_replacement id notification r
    ]

-- closeNotification of an argument that may be null.
unfoldable pub close_argument : World → Option ℕ → ℤ → NotificationRuntime → NotificationRuntime
close_argument w none reason r = r
close_argument w (some notification) reason r = close_notification w notification reason r

-- parseRecordKey, from the number that QString::toULongLong reads, if it reads one.
unfoldable pub parse_record_key : Option ℕ → Option ℕ
parse_record_key none = none
parse_record_key (some zero) = none
parse_record_key (some key) = some key

-- The association at which the loop of dismiss stops.
unfoldable pub find_dismissible : World → ℕ → List LiveAssociation → Option LiveAssociation
find_dismissible w key [] = none
find_dismissible w key (a ∷ rest) =
    if is_linked key a && w.alive a.notification then some a else find_dismissible w key rest

-- The object did not take the call: its entries go at once.
unfoldable pub drop_association :
    World → ℕ → LiveAssociation → NotificationRuntime → NotificationRuntime
drop_association w key a r =
    let r' = erase_association a.protocol_id (remove_snapshot key r) in
    arm_scheduler w
      (notify_live_count_if_changed (length r.live_associations) (notify_history_reset r'))

unfoldable pub dismiss_live :
    World → ℕ → LiveAssociation → Reaction → NotificationRuntime → NotificationRuntime
unfolding drop_association
dismiss_live w key a not_invoked r = drop_association w key a r
dismiss_live w key a reaction r = (invoke w a.notification reaction r).1

unfoldable pub dismiss_history : World → ℕ → NotificationRuntime → Bool × NotificationRuntime
dismiss_history w key r =
    if is_some (snapshot_index key r.history_snapshots)
    then (true, arm_scheduler w (notify_history_reset (remove_snapshot key r)))
    else (false, r)

unfoldable pub dismiss_key : World → ℕ → NotificationRuntime → Bool × NotificationRuntime
unfolding dismiss_live dismiss_history
dismiss_key w key r = elim (find_dismissible w key r.live_associations) [
  | none ↦ dismiss_history w key r
  | some a ↦ (true, dismiss_live w key a (w.dismiss a.notification) r)
]

unfoldable pub dismiss : World → Option ℕ → NotificationRuntime → Bool × NotificationRuntime
unfolding dismiss_key
dismiss w value r = elim (parse_record_key value) [
  | none ↦ (false, r)
  | some key ↦ dismiss_key w key r
]

unfoldable pub clear_history : World → NotificationRuntime → NotificationRuntime
clear_history w r =
    if length r.history_snapshots == 0
    then r
    else arm_scheduler w (
        notify_history_reset
          (record r { live_associations = map unlink r.live_associations; history_snapshots = [] }))

-- historyIndex; -1 is `none`.
unfoldable pub history_index : Option ℕ → NotificationRuntime → Option ℕ
history_index value r = elim (parse_record_key value) [
  | none ↦ none
  | some key ↦ snapshot_index key r.history_snapshots
]

-- resolveTransient: the association whose presentation is shown.
abbrev pub presents : QString → ℕ → ℕ → LiveAssociation → Bool
presents token generation revision a =
    a.transient_presentation_valid
    && list_eq a.transient_source_token token
    && a.transient_source_generation == generation
    && a.transient_revision == revision

pub record Presentation : Type 0 where
  pub app_name : QString
  pub summary : QString
  pub body : QString
  pub app_icon_name : QString

abbrev pub presentation : LiveAssociation → Presentation
presentation a = record {
  app_name = a.transient_app_name;
  summary = a.transient_summary;
  body = a.transient_body;
  app_icon_name = a.transient_app_icon_name;
}

unfoldable pub resolve_in : QString → ℕ → ℕ → List LiveAssociation → Option Presentation
resolve_in token generation revision [] = none
resolve_in token generation revision (a ∷ rest) =
    if presents token generation revision a
    then some (presentation a)
    else resolve_in token generation revision rest

unfoldable pub resolve_transient : QString → ℕ → ℕ → NotificationRuntime → Option Presentation
unfolding resolve_in
resolve_transient token generation revision r =
    if length token == 0 || generation == 0 || revision == 0
    then none
    else resolve_in token generation revision r.live_associations

-- processDueDeadlines.
abbrev pub is_due : ℕ → LiveAssociation → Bool
is_due now a = elim a.expiry_deadline_monotonic_ms [ none ↦ false | some d ↦ leb d now ]

abbrev pub due_ids : ℕ → List LiveAssociation → List ℕ
due_ids now [] = []
due_ids now (a ∷ rest) = if is_due now a then a.protocol_id ∷ due_ids now rest else due_ids now rest

abbrev pub drop_record : Option ℕ → NotificationRuntime → NotificationRuntime
drop_record none r = r
drop_record (some key) r = notify_history_reset (remove_snapshot key r)

unfoldable pub drop_due : LiveAssociation → NotificationRuntime → NotificationRuntime
drop_due a r =
    notify_live_count_if_changed (length r.live_associations)
      (erase_association a.protocol_id (drop_record a.record_key r))

unfoldable pub expire_association :
    World → LiveAssociation → NotificationRuntime → NotificationRuntime
unfolding drop_due
expire_association w a r =
    let (done, r') = expire_notification w a.notification r in
    if not (w.alive a.notification) then drop_due a r else if done then r' else drop_due a r'

unfoldable pub expire_due : World → ℕ → NotificationRuntime → NotificationRuntime
unfolding expire_association
expire_due w id r = elim (find id r.live_associations) [
  | none ↦ r
  | some a ↦ if is_due w.now a then expire_association w a r else r
]

unfoldable pub expire_all : World → List ℕ → NotificationRuntime → NotificationRuntime
expire_all w [] r = r
expire_all w (id ∷ rest) r = expire_all w rest (expire_due w id r)

unfoldable pub process_due_deadlines : World → NotificationRuntime → NotificationRuntime
process_due_deadlines w r =
    let r1 = expire_all w (due_ids w.now r.live_associations) r in
    let r2 = prune_history w.now r1 in
    let changed = not (length r1.history_snapshots == length r2.history_snapshots) in
    arm_scheduler w (notify_history_reset_if changed r2)

-- clearLiveStateForOwnershipFailure.
abbrev pub linked_keys : List LiveAssociation → List ℕ
linked_keys [] = []
linked_keys (a ∷ rest) = elim a.record_key [
  | none ↦ linked_keys rest
  | some key ↦ key ∷ linked_keys rest
]

abbrev pub signal_all_invalidated : List LiveAssociation → List Signal → List Signal
signal_all_invalidated [] signals = signals
signal_all_invalidated (a ∷ rest) signals =
    signal_all_invalidated rest (signal_invalidated a signals)

unfoldable pub remove_all : List ℕ → NotificationRuntime → NotificationRuntime
remove_all [] r = r
remove_all (key ∷ rest) r = remove_all rest (remove_snapshot key r)

unfoldable pub invalidate_all : NotificationRuntime → NotificationRuntime
invalidate_all r = record r {
  live_associations = map invalidated r.live_associations;
  signals = signal_all_invalidated r.live_associations r.signals;
}

unfoldable pub drop_live : NotificationRuntime → NotificationRuntime
unfolding invalidate_all remove_all
drop_live r = record (remove_all (linked_keys r.live_associations) (invalidate_all r)) {
  live_associations = [];
}

unfoldable pub clear_live_state : World → NotificationRuntime → NotificationRuntime
unfolding drop_live
clear_live_state w r =
    if length r.live_associations == 0
    then r
    else arm_scheduler w (
        notify_live_count_if_changed (length r.live_associations)
          (notify_history_reset (drop_live r)))

-- setServerOwned.
unfoldable pub set_server_owned : World → Bool → NotificationRuntime → NotificationRuntime
unfolding clear_live_state emit_if
set_server_owned w true r =
    if r.owns_notification_server
    then r
    else emit_if true server_ownership_changed (record r { owns_notification_server = true })
set_server_owned w false r =
    if r.owns_notification_server
    then emit_if true server_ownership_changed
        (clear_live_state w (record r { owns_notification_server = false }))
    else r

-- refreshServerOwnership, from the owner that the session bus names (`none` where there is no bus
-- interface or no valid reply) and the name of this connection.
unfoldable pub refresh_server_ownership :
    World → Option QString → QString → NotificationRuntime → NotificationRuntime
unfolding set_server_owned
refresh_server_ownership w none own r =
    if r.ownership_monitoring_enabled then set_server_owned w false r else r
refresh_server_ownership w (some owner) own r =
    if r.ownership_monitoring_enabled
    then set_server_owned w (not (length owner == 0) && list_eq owner own) r
    else r

-- The calls that the shell and the event loop make.
pub data Event : Type 0 where
  begins clears posted timeout : Event
  attaches : Option ℕ → ℕ → Event
  updates : Option ℕ → Event
  closed : Option ℕ → ℤ → Event
  finishes : ℕ → Event
  dismisses : Option ℕ → Event
  refreshes : Option QString → QString → Event

-- The single-shot timer is inactive when its slot runs.
unfoldable pub step : World → Event → NotificationRuntime → NotificationRuntime
step w begins r = begin_generation w r
step w clears r = clear_history w r
step w posted r = run_posted w r.queued r
step w timeout r = process_due_deadlines w (record r { timer = none })
step w (attaches notification generation) r = attach_notification w notification generation r
step w (updates notification) r = update_notification w notification r
step w (closed notification reason) r = close_argument w notification reason r
step w (finishes generation) r = finish_generation w generation r
step w (dismisses key) r = (dismiss w key r).1
step w (refreshes owner own) r = refresh_server_ownership w owner own r

-- Each event comes with the world that it meets.
unfoldable pub run : List (World × Event) → NotificationRuntime → NotificationRuntime
run [] r = r
run ((w, e) ∷ rest) r = run rest (step w e r)
