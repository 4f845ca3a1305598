-- ===== src/Notifications/Operations.antt =====
-- src/notifications/runtime.cpp: the private operations that the handlers share. A function that
-- returns a value and writes to the object returns both.
pub mod Pruning
pub mod Retention
pub mod Validity
pub mod Calls
use nagi_shell.Prelude.{
  ℕ, suc, ◌+◌, ◌-◌, ◌^◌, Bool, true, false, not, ◌&&◌, ◌||◌, Option, none, some, is_some, List, [],
  ◌∷◌, ◌==◌, leb, if◌then◌else◌, length, ◌++◌,
}
use nagi_shell.Prelude.Int.{ℤ, pos, negsuc}
use nagi_shell.Notifications.Text.{QString, literal}
use nagi_shell.Notifications.Types.{
  World, Reaction, not_invoked, ignored, closes, NotificationRuntime, NotificationSnapshot,
  LiveAssociation, NormalizedNotification, Urgency, Signal, live_count_changed,
  history_count_changed, transient_requested,
}
use nagi_shell.Notifications.History.{
  max_history, snapshot_index, remove_key, change_key, expired, make_snapshot,
}
use nagi_shell.Notifications.Live.{
  find, erase, modify, clear_record_link, refers_to, invalidated, signal_invalidated,
}
use nagi_shell.Notifications.Normalize.{expiry_delay, invalid_timeout}
use nagi_shell.Notifications.Scheduler.{int_max, arm_scheduler}

abbrev pub u64_max : ℕ
u64_max = 2 ^ 64 - 1

unfoldable pub emit_if : Bool → Signal → NotificationRuntime → NotificationRuntime
emit_if b s r = record r { signals = if b then s ∷ r.signals else r.signals }

-- notifyHistoryReset; the two models only repeat what the history holds.
unfoldable pub notify_history_reset : NotificationRuntime → NotificationRuntime
unfolding emit_if
notify_history_reset = emit_if true history_count_changed

-- `if (changed) notifyHistoryReset();`
unfoldable pub notify_history_reset_if : Bool → NotificationRuntime → NotificationRuntime
unfolding emit_if
notify_history_reset_if changed = emit_if changed history_count_changed

unfoldable pub notify_live_count_if_changed : ℕ → NotificationRuntime → NotificationRuntime
unfolding emit_if
notify_live_count_if_changed previous r =
    emit_if (not (previous == length r.live_associations)) live_count_changed r

-- allocateHistorySequence.
unfoldable pub allocate_history_sequence : NotificationRuntime → Option ℕ × NotificationRuntime
allocate_history_sequence r =
    let last = r.next_history_sequence == u64_max in
    let full = r.history_sequence_exhausted in
    (
      if full then none else some r.next_history_sequence,
      record r {
        history_exhaustion_reported = r.history_exhaustion_reported || full;
        history_sequence_exhausted = full || last;
        next_history_sequence =
            if full || last then r.next_history_sequence else r.next_history_sequence + 1;
      },
    )

-- allocateLiveSequence.
unfoldable pub allocate_live_sequence : NotificationRuntime → Option ℕ × NotificationRuntime
allocate_live_sequence r =
    let last = r.next_live_sequence == u64_max in
    let full = r.live_sequence_exhausted in
    (
      if full then none else some r.next_live_sequence,
      record r {
        live_exhaustion_reported = r.live_exhaustion_reported || full;
        live_sequence_exhausted = full || last;
        next_live_sequence =
            if full || last then r.next_live_sequence else r.next_live_sequence + 1;
      },
    )

-- What pruneHistory writes: the history and the associations.
pub record Pruned : Type 0 where
  pub history : List NotificationSnapshot
  pub live : List LiveAssociation

-- The first loop of pruneHistory, from the oldest entry to the newest.
unfoldable pub prune_due : ℕ → List NotificationSnapshot → List LiveAssociation → Pruned
prune_due now [] live = record { history = []; live = live }
prune_due now (s ∷ rest) live =
    let p = prune_due now rest live in
    if leb s.history_cutoff_monotonic_ms now
    then record p { live = clear_record_link s.first_admission_sequence p.live }
    else record p { history = s ∷ p.history }

-- The second loop: entries past the first `room` are removed, the oldest first.
unfoldable pub prune_excess : ℕ → List NotificationSnapshot → List LiveAssociation → Pruned
prune_excess room [] live = record { history = []; live = live }
prune_excess ℕ.zero (s ∷ rest) live =
    let p = prune_excess 0 rest live in
    record p { live = clear_record_link s.first_admission_sequence p.live }
prune_excess (suc room) (s ∷ rest) live =
    let p = prune_excess room rest live in record p { history = s ∷ p.history }

unfoldable pub prune_lists : ℕ → List NotificationSnapshot → List LiveAssociation → Pruned
prune_lists now history live =
    let p = prune_due now history live in prune_excess max_history p.history p.live

-- pruneHistory.
unfoldable pub prune_history : ℕ → NotificationRuntime → NotificationRuntime
prune_history now r =
    let p = prune_lists now r.history_snapshots r.live_associations in
    record r { history_snapshots = p.history; live_associations = p.live }

-- admitHistory, after the sequence number has been allocated.
unfoldable pub admit_snapshot :
    NormalizedNotification → ℕ → ℕ → NotificationRuntime → Option ℕ × NotificationRuntime
unfolding make_snapshot
admit_snapshot n admitted_at key r =
    let r' =
      prune_history admitted_at
        (record r { history_snapshots = make_snapshot n key admitted_at ∷ r.history_snapshots }) in
    (if is_some (snapshot_index key r'.history_snapshots) then some key else none, r')

-- admitHistory.
unfoldable pub admit_history :
    NormalizedNotification → ℕ → NotificationRuntime → Option ℕ × NotificationRuntime
admit_history n admitted_at r =
    if n.transient
    then (none, r)
    else let (key, r') = allocate_history_sequence r in
      elim key [ none ↦ (none, r') | some k ↦ admit_snapshot n admitted_at k r' ]

-- removeSnapshot.
unfoldable pub remove_snapshot : ℕ → NotificationRuntime → NotificationRuntime
remove_snapshot key r = record r {
  history_snapshots = remove_key key r.history_snapshots;
  live_associations = elim (snapshot_index key r.history_snapshots) [
    | none ↦ r.live_associations
    | some i ↦ clear_record_link key r.live_associations
  ];
}

-- markSnapshotExpired.
unfoldable pub mark_snapshot_expired : ℕ → NotificationRuntime → NotificationRuntime
mark_snapshot_expired key r = record r {
  history_snapshots = change_key key expired r.history_snapshots;
}

-- eraseAssociation; without an entry nothing changes.
unfoldable pub erase_association : ℕ → NotificationRuntime → NotificationRuntime
erase_association id r = record r {
  live_associations = erase id r.live_associations;
  signals = elim (find id r.live_associations) [
    | none ↦ r.signals
    | some a ↦ signal_invalidated a r.signals
  ];
}

-- scheduleExpiry on an entry.
unfoldable pub with_expiry : NormalizedNotification → ℕ → LiveAssociation → LiveAssociation
with_expiry n accepted_at a = record a {
  expiry_deadline_monotonic_ms = elim (expiry_delay n) [
    | none ↦ none
    | some delay ↦ some (accepted_at + delay)
  ];
}

-- expiryDelay reports the first invalid timeout.
unfoldable pub report_invalid_timeout :
    NormalizedNotification → NotificationRuntime → NotificationRuntime
report_invalid_timeout n r = record r {
  invalid_timeout_reported = r.invalid_timeout_reported || invalid_timeout n;
}

-- dispatchPresentation: the entry that is left.
unfoldable pub presented : NormalizedNotification → LiveAssociation → LiveAssociation
presented n a = if a.transient_revision == int_max then invalidated a else record a {
  transient_app_name = n.app_name;
  transient_summary = n.summary;
  transient_body = n.body;
  transient_app_icon_name = n.app_icon_name;
  transient_revision = a.transient_revision + 1;
  transient_presentation_valid = true;
}

-- dispatchPresentation: what is emitted. While the signal is handled `latestTransientUrgency` is the
-- urgency of the association; afterwards it is cleared.
abbrev pub signal_presented : LiveAssociation → List Signal → List Signal
signal_presented a signals =
    if a.transient_revision == int_max
    then signal_invalidated a signals
    else transient_requested a.transient_source_token a.transient_source_generation
        (a.transient_revision + 1) (some a.urgency)
      ∷ signals

-- dispatchPresentation on the entry of a key.
unfoldable pub dispatch_presentation :
    NormalizedNotification → ℕ → NotificationRuntime → NotificationRuntime
dispatch_presentation n id r = record r {
  live_associations = modify id (presented n) r.live_associations;
  latest_transient_urgency = elim (find id r.live_associations) [
    | none ↦ r.latest_transient_urgency
    | some a ↦ if a.transient_revision == int_max then r.latest_transient_urgency else none
  ];
  signals = elim (find id r.live_associations) [
    | none ↦ r.signals
    | some a ↦ signal_presented a r.signals
  ];
}

-- transientSourceToken.
unfoldable pub transient_source_token : World → ℕ → QString
transient_source_token w sequence = literal "notification-" ++ w.number_text sequence

-- closeNotification on the association that it finds; a reason of 1 is expiry.
abbrev pub is_expiry : ℤ → Bool
is_expiry (pos reason) = reason == 1
is_expiry (negsuc reason) = false

unfoldable pub close_record : ℤ → Option ℕ → NotificationRuntime → NotificationRuntime
close_record reason none r = r
close_record reason (some key) r =
    notify_history_reset
      (if is_expiry reason then mark_snapshot_expired key r else remove_snapshot key r)

unfoldable pub close_association :
    World → ℤ → LiveAssociation → NotificationRuntime → NotificationRuntime
unfolding close_record
close_association w reason a r =
    let r' = erase_association a.protocol_id (close_record reason a.record_key r) in
    arm_scheduler w (notify_live_count_if_changed (length r.live_associations) r')

-- closeNotification, of an object that is not null.
unfoldable pub close_notification : World → ℕ → ℤ → NotificationRuntime → NotificationRuntime
close_notification w notification reason r =
    elim (find (w.properties notification).protocol_id r.live_associations) [
      | none ↦ r
      | some a ↦ if refers_to w a notification then close_association w reason a r else r
    ]

-- What a method of a notification object does to the runtime while it runs, and whether the call was
-- made.
unfoldable pub invoke : World → ℕ → Reaction → NotificationRuntime → Bool × NotificationRuntime
invoke w notification not_invoked r = (false, r)
invoke w notification ignored r = (true, r)
invoke w notification (closes reason) r = (true, close_notification w notification reason r)

-- expireNotification, of an object that is not null.
unfoldable pub expire_notification : World → ℕ → NotificationRuntime → Bool × NotificationRuntime
expire_notification w notification r = invoke w notification (w.expire notification) r
