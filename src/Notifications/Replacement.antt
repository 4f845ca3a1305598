-- ===== src/Notifications/Replacement.antt =====
-- src/notifications/runtime.cpp: queueReplacement, the queued call, and processReplacement.
pub mod Coalescing
pub mod Validity
use nagi_shell.Prelude.{
  ℕ, Bool, true, false, not, ◌&&◌, ◌||◌, Option, none, some, is_some, List, [], ◌∷◌, ◌++◌, ◌==◌,
  if◌then◌else◌, length,
}
use nagi_shell.Notifications.Types.{
  World, NotificationRuntime, LiveAssociation, NormalizedNotification,
}
use nagi_shell.Notifications.History.{snapshot_index, change_key, replace_snapshot}
use nagi_shell.Notifications.Live.{find, modify, refers_to, unlink}
use nagi_shell.Notifications.Normalize.{normalize}
use nagi_shell.Notifications.Scheduler.{arm_scheduler}
use nagi_shell.Notifications.Operations.{
  prune_history, admit_history, remove_snapshot, notify_history_reset_if, with_expiry,
  report_invalid_timeout, dispatch_presentation,
}

unfoldable pub modify_live :
    ℕ → (LiveAssociation → LiveAssociation) → NotificationRuntime → NotificationRuntime
modify_live id f r = record r { live_associations = modify id f r.live_associations }

abbrev pub with_key : Option ℕ → LiveAssociation → LiveAssociation
with_key key a = record a { record_key = key }

abbrev pub with_class : NormalizedNotification → LiveAssociation → LiveAssociation
with_class n a = record a { transient = n.transient; urgency = n.urgency }

abbrev pub with_queued : Bool → LiveAssociation → LiveAssociation
with_queued queued a = record a { update_queued = queued }

-- queueReplacement.
unfoldable pub queue_replacement : ℕ → ℕ → NotificationRuntime → NotificationRuntime
unfolding modify_live
queue_replacement id notification r = elim (find id r.live_associations) [
  | none ↦ r
  | some a ↦
      if a.update_queued
      then r
      else modify_live id (with_queued true)
          (record r { queued = r.queued ++ (id, notification) ∷ [] })
]

-- The three branches on what was and what is transient: whether the history changed, and the object.
-- A transient notification that is not any more.
unfoldable pub become_lasting :
    ℕ → NormalizedNotification → ℕ → NotificationRuntime → Bool × NotificationRuntime
unfolding modify_live
become_lasting accepted_at n id r =
    let (key, r') = admit_history n accepted_at r in (is_some key, modify_live id (with_key key) r')

-- One that becomes transient: the snapshot that it had before the pruning goes.
unfoldable pub become_transient : Option ℕ → ℕ → NotificationRuntime → Bool × NotificationRuntime
unfolding modify_live
become_transient none id r = (false, modify_live id unlink r)
become_transient (some key) id r = (
  is_some (snapshot_index key r.history_snapshots),
  modify_live id unlink (remove_snapshot key r),
)

-- One that stays lasting: the snapshot that it has after the pruning is written over.
unfoldable pub rewrite_snapshot :
    NormalizedNotification → ℕ → Option ℕ → NotificationRuntime → Bool × NotificationRuntime
unfolding modify_live
rewrite_snapshot n id none r = (false, r)
rewrite_snapshot n id (some key) r = elim (snapshot_index key r.history_snapshots) [
  | none ↦ (false, modify_live id unlink r)
  | some index ↦ (
    true,
    record r { history_snapshots = change_key key (replace_snapshot n) r.history_snapshots },
  )
]

abbrev pub key_at : ℕ → List LiveAssociation → Option ℕ
key_at id live = elim (find id live) [ none ↦ none | some a ↦ a.record_key ]

unfoldable pub replace_record :
    World
    → LiveAssociation
    → NormalizedNotification
    → ℕ
    → NotificationRuntime
    → Bool × NotificationRuntime
unfolding become_lasting become_transient rewrite_snapshot
replace_record w a n id r =
    if a.transient
    then if n.transient then (false, r) else become_lasting w.now n id r
    else if n.transient
    then become_transient a.record_key id r
    else rewrite_snapshot n id (key_at id r.live_associations) r

-- The end of processReplacement.
unfoldable pub present_replacement :
    World → NormalizedNotification → ℕ → Bool → NotificationRuntime → NotificationRuntime
unfolding modify_live
present_replacement w n id changed r =
    let r' =
      report_invalid_timeout n (modify_live id (λ a. with_expiry n w.now (with_class n a)) r) in
    arm_scheduler w (dispatch_presentation n id (notify_history_reset_if changed r'))

unfoldable pub replace_association :
    World → ℕ → ℕ → LiveAssociation → NotificationRuntime → NotificationRuntime
unfolding replace_record present_replacement
replace_association w id notification a r =
    let n = normalize w notification in
    let pruned = prune_history w.now r in
    let shrunk = not (length r.history_snapshots == length pruned.history_snapshots) in
    let (changed, r') = replace_record w a n id pruned in
    present_replacement w n id (shrunk || changed) r'

-- processReplacement.
unfoldable pub process_replacement : World → ℕ → ℕ → NotificationRuntime → NotificationRuntime
process_replacement w id notification r = elim (find id r.live_associations) [
  | none ↦ r
  | some a ↦ if refers_to w a notification then replace_association w id notification a r else r
]

-- The call that queueReplacement has posted; `notification` is held by a QPointer.
unfoldable pub run_replacement : World → ℕ → ℕ → NotificationRuntime → NotificationRuntime
unfolding modify_live
run_replacement w id notification r = elim (find id r.live_associations) [
  | none ↦ r
  | some a ↦
      let r' = modify_live id (with_queued false) r in
      if refers_to w a notification then process_replacement w id notification r' else r'
]

-- The event loop takes the oldest posted call.
unfoldable pub run_posted : World → List (ℕ × ℕ) → NotificationRuntime → NotificationRuntime
run_posted w [] r = r
run_posted w ((id, notification) ∷ rest) r =
    run_replacement w id notification (record r { queued = rest })
