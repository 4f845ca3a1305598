-- ===== src/Notifications/Replacement/Validity.antt =====
-- The replacement of a notification keeps the invariant.
use nagi_shell.Prelude.{
  ℕ, refl, Bool, true, false, Option, none, some, List, [], ◌∷◌, ◌++◌, if_ind, option_ind,
}
use nagi_shell.Notifications.Types.{
  World, NotificationRuntime, LiveAssociation, NormalizedNotification,
}
use nagi_shell.Notifications.History.{snapshot_index, replace_snapshot}
use nagi_shell.Notifications.Live.{find, refers_to, unlink}
use nagi_shell.Notifications.Live.Entries.{KeepsEntry}
use nagi_shell.Notifications.Normalize.{normalize}
use nagi_shell.Notifications.Operations.{admit_history, remove_snapshot, with_expiry}
use nagi_shell.Notifications.Operations.Validity.{
  ValidBelow, arm_scheduler-Valid, notify_history_reset_if-Valid, report_invalid_timeout-Valid,
  prune_history-Valid, remove_snapshot-Valid, change_key-Valid,
}
use nagi_shell.Notifications.Operations.Calls.{
  admit_history-Valid, LinkedEntry-of_eq, with_expiry-KeepsLink, modify-Valid,
  dispatch_presentation-Valid,
}
use nagi_shell.Notifications.Replacement.{
  modify_live, with_key, with_class, with_queued, queue_replacement, become_lasting,
  become_transient, rewrite_snapshot, key_at, replace_record, present_replacement,
  replace_association, process_replacement, run_replacement, run_posted,
}

with_queued-KeepsEntry : (b : Bool) → KeepsEntry (with_queued b)
with_queued-KeepsEntry b = record { keeps_key = λ a. refl; keeps_sequence = λ a. refl }

pub with_key-KeepsEntry : (key : Option ℕ) → KeepsEntry (with_key key)
with_key-KeepsEntry key = record { keeps_key = λ a. refl; keeps_sequence = λ a. refl }

unlink-KeepsEntry : KeepsEntry unlink
unlink-KeepsEntry = record { keeps_key = λ a. refl; keeps_sequence = λ a. refl }

module _ (n : ℕ) where
  queued-Valid :
      (id : ℕ) (b : Bool) (r : NotificationRuntime)
      → ValidBelow n r
      → ValidBelow n (modify_live id (with_queued b) r)
  unfolding modify_live
  queued-Valid id b r v =
      modify-Valid n r v id (with_queued b) (with_queued-KeepsEntry b) (λ a h. h)

  unlinked-Valid :
      (id : ℕ) (r : NotificationRuntime) → ValidBelow n r → ValidBelow n (modify_live id unlink r)
  unfolding modify_live
  unlinked-Valid id r v = modify-Valid n r v id unlink unlink-KeepsEntry (λ a h. tt)

  pub queue_replacement-Valid :
      (id h : ℕ) (r : NotificationRuntime)
      → ValidBelow n r
      → ValidBelow n (queue_replacement id h r)
  unfolding queue_replacement
  queue_replacement-Valid id h r v =
      option_ind (ValidBelow n) (find id r.live_associations) (λ _. v)
        λ a _.
          if_ind (ValidBelow n) a.update_queued (λ _. v)
            λ _. queued-Valid id true (record r { queued = r.queued ++ (id, h) ∷ [] }) v

  become_lasting-Valid :
      (now : ℕ) (p : NormalizedNotification) (id : ℕ) (r : NotificationRuntime)
      → ValidBelow n r
      → ValidBelow n (become_lasting now p id r).1
  unfolding become_lasting
  become_lasting-Valid now p id r v =
      let (valid, admitted) = admit_history-Valid n p now r v in
      let key = (admit_history p now r).0 in
      modify-Valid n (admit_history p now r).1 valid id (with_key key) (with_key-KeepsEntry key)
        (λ a h. admitted)

  become_transient-Valid :
      (key : Option ℕ) (id : ℕ) (r : NotificationRuntime)
      → ValidBelow n r
      → ValidBelow n (become_transient key id r).1
  unfolding become_transient
  become_transient-Valid none id r v = unlinked-Valid id r v
  become_transient-Valid (some key) id r v =
      unlinked-Valid id (remove_snapshot key r) (remove_snapshot-Valid n r v key)

  rewrite_snapshot-Valid :
      (p : NormalizedNotification) (id : ℕ) (key : Option ℕ) (r : NotificationRuntime)
      → ValidBelow n r
      → ValidBelow n (rewrite_snapshot p id key r).1
  unfolding rewrite_snapshot replace_snapshot
  rewrite_snapshot-Valid p id none r v = v
  rewrite_snapshot-Valid p id (some key) r v =
      option_ind (λ (q : Bool × NotificationRuntime). ValidBelow n q.1)
        (snapshot_index key r.history_snapshots) (λ _. unlinked-Valid id r v)
        λ _ _. change_key-Valid n r v (replace_snapshot p) (λ s. refl) key

  replace_record-Valid :
      (w : World) (a : LiveAssociation) (p : NormalizedNotification) (id : ℕ)
      (r : NotificationRuntime)
      → ValidBelow n r
      → ValidBelow n (replace_record w a p id r).1
  unfolding replace_record
  replace_record-Valid w a p id r v =
      let Q : Bool × NotificationRuntime → Type 0 = λ q. ValidBelow n q.1 in
      if_ind Q a.transient
        (λ _. if_ind Q p.transient (λ _. v) (λ _. become_lasting-Valid w.now p id r v))
        λ _.
          if_ind Q p.transient (λ _. become_transient-Valid a.record_key id r v)
            (λ _. rewrite_snapshot-Valid p id (key_at id r.live_associations) r v)

  present_replacement-Valid :
      (w : World) (p : NormalizedNotification) (id : ℕ) (changed : Bool) (r : NotificationRuntime)
      → ValidBelow n r
      → ValidBelow n (present_replacement w p id changed r)
  unfolding present_replacement
  present_replacement-Valid w p id changed r v =
      let k = with_expiry-KeepsLink p w.now in
      let f : LiveAssociation → LiveAssociation = λ a. with_expiry p w.now (with_class p a) in
      let written =
        modify-Valid n r v id f
          (record {
            keeps_key = λ a. k.entry.keeps_key (with_class p a);
            keeps_sequence = λ a. k.entry.keeps_sequence (with_class p a);
          })
          (λ a. LinkedEntry-of_eq _ (with_class p a) (f a) (k.keeps_link (with_class p a))) in
      arm_scheduler-Valid n _
        (dispatch_presentation-Valid n _
          (notify_history_reset_if-Valid n _ (report_invalid_timeout-Valid n _ written p) changed) p
          id)
        w

  pub process_replacement-Valid :
      (w : World) (id h : ℕ) (r : NotificationRuntime)
      → ValidBelow n r
      → ValidBelow n (process_replacement w id h r)
  unfolding process_replacement replace_association
  process_replacement-Valid w id h r v =
      option_ind (ValidBelow n) (find id r.live_associations) (λ _. v)
        λ a _.
          if_ind (ValidBelow n) (refers_to w a h)
            (λ _.
              present_replacement-Valid w (normalize w h) id _ _
                (replace_record-Valid w a (normalize w h) id _ (prune_history-Valid n r v w.now)))
            (λ _. v)

  run_replacement-Valid :
      (w : World) (id h : ℕ) (r : NotificationRuntime)
      → ValidBelow n r
      → ValidBelow n (run_replacement w id h r)
  unfolding run_replacement
  run_replacement-Valid w id h r v =
      let v' = queued-Valid id false r v in
      option_ind (ValidBelow n) (find id r.live_associations) (λ _. v)
        λ a _.
          if_ind (ValidBelow n) (refers_to w a h) (λ _. process_replacement-Valid w id h _ v')
            (λ _. v')

  pub run_posted-Valid :
      (w : World) (posted : List (ℕ × ℕ)) (r : NotificationRuntime)
      → ValidBelow n r
      → ValidBelow n (run_posted w posted r)
  unfolding run_posted
  run_posted-Valid w [] r v = v
  run_posted-Valid w ((id, h) ∷ rest) r v =
      run_replacement-Valid w id h (record r { queued = rest }) v
