-- ===== src/Notifications/Runtime/Validity.antt =====
-- Every handler keeps the invariant, and so does every history of events.
use nagi_shell.Prelude.{
  ℕ, refl, Bool, true, false, not, ◌&&◌, ◌||◌, Option, none, some, is_some, List, [], ◌∷◌, ◌==◌,
  length, map, list_eq, arith, if_ind, option_ind,
}
use nagi_shell.Prelude.Int.{ℤ}
use nagi_shell.Notifications.Text.{QString}
use nagi_shell.Notifications.Types.{
  World, Reaction, not_invoked, ignored, closes, NotificationRuntime, LiveAssociation,
  server_ownership_changed,
}
use nagi_shell.Notifications.History.{snapshot_index}
use nagi_shell.Notifications.History.Links.{knows}
use nagi_shell.Notifications.Live.{find, refers_to, unlink, invalidated}
use nagi_shell.Notifications.Live.Entries.{KeepsEntry}
use nagi_shell.Notifications.Live.Invariant.{LiveOk-map, LiveOk-empty}
use nagi_shell.Notifications.Scheduler.{arm_scheduler}
use nagi_shell.Notifications.Operations.{remove_snapshot, notify_history_reset, expire_notification}
use nagi_shell.Notifications.Operations.Validity.{
  live_bound, ValidBelow, IsValid, IsValid-of_below, with_live, emit_if-Valid, arm_scheduler-Valid,
  notify_history_reset-Valid, notify_history_reset_if-Valid, notify_live_count-Valid,
  erase_association-Valid, remove_snapshot-Valid, prune_history-Valid,
}
use nagi_shell.Notifications.Operations.Calls.{
  close_notification-Valid, invoke-Valid, expire_notification-Valid,
}
use nagi_shell.Notifications.Replacement.{run_posted}
use nagi_shell.Notifications.Replacement.Validity.{queue_replacement-Valid, run_posted-Valid}
use nagi_shell.Notifications.Admission.{begin_generation}
use nagi_shell.Notifications.Admission.Generations.{
  begin_generation-Valid, attach_notification-IsValid, finish_generation-IsValid,
}
use nagi_shell.Notifications.Runtime.{
  initial, update_notification, close_argument, parse_record_key, find_dismissible,
  drop_association, dismiss_live, dismiss_history, dismiss_key, dismiss, clear_history, is_due,
  due_ids, drop_record, drop_due, expire_association, expire_due, expire_all, process_due_deadlines,
  linked_keys, remove_all, invalidate_all, drop_live, clear_live_state, set_server_owned,
  refresh_server_ownership, Event, begins, clears, posted, timeout, attaches, updates, closed,
  finishes, dismisses, refreshes, step, run,
}

-- A freshly constructed object is valid.
pub initial-IsValid : (watch : Bool) → IsValid (initial watch)
unfolding initial
initial-IsValid watch = record {
  live_ok = LiveOk-empty 1 (knows []);
  few = omega arith;
  ordered = tt;
  below = omega arith;
  history_fits = omega arith;
  live_fits = omega arith;
}

module _ (n : ℕ) (w : World) (r : NotificationRuntime) (v : ValidBelow n r) where
  update_notification-Valid : (o : Option ℕ) → ValidBelow n (update_notification w o r)
  unfolding update_notification
  update_notification-Valid none = v
  update_notification-Valid (some h) =
      let id = (w.properties h).protocol_id in
      option_ind (ValidBelow n) (find id r.live_associations) (λ _. v)
        λ a _.
          if_ind (ValidBelow n) (not (refers_to w a h) || r.reconciling_generation) (λ _. v)
            (λ _. queue_replacement-Valid n id h r v)

  close_argument-Valid : (o : Option ℕ) (reason : ℤ) → ValidBelow n (close_argument w o reason r)
  unfolding close_argument
  close_argument-Valid none reason = v
  close_argument-Valid (some h) reason = close_notification-Valid n w h reason r v

  drop_association-Valid :
      (key : ℕ) (a : LiveAssociation) → ValidBelow n (drop_association w key a r)
  unfolding drop_association
  drop_association-Valid key a =
      arm_scheduler-Valid n _
        (notify_live_count-Valid n _
          (notify_history_reset-Valid n _
            (erase_association-Valid n _ (remove_snapshot-Valid n r v key) a.protocol_id))
          (length r.live_associations))
        w

  dismiss_live-Valid :
      (key : ℕ) (a : LiveAssociation) (reaction : Reaction)
      → ValidBelow n (dismiss_live w key a reaction r)
  unfolding dismiss_live
  dismiss_live-Valid key a not_invoked = drop_association-Valid key a
  dismiss_live-Valid key a ignored = invoke-Valid n w a.notification ignored r v
  dismiss_live-Valid key a (closes reason) = invoke-Valid n w a.notification (closes reason) r v

  dismiss_history-Valid : (key : ℕ) → ValidBelow n (dismiss_history w key r).1
  unfolding dismiss_history
  dismiss_history-Valid key =
      if_ind (λ (q : Bool × NotificationRuntime). ValidBelow n q.1)
        (is_some (snapshot_index key r.history_snapshots))
        (λ _.
          arm_scheduler-Valid n (notify_history_reset (remove_snapshot key r))
            (notify_history_reset-Valid n (remove_snapshot key r) (remove_snapshot-Valid n r v key))
            w)
        (λ _. v)

  dismiss_key-Valid : (key : ℕ) → ValidBelow n (dismiss_key w key r).1
  unfolding dismiss_key
  dismiss_key-Valid key =
      option_ind (λ (q : Bool × NotificationRuntime). ValidBelow n q.1)
        (find_dismissible w key r.live_associations)
        {f = λ a. (true, dismiss_live w key a (w.dismiss a.notification) r)}
        (λ _. dismiss_history-Valid key) λ a _. dismiss_live-Valid key a (w.dismiss a.notification)

  dismiss-Valid : (value : Option ℕ) → ValidBelow n (dismiss w value r).1
  unfolding dismiss
  dismiss-Valid value =
      option_ind (λ (q : Bool × NotificationRuntime). ValidBelow n q.1) (parse_record_key value)
        {f = λ key. dismiss_key w key r} (λ _. v) (λ key _. dismiss_key-Valid key)

  clear_history-Valid : ValidBelow n (clear_history w r)
  unfolding clear_history arm_scheduler notify_history_reset
  clear_history-Valid =
      if_ind (ValidBelow n) (length r.history_snapshots == 0) (λ _. v)
        λ _. record {
          live_ok =
              LiveOk-map n (knows r.history_snapshots) (knows []) unlink r.live_associations
                (record { keeps_key = λ a. refl; keeps_sequence = λ a. refl }) (λ a h. tt)
                v.live_ok;
          few = omega arith;
          ordered = tt;
          below = v.below;
          history_fits = v.history_fits;
          live_fits = v.live_fits;
        }

module _ (n : ℕ) (w : World) where
  drop_due-Valid :
      (a : LiveAssociation) (r : NotificationRuntime) → ValidBelow n r → ValidBelow n (drop_due a r)
  unfolding drop_due
  drop_due-Valid a r v =
      notify_live_count-Valid n _ (erase_association-Valid n _ (dropped a.record_key) a.protocol_id)
        (length r.live_associations)
    where
      dropped : (o : Option ℕ) → ValidBelow n (drop_record o r)
      dropped none = v
      dropped (some key) = notify_history_reset-Valid n _ (remove_snapshot-Valid n r v key)

  expire_due-Valid :
      (id : ℕ) (r : NotificationRuntime) → ValidBelow n r → ValidBelow n (expire_due w id r)
  unfolding expire_due expire_association
  expire_due-Valid id r v =
      option_ind (ValidBelow n) (find id r.live_associations) (λ _. v)
        λ a _.
          let v' = expire_notification-Valid n w a.notification r v in
          if_ind (ValidBelow n) (is_due w.now a)
            (λ _.
              if_ind (ValidBelow n) (not (w.alive a.notification)) (λ _. drop_due-Valid a r v)
                λ _.
                  if_ind (ValidBelow n) (expire_notification w a.notification r).0 (λ _. v')
                    (λ _. drop_due-Valid a _ v'))
            (λ _. v)

  expire_all-Valid :
      (ids : List ℕ) (r : NotificationRuntime) → ValidBelow n r → ValidBelow n (expire_all w ids r)
  unfolding expire_all
  expire_all-Valid [] r v = v
  expire_all-Valid (id ∷ rest) r v =
      expire_all-Valid rest (expire_due w id r) (expire_due-Valid id r v)

  process_due_deadlines-Valid :
      (r : NotificationRuntime) → ValidBelow n r → ValidBelow n (process_due_deadlines w r)
  unfolding process_due_deadlines
  process_due_deadlines-Valid r v =
      let v1 = expire_all-Valid (due_ids w.now r.live_associations) r v in
      arm_scheduler-Valid n _
        (notify_history_reset_if-Valid n _ (prune_history-Valid n _ v1 w.now) _) w

  remove_all-Valid :
      (keys : List ℕ) (r : NotificationRuntime) → ValidBelow n r → ValidBelow n (remove_all keys r)
  unfolding remove_all
  remove_all-Valid [] r v = v
  remove_all-Valid (key ∷ rest) r v =
      remove_all-Valid rest (remove_snapshot key r) (remove_snapshot-Valid n r v key)

  invalidated-KeepsEntry : KeepsEntry invalidated
  unfolding invalidated
  invalidated-KeepsEntry = record { keeps_key = λ a. refl; keeps_sequence = λ a. refl }

  drop_live-Valid : (r : NotificationRuntime) → ValidBelow n r → ValidBelow n (drop_live r)
  unfolding drop_live invalidated
  drop_live-Valid r v =
      let v1 = with_live n r v (map invalidated r.live_associations) (
        LiveOk-map n (knows r.history_snapshots) (knows r.history_snapshots) invalidated
          r.live_associations invalidated-KeepsEntry (λ a h. h) v.live_ok) in
      let r2 = remove_all (linked_keys r.live_associations) (invalidate_all r) in
      with_live n r2 (remove_all-Valid (linked_keys r.live_associations) (invalidate_all r) v1) []
        (LiveOk-empty n (knows r2.history_snapshots))

  clear_live_state-Valid :
      (r : NotificationRuntime) → ValidBelow n r → ValidBelow n (clear_live_state w r)
  unfolding clear_live_state
  clear_live_state-Valid r v =
      if_ind (ValidBelow n) (length r.live_associations == 0) (λ _. v)
        λ _.
          arm_scheduler-Valid n _
            (notify_live_count-Valid n _
              (notify_history_reset-Valid n (drop_live r) (drop_live-Valid r v))
              (length r.live_associations))
            w

  set_server_owned-Valid :
      (owned : Bool) (r : NotificationRuntime)
      → ValidBelow n r
      → ValidBelow n (set_server_owned w owned r)
  unfolding set_server_owned
  set_server_owned-Valid true r v =
      if_ind (ValidBelow n) r.owns_notification_server (λ _. v) (λ _. v)
  set_server_owned-Valid false r v =
      if_ind (ValidBelow n) r.owns_notification_server
        (λ _.
          let lost : NotificationRuntime = record r { owns_notification_server = false } in
          emit_if-Valid n (clear_live_state w lost) (clear_live_state-Valid lost v) true
            server_ownership_changed)
        (λ _. v)

refresh-Valid :
    (n : ℕ) (w : World) (owner : Option QString) (own : QString) (r : NotificationRuntime)
    → ValidBelow n r
    → ValidBelow n (refresh_server_ownership w owner own r)
unfolding refresh_server_ownership
refresh-Valid n w none own r v =
    if_ind (ValidBelow n) r.ownership_monitoring_enabled (λ _. set_server_owned-Valid n w false r v)
      (λ _. v)
refresh-Valid n w (some owner) own r v =
    if_ind (ValidBelow n) r.ownership_monitoring_enabled
      (λ _. set_server_owned-Valid n w (not (length owner == 0) && list_eq owner own) r v) (λ _. v)

step-IsValid : (w : World) (e : Event) (r : NotificationRuntime) → IsValid r → IsValid (step w e r)
unfolding step
step-IsValid w begins r v =
    IsValid-of_below (live_bound r) (begin_generation w r) (begin_generation-Valid _ w r v)
step-IsValid w clears r v =
    IsValid-of_below (live_bound r) (clear_history w r) (clear_history-Valid _ w r v)
step-IsValid w posted r v =
    IsValid-of_below (live_bound r) (run_posted w r.queued r) (run_posted-Valid _ w r.queued r v)
step-IsValid w timeout r v =
    let fired : NotificationRuntime = record r { timer = none } in
    IsValid-of_below (live_bound r) (process_due_deadlines w fired)
      (process_due_deadlines-Valid (live_bound r) w fired v)
step-IsValid w (attaches h generation) r v = attach_notification-IsValid w h generation r v
step-IsValid w (updates h) r v =
    IsValid-of_below (live_bound r) (update_notification w h r)
      (update_notification-Valid _ w r v h)
step-IsValid w (closed h reason) r v =
    IsValid-of_below (live_bound r) (close_argument w h reason r)
      (close_argument-Valid _ w r v h reason)
step-IsValid w (finishes generation) r v = finish_generation-IsValid w generation r v
step-IsValid w (dismisses key) r v =
    IsValid-of_below (live_bound r) (dismiss w key r).1 (dismiss-Valid _ w r v key)
step-IsValid w (refreshes owner own) r v =
    IsValid-of_below (live_bound r) (refresh_server_ownership w owner own r)
      (refresh-Valid _ w owner own r v)

run-IsValid : (es : List (World × Event)) (r : NotificationRuntime) → IsValid r → IsValid (run es r)
unfolding run
run-IsValid [] r v = v
run-IsValid ((w, e) ∷ rest) r v = run-IsValid rest (step w e r) (step-IsValid w e r v)

-- After any history of events, in any worlds, the runtime holds at most 50 live notifications, one for
-- each protocol identifier and in falling order of their sequence numbers, and at most 50 snapshots,
-- in falling order of theirs; every link of a live notification is to a snapshot that is there, and
-- no sequence number leaves 64 bits.
pub run-initial-IsValid :
    (watch : Bool) (es : List (World × Event)) → IsValid (run es (initial watch))
run-initial-IsValid watch es = run-IsValid es (initial watch) (initial-IsValid watch)
