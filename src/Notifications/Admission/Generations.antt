-- ===== src/Notifications/Admission/Generations.antt =====
-- The beginning and the end of a generation keep the invariant.
use nagi_shell.Prelude.{
  ℕ, refl, Bool, true, false, not, ◌||◌, Option, none, some, List, [], ◌∷◌, ◌==◌, if◌then◌else◌,
  length, reverse, arith, if_ind, option_ind,
}
use nagi_shell.Notifications.Types.{World, NotificationRuntime, NormalizedNotification}
use nagi_shell.Notifications.History.Links.{knows}
use nagi_shell.Notifications.Live.{find, refers_to}
use nagi_shell.Notifications.Live.Entries.{KeepsEntry}
use nagi_shell.Notifications.Live.Invariant.{LiveOk-map}
use nagi_shell.Notifications.Normalize.{normalize}
use nagi_shell.Notifications.Scheduler.{arm_scheduler}
use nagi_shell.Notifications.Operations.{admit_history, notify_history_reset_if, erase_association}
use nagi_shell.Notifications.Operations.Validity.{
  live_bound, ValidBelow, IsValid, IsValid-of_below, arm_scheduler-Valid,
  notify_history_reset_if-Valid, notify_live_count-Valid, erase_association-Valid,
}
use nagi_shell.Notifications.Operations.Calls.{
  admit_history-Valid, modify-Valid, expire_notification-Valid,
}
use nagi_shell.Notifications.Replacement.{modify_live, with_key}
use nagi_shell.Notifications.Replacement.Validity.{with_key-KeepsEntry}
use nagi_shell.Notifications.Admission.{
  begin_generation, detached, attach_notification, admit_fresh, seen, carry_known, carry, carry_all,
  admit_carried, erase_all, erase_stale, admit_all, stale_ids, finish_generation, select_buffered,
  sort_descending,
}
use nagi_shell.Notifications.Admission.Validity.{admit_fresh-IsValid}

detached-KeepsEntry : KeepsEntry detached
detached-KeepsEntry = record { keeps_key = λ a. refl; keeps_sequence = λ a. refl }

-- beginGeneration.
pub begin_generation-Valid :
    (n : ℕ) (w : World) (r : NotificationRuntime)
    → ValidBelow n r
    → ValidBelow n (begin_generation w r)
unfolding begin_generation arm_scheduler notify_history_reset_if
begin_generation-Valid n w r v = record {
  live_ok =
      LiveOk-map n (knows r.history_snapshots) (knows []) detached r.live_associations
        detached-KeepsEntry (λ a h. tt) v.live_ok;
  few = omega arith;
  ordered = tt;
  below = v.below;
  history_fits = v.history_fits;
  live_fits = v.live_fits;
}

-- attachNotification.
pub attach_notification-IsValid :
    (w : World) (o : Option ℕ) (generation : ℕ) (r : NotificationRuntime)
    → IsValid r
    → IsValid (attach_notification w o generation r)
unfolding attach_notification
attach_notification-IsValid w none generation r v = v
attach_notification-IsValid w (some h) generation r v =
    if_ind IsValid (not (generation == r.current_generation)) (λ _. v)
      λ _. if_ind IsValid r.reconciling_generation (λ _. v) (λ _. admit_fresh-IsValid w h r v)

module _ (n : ℕ) (w : World) where
  carry_known-Valid :
      (p : NormalizedNotification) (r : NotificationRuntime)
      → ValidBelow n r
      → ValidBelow n (carry_known w p r).1
  unfolding carry_known modify_live
  carry_known-Valid p r v =
      let r1 : NotificationRuntime = modify_live p.protocol_id (seen p) r in
      let v1 =
        modify-Valid n r v p.protocol_id (seen p)
          (record { keeps_key = λ a. refl; keeps_sequence = λ a. refl }) (λ a h. h) in
      let (v2, link) = admit_history-Valid n p w.now r1 v1 in
      if_ind (λ (q : Bool × NotificationRuntime). ValidBelow n q.1) p.transient (λ _. v1)
        λ _.
          modify-Valid n (admit_history p w.now r1).1 v2 p.protocol_id
            (with_key (admit_history p w.now r1).0) (with_key-KeepsEntry _) (λ a h. link)

  carry-Valid : (h : ℕ) (r : NotificationRuntime) → ValidBelow n r → ValidBelow n (carry w h r).1
  unfolding carry
  carry-Valid h r v =
      let V : Bool × NotificationRuntime → Type 0 = λ q. ValidBelow n q.1 in
      let unknown = expire_notification-Valid n w h r v in
      if_ind V (not (w.alive h)) (λ _. v)
        λ _.
          option_ind V (find (w.properties h).protocol_id r.live_associations) (λ _. unknown)
            λ a _.
              if_ind V (refers_to w a h) (λ _. carry_known-Valid (normalize w h) r v) (λ _. unknown)

  carry_all-Valid :
      (hs : List ℕ) (r : NotificationRuntime) → ValidBelow n r → ValidBelow n (carry_all w hs r).1
  unfolding carry_all
  carry_all-Valid [] r v = v
  carry_all-Valid (h ∷ rest) r v = carry_all-Valid rest (carry w h r).1 (carry-Valid h r v)

  admit_carried-Valid :
      (hs : List ℕ) (r : NotificationRuntime) → ValidBelow n r → ValidBelow n (admit_carried w hs r)
  unfolding admit_carried
  admit_carried-Valid hs r v =
      notify_history_reset_if-Valid n _ (carry_all-Valid (reverse hs) r v)
        (carry_all w (reverse hs) r).0

  erase_all-Valid :
      (ids : List ℕ) (r : NotificationRuntime) → ValidBelow n r → ValidBelow n (erase_all ids r)
  unfolding erase_all
  erase_all-Valid [] r v = v
  erase_all-Valid (id ∷ rest) r v =
      erase_all-Valid rest (erase_association id r) (erase_association-Valid n r v id)

  erase_stale-Valid : (r : NotificationRuntime) → ValidBelow n r → ValidBelow n (erase_stale r)
  erase_stale-Valid r v =
      notify_live_count-Valid n _ (erase_all-Valid (stale_ids r.live_associations) r v)
        (length r.live_associations)

admit_all-IsValid :
    (w : World) (hs : List ℕ) (r : NotificationRuntime) → IsValid r → IsValid (admit_all w hs r)
unfolding admit_all
admit_all-IsValid w [] r v = v
admit_all-IsValid w (h ∷ rest) r v =
    admit_all-IsValid w rest (if w.alive h then admit_fresh w h r else r)
      (if_ind IsValid (w.alive h) (λ _. admit_fresh-IsValid w h r v) (λ _. v))

-- finishGeneration.
pub finish_generation-IsValid :
    (w : World) (generation : ℕ) (r : NotificationRuntime)
    → IsValid r
    → IsValid (finish_generation w generation r)
unfolding finish_generation
finish_generation-IsValid w generation r v =
    let identifier = λ (h : ℕ). (w.properties h).protocol_id in
    let carried = sort_descending identifier (select_buffered w true [] r.buffered_notifications) in
    let fresh = select_buffered w false [] r.buffered_notifications in
    let m = live_bound r in
    let r0 : NotificationRuntime = record r { buffered_notifications = [] } in
    let r1 = erase_stale (admit_carried w carried r0) in
    let v1 =
      erase_stale-Valid m w (admit_carried w carried r0) (admit_carried-Valid m w carried r0 v) in
    let r2 : NotificationRuntime = record r1 { reconciling_generation = false } in
    let v3 = admit_all-IsValid w fresh r2 (IsValid-of_below m r2 v1) in
    if_ind IsValid (not r.reconciling_generation || not (generation == r.current_generation))
      (λ _. v)
      λ _.
        IsValid-of_below (live_bound (admit_all w fresh r2))
          (arm_scheduler w (admit_all w fresh r2))
          (arm_scheduler-Valid (live_bound (admit_all w fresh r2)) (admit_all w fresh r2) v3 w)
