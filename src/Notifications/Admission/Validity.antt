-- ===== src/Notifications/Admission/Validity.antt =====
-- The admission of notifications and the generations of the shell keep the invariant.
use nagi_shell.Prelude.{
  ℕ, ◌<◌, ◌≡◌, refl, Bool, not, Option, none, some, is_some, ◌∷◌, ◌==◌, leb, length, arith, if_ind,
  option_ind, subst,
}
use nagi_shell.Notifications.Types.{
  World, NotificationRuntime, LiveAssociation, NormalizedNotification,
}
use nagi_shell.Notifications.History.Links.{knows, Linked}
use nagi_shell.Notifications.Live.{find, erase, max_live, refers_to, select_victim}
use nagi_shell.Notifications.Live.Invariant.{LiveOk-insert}
use nagi_shell.Notifications.Normalize.{normalize}
use nagi_shell.Notifications.Scheduler.{arm_scheduler}
use nagi_shell.Notifications.Operations.{
  admit_history, allocate_live_sequence, notify_history_reset_if, notify_live_count_if_changed,
  expire_notification, with_expiry, report_invalid_timeout, dispatch_presentation, prune_history,
  admit_snapshot, allocate_history_sequence,
}
use nagi_shell.Notifications.Operations.Validity.{
  live_bound, ValidBelow, IsValid, IsValid-of_below, arm_scheduler-Valid,
  notify_history_reset-Valid, mark_snapshot_expired-Valid, allocate_live-Valid, allocate_live_above,
}
use nagi_shell.Notifications.Operations.Calls.{
  admit_history-Valid, dispatch_presentation-Valid, expire_notification-Valid,
}
use nagi_shell.Notifications.Replacement.{queue_replacement}
use nagi_shell.Notifications.Replacement.Validity.{queue_replacement-Valid}
use nagi_shell.Notifications.Admission.{
  mark_key_expired, decline, insert_association, replace_victim, first_victim, admit_at_capacity,
  admit_provisional, provisional_association, admit_sequenced, admit_new, admit_fresh,
}
use nagi_shell.Notifications.Admission.Room.{
  Reserved, admit_history-Reserved, expire_notification-knows, expire_notification-live_bound,
}

mark_key_expired-Valid :
    (n : ℕ) (o : Option ℕ) (r : NotificationRuntime)
    → ValidBelow n r
    → ValidBelow n (mark_key_expired o r)
unfolding mark_key_expired
mark_key_expired-Valid n none r v = v
mark_key_expired-Valid n (some key) r v =
    notify_history_reset-Valid n _ (mark_snapshot_expired-Valid n r v key)

decline-Valid :
    (n : ℕ) (w : World) (h : ℕ) (o : Option ℕ) (r : NotificationRuntime)
    → ValidBelow n r
    → ValidBelow n (decline w h o r)
unfolding decline
decline-Valid n w h o r v =
    arm_scheduler-Valid n _ (expire_notification-Valid n w h _ (mark_key_expired-Valid n o r v)) w

-- A newcomer with the sequence number `s` and the history key `o`.
module _ (w : World) (p : NormalizedNotification) (h s : ℕ) (o : Option ℕ) where
  insert-IsValid :
      (r : NotificationRuntime)
      → ValidBelow s r
      → s < live_bound r
      → length r.live_associations < max_live
      → Linked (knows r.history_snapshots) o
      → IsValid (insert_association w p (provisional_association w p h s o) r)
  unfolding insert_association provisional_association report_invalid_timeout arm_scheduler
      dispatch_presentation notify_live_count_if_changed with_expiry
  insert-IsValid r v under room link =
      let a = with_expiry p w.now (provisional_association w p h s o) in
      let inserted : NotificationRuntime = record (report_invalid_timeout p r) {
        live_associations = a ∷ erase p.protocol_id r.live_associations;
      } in
      let ok =
        LiveOk-insert (live_bound r) (knows r.history_snapshots) a r.live_associations v.live_ok
          under room link in
      dispatch_presentation-Valid (live_bound r)
        (notify_live_count_if_changed (length r.live_associations) inserted)
        (record {
          live_ok = ok;
          few = v.few;
          ordered = v.ordered;
          below = omega arith;
          history_fits = v.history_fits;
          live_fits = v.live_fits;
        })
        p p.protocol_id

  decline-IsValid : (r : NotificationRuntime) → ValidBelow s r → IsValid (decline w h o r)
  decline-IsValid r v = IsValid-of_below s (decline w h o r) (decline-Valid s w h o r v)

  replace_victim-IsValid :
      (victim : LiveAssociation) (r : NotificationRuntime)
      → ValidBelow s r
      → s < live_bound r
      → Reserved o r
      → IsValid (replace_victim w p (provisional_association w p h s o) victim r)
  unfolding replace_victim provisional_association
  replace_victim-IsValid victim r v under kept =
      let r' = (expire_notification w victim.notification r).1 in
      let v' = expire_notification-Valid s w victim.notification r v in
      let under' : s < live_bound r' =
        omega (arith, expire_notification-live_bound w victim.notification r) in
      let declined = decline-IsValid r' v' in
      if_ind IsValid (not (w.alive victim.notification)) (λ _. decline-IsValid r v)
        λ _.
          if_ind IsValid _ (λ _. declined)
            λ room.
              insert-IsValid r' v' under' (ground arith)
                (expire_notification-knows w victim.notification o r kept)

  admit_at_capacity-IsValid :
      (r : NotificationRuntime)
      → ValidBelow s r
      → s < live_bound r
      → Reserved o r
      → IsValid (admit_at_capacity w p (provisional_association w p h s o) r)
  unfolding admit_at_capacity provisional_association
  admit_at_capacity-IsValid r v under kept =
      let newcomer = provisional_association w p h s o in
      let victim =
        select_victim r.history_snapshots (first_victim p newcomer r) r.live_associations in
      let declined = decline-IsValid r v in
      if_ind IsValid victim.provisional (λ _. declined)
        λ _.
          option_ind IsValid (find victim.id r.live_associations) (λ _. declined)
            λ a _. replace_victim-IsValid a r v under kept

  admit_provisional-IsValid :
      (r : NotificationRuntime)
      → ValidBelow s r
      → s < live_bound r
      → Reserved o r
      → Linked (knows r.history_snapshots) o
      → IsValid (admit_provisional w p (provisional_association w p h s o) r)
  unfolding admit_provisional
  admit_provisional-IsValid r v under kept link =
      if_ind IsValid (leb max_live (length r.live_associations))
        (λ _. admit_at_capacity-IsValid r v under kept)
        λ room. insert-IsValid r v under (ground arith) link

admit_history-live_bound :
    (p : NormalizedNotification) (now : ℕ) (r : NotificationRuntime)
    → live_bound (admit_history p now r).1 ≡ live_bound r
unfolding admit_history admit_snapshot prune_history allocate_history_sequence
admit_history-live_bound p now r =
    let B : Option ℕ × NotificationRuntime → Type 0 = λ q. live_bound q.1 ≡ live_bound r in
    if_ind B p.transient (λ _. refl)
      λ _. option_ind B (allocate_history_sequence r).0 (λ _. refl) (λ k _. refl)

admit_sequenced-IsValid :
    (w : World) (p : NormalizedNotification) (h s : ℕ) (r : NotificationRuntime)
    → ValidBelow s r
    → s < live_bound r
    → IsValid (admit_sequenced w p h s r)
unfolding admit_sequenced notify_history_reset_if
admit_sequenced-IsValid w p h s r v under =
    let (v', link) = admit_history-Valid s p w.now r v in
    let (key, r') = admit_history p w.now r in
    admit_provisional-IsValid w p h s key (notify_history_reset_if (is_some key) r') v'
      (omega (arith, admit_history-live_bound p w.now r))
      (unfold_reserved key r' (is_some key) (admit_history-Reserved s p w.now r v link)) link
  where
    unfold_reserved :
        (o : Option ℕ) (q : NotificationRuntime) (b : Bool)
        → Reserved o q
        → Reserved o (notify_history_reset_if b q)
    unfold_reserved none q b x = tt
    unfold_reserved (some k) q b x = x

admit_new-IsValid :
    (w : World) (p : NormalizedNotification) (h : ℕ) (r : NotificationRuntime) (o : Option ℕ)
    → IsValid r
    → (allocate_live_sequence r).0 ≡ o
    → IsValid (admit_new w p h r)
unfolding admit_new
admit_new-IsValid w p h r none v e =
    rw (e, admit_new)
      (IsValid-of_below (live_bound r) (expire_notification w h (allocate_live_sequence r).1).1
        (expire_notification-Valid (live_bound r) w h _ (allocate_live-Valid (live_bound r) r v)))
admit_new-IsValid w p h r (some s) v e =
    let (at, under) = allocate_live_above r e in
    rw (e, admit_new)
      (admit_sequenced-IsValid w p h s (allocate_live_sequence r).1
        (subst (λ k. ValidBelow k (allocate_live_sequence r).1) at
          (allocate_live-Valid (live_bound r) r v))
        under)

-- admitFresh.
pub admit_fresh-IsValid :
    (w : World) (h : ℕ) (r : NotificationRuntime) → IsValid r → IsValid (admit_fresh w h r)
unfolding admit_fresh
admit_fresh-IsValid w h r v =
    let p = normalize w h in
    let m = live_bound r in
    if_ind IsValid (p.protocol_id == 0)
      (λ _. IsValid-of_below m (expire_notification w h r).1 (expire_notification-Valid m w h r v))
      λ _.
        option_ind IsValid (find p.protocol_id r.live_associations)
          (λ _. admit_new-IsValid w p h r (allocate_live_sequence r).0 v refl)
          λ a _.
            if_ind IsValid (refers_to w a h)
              (λ _.
                IsValid-of_below m (queue_replacement p.protocol_id h r)
                  (queue_replacement-Valid m p.protocol_id h r v))
              (λ _. v)
