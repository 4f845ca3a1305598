-- ===== src/Notifications/Operations/Calls.antt =====
-- Admission to the history, presentations, and closing keep the invariant, also when an object's
-- method calls the runtime back.
use nagi_shell.Prelude.{
  ℕ, ◌<◌, ◌≡◌, refl, inl, inr, Bool, true, false, Option, none, some, ◌∷◌, if◌then◌else◌, length,
  Descending, arith, Bool-cases,
}
use nagi_shell.Prelude.Int.{ℤ}
use nagi_shell.Notifications.Types.{
  World, Reaction, not_invoked, ignored, closes, NotificationRuntime, LiveAssociation,
  NormalizedNotification,
}
use nagi_shell.Notifications.History.{make_snapshot}
use nagi_shell.Notifications.History.Order.{sequence}
use nagi_shell.Notifications.History.Links.{knows, snapshot_index-knows, Linked, LinkedEntry}
use nagi_shell.Notifications.Live.{find, modify, refers_to, invalidated}
use nagi_shell.Notifications.Live.Entries.{KeepsEntry}
use nagi_shell.Notifications.Live.Invariant.{LiveOk-mono, LiveOk-modify}
use nagi_shell.Notifications.Operations.{
  allocate_history_sequence, prune_lists, prune_history, admit_snapshot, admit_history,
  remove_snapshot, mark_snapshot_expired, with_expiry, presented, dispatch_presentation,
  close_record, close_association, close_notification, invoke, expire_notification, is_expiry,
}
use nagi_shell.Notifications.Operations.Pruning.{
  prune_lists-LiveOk, length-prune_lists, Descending-prune_lists, prune_lists_head,
}
use nagi_shell.Notifications.Operations.Validity.{
  bound, ValidBelow, with_live, arm_scheduler-Valid, notify_history_reset-Valid,
  notify_live_count-Valid, mark_snapshot_expired-Valid, remove_snapshot-Valid,
  erase_association-Valid, allocate_history-Valid, allocate_history_above,
}

-- The key that was admitted, if any, is in the history.
abbrev pub Admitted : Option ℕ × NotificationRuntime → Type 0
Admitted (key, r) = Linked (knows r.history_snapshots) key

module _ (n : ℕ) (p : NormalizedNotification) (now : ℕ) where
  admit_snapshot-Valid :
      (key : ℕ) (r : NotificationRuntime)
      → ValidBelow n r
      → Descending sequence key r.history_snapshots
      → key < bound r.next_history_sequence r.history_sequence_exhausted
      → ValidBelow n (admit_snapshot p now key r).1
  unfolding admit_snapshot prune_history
  admit_snapshot-Valid key r v d k =
      let s = make_snapshot p key now in
      record {
        live_ok =
            prune_lists-LiveOk n now (s ∷ r.history_snapshots) r.live_associations
              (LiveOk-mono n _ _ r.live_associations (λ j e. ground arith) v.live_ok);
        few = length-prune_lists now (s ∷ r.history_snapshots) r.live_associations;
        ordered = Descending-prune_lists now _ (s ∷ r.history_snapshots) r.live_associations (k, d);
        below = v.below;
        history_fits = v.history_fits;
        live_fits = v.live_fits;
      }

  -- The snapshot is there behind the pruning, so its key is returned.
  pub admit_snapshot_known :
      (key : ℕ) (r : NotificationRuntime)
      → (knows (admit_snapshot p now key r).1.history_snapshots key ≡ true)
        × ((admit_snapshot p now key r).0 ≡ some key)
  unfolding admit_snapshot prune_history
  admit_snapshot_known key r =
      let s = make_snapshot p key now in
      let q = (prune_lists now (s ∷ r.history_snapshots) r.live_associations).history in
      let there = prune_lists_head now s r.history_snapshots r.live_associations (omega arith) in
      (there, rw (snapshot_index-knows key q, there))

  -- Without a sequence number, or for a transient notification, nothing is admitted.
  admit_allocated-Valid :
      (r : NotificationRuntime) (key : Option ℕ)
      → ValidBelow n r
      → (allocate_history_sequence r).0 ≡ key
      → ValidBelow n (admit_history p now r).1 × Admitted (admit_history p now r)
  unfolding admit_history
  admit_allocated-Valid r none v e = elim (Bool-cases p.transient) [
    | inl t ↦ rw (t, admit_history) (v, tt)
    | inr t ↦ rw (t, e, admit_history) (allocate_history-Valid n r v, tt)
  ]
  admit_allocated-Valid r (some key) v e = elim (Bool-cases p.transient) [
    | inl t ↦ rw (t, admit_history) (v, tt)
    | inr t ↦
        let (above, under) = allocate_history_above n r v e in
        let r' = (allocate_history_sequence r).1 in
        let (there, some_key) = admit_snapshot_known key r' in
        rw (t, e, admit_history)
          (
            admit_snapshot-Valid key r' (allocate_history-Valid n r v) above under,
            rw some_key there,
          )
  ]

  pub admit_history-Valid :
      (r : NotificationRuntime)
      → ValidBelow n r
      → ValidBelow n (admit_history p now r).1 × Admitted (admit_history p now r)
  admit_history-Valid r v = admit_allocated-Valid r _ v refl

-- A write to an entry that keeps its key, its number and its link.
pub record KeepsLink (f : LiveAssociation → LiveAssociation) : Type 0 where
  pub entry : KeepsEntry f
  pub keeps_link : (a : LiveAssociation) → (f a).record_key ≡ a.record_key

pub LinkedEntry-of_eq :
    (P : ℕ → Bool) (a b : LiveAssociation)
    → b.record_key ≡ a.record_key
    → LinkedEntry P a
    → LinkedEntry P b
LinkedEntry-of_eq P a b e h = rw e h

presented-KeepsLink : (p : NormalizedNotification) → KeepsLink (presented p)
unfolding presented invalidated
presented-KeepsLink p = record {
  entry = record { keeps_key = λ a. ground arith; keeps_sequence = λ a. ground arith };
  keeps_link = λ a. ground arith;
}

pub with_expiry-KeepsLink : (p : NormalizedNotification) (now : ℕ) → KeepsLink (with_expiry p now)
unfolding with_expiry
with_expiry-KeepsLink p now = record {
  entry = record { keeps_key = λ a. refl; keeps_sequence = λ a. refl };
  keeps_link = λ a. refl;
}

module _ (n : ℕ) (r : NotificationRuntime) (v : ValidBelow n r) where
  pub modify-Valid :
      (id : ℕ) (f : LiveAssociation → LiveAssociation)
      → KeepsEntry f
      → ((a : LiveAssociation)
          → LinkedEntry (knows r.history_snapshots) a
          → LinkedEntry (knows r.history_snapshots) (f a))
      → ValidBelow n (record r { live_associations = modify id f r.live_associations })
  modify-Valid id f k g =
      with_live n r v _ (LiveOk-modify n _ f id r.live_associations k g v.live_ok)

  pub dispatch_presentation-Valid :
      (p : NormalizedNotification) (id : ℕ) → ValidBelow n (dispatch_presentation p id r)
  unfolding dispatch_presentation
  dispatch_presentation-Valid p id =
      let k = presented-KeepsLink p in
      modify-Valid id (presented p) k.entry
        (λ a. LinkedEntry-of_eq _ a (presented p a) (k.keeps_link a))

module _ (n : ℕ) where
  close_record-Valid :
      (reason : ℤ) (key : Option ℕ) (r : NotificationRuntime)
      → ValidBelow n r
      → ValidBelow n (close_record reason key r)
  unfolding close_record
  close_record-Valid reason none r v = v
  close_record-Valid reason (some key) r v =
      notify_history_reset-Valid n _ (marked (is_expiry reason))
    where
      marked :
          (b : Bool)
          → ValidBelow n (if b then mark_snapshot_expired key r else remove_snapshot key r)
      marked true = mark_snapshot_expired-Valid n r v key
      marked false = remove_snapshot-Valid n r v key

  close_association-Valid :
      (w : World) (reason : ℤ) (a : LiveAssociation) (r : NotificationRuntime)
      → ValidBelow n r
      → ValidBelow n (close_association w reason a r)
  unfolding close_association
  close_association-Valid w reason a r v =
      arm_scheduler-Valid n _
        (notify_live_count-Valid n _
          (erase_association-Valid n _ (close_record-Valid reason a.record_key r v) a.protocol_id)
          (length r.live_associations))
        w

  pub close_notification-Valid :
      (w : World) (h : ℕ) (reason : ℤ) (r : NotificationRuntime)
      → ValidBelow n r
      → ValidBelow n (close_notification w h reason r)
  unfolding close_notification
  close_notification-Valid w h reason r v =
      found (find (w.properties h).protocol_id r.live_associations)
    where
      checked :
          (a : LiveAssociation) (b : Bool)
          → ValidBelow n (if b then close_association w reason a r else r)
      checked a true = close_association-Valid w reason a r v
      checked a false = v

      found :
          (o : Option LiveAssociation)
          → ValidBelow n (elim o [
            | none ↦ r
            | some a ↦ if refers_to w a h then close_association w reason a r else r
          ])
      found none = v
      found (some a) = checked a (refers_to w a h)

  pub invoke-Valid :
      (w : World) (h : ℕ) (reaction : Reaction) (r : NotificationRuntime)
      → ValidBelow n r
      → ValidBelow n (invoke w h reaction r).1
  unfolding invoke
  invoke-Valid w h not_invoked r v = v
  invoke-Valid w h ignored r v = v
  invoke-Valid w h (closes reason) r v = close_notification-Valid w h reason r v

  pub expire_notification-Valid :
      (w : World) (h : ℕ) (r : NotificationRuntime)
      → ValidBelow n r
      → ValidBelow n (expire_notification w h r).1
  unfolding expire_notification
  expire_notification-Valid w h r v = invoke-Valid w h (w.expire h) r v
