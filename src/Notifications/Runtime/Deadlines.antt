-- ===== src/Notifications/Runtime/Deadlines.antt =====
-- When the timer has fired nothing due is left.
use nagi_shell.Prelude.{
  ℕ, zero, suc, ◌≡◌, refl, sym, ap, ◌∙◌, subst, ◌⊎◌, inl, inr, true, false, Option, none, some,
  List, [], ◌∷◌, All, All-map, arith, Bool-cases, Option-cases,
}
use nagi_shell.Prelude.Int.{ℤ}
use nagi_shell.Notifications.Types.{
  World, not_invoked, closes, NotificationRuntime, NotificationSnapshot, LiveAssociation,
}
use nagi_shell.Notifications.History.{snapshot_index, max_history}
use nagi_shell.Notifications.Live.{find, erase, clear_record_link, unlink_key}
use nagi_shell.Notifications.Live.Entries.{
  DistinctKeys, DistinctKeys-erase, DistinctKeys-map, KeepsEntry, All-erase, All-find, find_key,
}
use nagi_shell.Notifications.Operations.{
  prune_due, prune_excess, prune_lists, prune_history, remove_snapshot, mark_snapshot_expired,
  notify_history_reset, notify_history_reset_if, notify_live_count_if_changed, erase_association,
  close_record, close_association, close_notification, invoke, expire_notification, is_expiry,
}
use nagi_shell.Notifications.Scheduler.{arm_scheduler}
use nagi_shell.Notifications.Operations.Pruning.{IsFresh, All-prune_lists}
use nagi_shell.Notifications.Operations.Validity.{IsValid}
use nagi_shell.Notifications.Runtime.{
  is_due, due_ids, drop_due, expire_association, expire_due, expire_all, process_due_deadlines,
}

due_ids-clear :
    (now key : ℕ) (l : List LiveAssociation) → due_ids now (clear_record_link key l) ≡ due_ids now l
unfolding clear_record_link
due_ids-clear now key [] = refl
due_ids-clear now key (a ∷ rest) = ground (arith, due_ids-clear now key rest)

due_ids-find :
    (now id : ℕ) (l : List LiveAssociation) (ids : List ℕ)
    → due_ids now l ≡ id ∷ ids
    → find id l ≡ none
    → ⊥
unfolding find
due_ids-find now id [] ids e f = cc
due_ids-find now id (a ∷ rest) ids e f = ground (arith, due_ids-find now id rest ids)

due_ids-erase :
    (now id : ℕ) (l : List LiveAssociation) (ids : List ℕ)
    → DistinctKeys l
    → due_ids now l ≡ id ∷ ids
    → due_ids now (erase id l) ≡ ids
unfolding erase
due_ids-erase now id [] ids d e = cc
due_ids-erase now id (a ∷ rest) ids d e =
    ground (arith, due_ids-erase now id rest ids d.1, due_ids-find now id rest ids)

-- The first due key belongs to an association that is due.
due_ids-head :
    (now id : ℕ) (l : List LiveAssociation) (ids : List ℕ)
    → DistinctKeys l
    → due_ids now l ≡ id ∷ ids
    → (a : LiveAssociation) × (find id l ≡ some a) × (is_due now a ≡ true)
unfolding find
due_ids-head now id [] ids d e = absurd (cc)
due_ids-head now id (a ∷ rest) ids d e = elim (Bool-cases (is_due now a)) [
  | inl due ↦ (a, ground arith, due)
  | inr later ↦
      let e' : due_ids now rest ≡ id ∷ ids = ground arith in
      let (b, found, due) = due_ids-head now id rest ids d.1 e' in (b, ground arith, due)
]

-- The object is gone, or does not take the call, or closes, under the identifier of its association.
abbrev pub Responds : World → LiveAssociation → Type 0
Responds w a =
    (w.alive a.notification ≡ false)
    ⊎ (w.expire a.notification ≡ not_invoked)
    ⊎ ((reason : ℤ) × (w.expire a.notification ≡ closes reason)
        × ((w.properties a.notification).protocol_id ≡ a.protocol_id))

-- One association is erased, and a link cleared at most.
abbrev Erased : ℕ → NotificationRuntime → NotificationRuntime → Type 0
Erased id r q =
    (q.live_associations ≡ erase id r.live_associations)
    ⊎ ((key : ℕ) × (q.live_associations ≡ erase id (clear_record_link key r.live_associations)))

remove_snapshot-live :
    (key : ℕ) (r : NotificationRuntime)
    → ((remove_snapshot key r).live_associations ≡ r.live_associations)
      ⊎ ((remove_snapshot key r).live_associations ≡ clear_record_link key r.live_associations)
unfolding remove_snapshot
remove_snapshot-live key r = elim (Option-cases (snapshot_index key r.history_snapshots)) [
  | inl e ↦ inl (rw (e, remove_snapshot))
  | inr (i, e) ↦ inr (rw (e, remove_snapshot))
]

removed-Erased :
    (id key : ℕ) (r q : NotificationRuntime)
    → q.live_associations ≡ erase id (remove_snapshot key r).live_associations
    → Erased id r q
removed-Erased id key r q e = elim (remove_snapshot-live key r) [
  | inl same ↦ inl (e ∙ ap (erase id) same)
  | inr cleared ↦ inr (key, e ∙ ap (erase id) cleared)
]

drop_due-Erased :
    (a : LiveAssociation) (o : Option ℕ) (r : NotificationRuntime)
    → a.record_key ≡ o
    → Erased a.protocol_id r (drop_due a r)
unfolding drop_due notify_live_count_if_changed erase_association
drop_due-Erased a none r e = inl (rw e)
drop_due-Erased a (some key) r e =
    removed-Erased a.protocol_id key r (drop_due a r) (unfold notify_history_reset in rw e)

close_record-Erased :
    (w : World) (reason : ℤ) (a : LiveAssociation) (o : Option ℕ) (r : NotificationRuntime)
    → a.record_key ≡ o
    → Erased a.protocol_id r (close_association w reason a r)
unfolding close_association notify_live_count_if_changed erase_association arm_scheduler
    close_record notify_history_reset mark_snapshot_expired
close_record-Erased w reason a none r e = inl (rw (e, close_record))
close_record-Erased w reason a (some key) r e = elim (Bool-cases (is_expiry reason)) [
  | inl marked ↦ inl (rw (e, close_record, marked))
  | inr removed ↦
      removed-Erased a.protocol_id key r (close_association w reason a r)
        (rw (e, close_record, removed))
]

close_found :
    (w : World) (reason : ℤ) (a : LiveAssociation) (r : NotificationRuntime)
    → find a.protocol_id r.live_associations ≡ some a
    → (w.properties a.notification).protocol_id ≡ a.protocol_id
    → w.alive a.notification ≡ true
    → close_notification w a.notification reason r ≡ close_association w reason a r
unfolding close_notification
close_found w reason a r f same alive = rw (same, f, close_notification, alive) (ground arith)

expire_closes :
    (w : World) (reason : ℤ) (a : LiveAssociation) (r : NotificationRuntime)
    → w.expire a.notification ≡ closes reason
    → w.alive a.notification ≡ true
    → expire_association w a r ≡ close_notification w a.notification reason r
unfolding expire_association expire_notification invoke
expire_closes w reason a r done alive = rw (alive, done, expire_association, invoke)

expire-Erased :
    (w : World) (a : LiveAssociation) (r : NotificationRuntime)
    → find a.protocol_id r.live_associations ≡ some a
    → Responds w a
    → Erased a.protocol_id r (expire_association w a r)
unfolding expire_association expire_notification invoke close_notification
expire-Erased w a r f (inl dead) =
    rw (dead, expire_association) (drop_due-Erased a a.record_key r refl)
expire-Erased w a r f (inr (inl refused)) = elim (Bool-cases (w.alive a.notification)) [
  | inl alive ↦
      rw (alive, refused, expire_association, invoke) (drop_due-Erased a a.record_key r refl)
  | inr dead ↦ rw (dead, expire_association) (drop_due-Erased a a.record_key r refl)
]
expire-Erased w a r f (inr (inr (reason, done, same))) =
    elim (Bool-cases (w.alive a.notification)) [
      | inl alive ↦
          subst (Erased a.protocol_id r)
            (sym (expire_closes w reason a r done alive ∙ close_found w reason a r f same alive))
            (close_record-Erased w reason a a.record_key r refl)
      | inr dead ↦ rw (dead, expire_association) (drop_due-Erased a a.record_key r refl)
    ]

unlink_key-KeepsEntry : (key : ℕ) → KeepsEntry (unlink_key key)
unlink_key-KeepsEntry key = record { keeps_key = λ a. refl; keeps_sequence = λ a. refl }

-- What is left to do when the ids to do are `ids`.
record Pending (w : World) (ids : List ℕ) (l : List LiveAssociation) : Type 0 where
  due : due_ids w.now l ≡ ids
  distinct : DistinctKeys l
  responds : All (Responds w) l

Pending-clear :
    (w : World) (ids : List ℕ) (key : ℕ) (l : List LiveAssociation)
    → Pending w ids l
    → Pending w ids (clear_record_link key l)
unfolding clear_record_link
Pending-clear w ids key l p = record {
  due = (unfold clear_record_link in due_ids-clear w.now key l) ∙ p.due;
  distinct = DistinctKeys-map (unlink_key key) (unlink_key-KeepsEntry key) l p.distinct;
  responds = All-map (Responds w) (Responds w) (unlink_key key) l (λ a h. h) p.responds;
}

Pending-erase :
    (w : World) (id : ℕ) (ids : List ℕ) (l : List LiveAssociation)
    → Pending w (id ∷ ids) l
    → Pending w ids (erase id l)
Pending-erase w id ids l p = record {
  due = due_ids-erase w.now id l ids p.distinct p.due;
  distinct = DistinctKeys-erase id l p.distinct;
  responds = All-erase (Responds w) id l p.responds;
}

Pending-Erased :
    (w : World) (id : ℕ) (ids : List ℕ) (r q : NotificationRuntime)
    → Pending w (id ∷ ids) r.live_associations
    → Erased id r q
    → Pending w ids q.live_associations
Pending-Erased w id ids r q p (inl e) =
    subst (Pending w ids) (sym e) (Pending-erase w id ids r.live_associations p)
Pending-Erased w id ids r q p (inr (key, e)) = subst (Pending w ids) (sym e) (
    Pending-erase w id ids (clear_record_link key r.live_associations)
      (Pending-clear w (id ∷ ids) key r.live_associations p))

expire_due-Pending :
    (w : World) (id : ℕ) (ids : List ℕ) (r : NotificationRuntime)
    → Pending w (id ∷ ids) r.live_associations
    → Pending w ids (expire_due w id r).live_associations
unfolding expire_due
expire_due-Pending w id ids r p =
    let (a, found, due) = due_ids-head w.now id r.live_associations ids p.distinct p.due in
    let same = find_key id r.live_associations found in
    let erased =
      expire-Erased w a r (rw same found)
        (All-find (Responds w) id r.live_associations found p.responds) in
    rw (found, expire_due, due)
      (Pending-Erased w id ids r (expire_association w a r) p
        (subst (λ k. Erased k r (expire_association w a r)) same erased))

expire_all-Pending :
    (w : World) (ids : List ℕ) (r : NotificationRuntime)
    → Pending w ids r.live_associations
    → Pending w [] (expire_all w ids r).live_associations
unfolding expire_all
expire_all-Pending w [] r p = p
expire_all-Pending w (id ∷ rest) r p =
    expire_all-Pending w rest (expire_due w id r) (expire_due-Pending w id rest r p)

prune_due-due_ids :
    (t now : ℕ) (h : List NotificationSnapshot) (l : List LiveAssociation)
    → due_ids t (prune_due now h l).live ≡ due_ids t l
unfolding prune_due
prune_due-due_ids t now [] l = refl
prune_due-due_ids t now (s ∷ rest) l =
    let p = (prune_due now rest l).live in
    ground (arith, prune_due-due_ids t now rest l, due_ids-clear t s.first_admission_sequence p)

prune_excess-due_ids :
    (t room : ℕ) (h : List NotificationSnapshot) (l : List LiveAssociation)
    → due_ids t (prune_excess room h l).live ≡ due_ids t l
unfolding prune_excess
prune_excess-due_ids t room [] l = refl
prune_excess-due_ids t zero (s ∷ rest) l =
    due_ids-clear t s.first_admission_sequence _ ∙ prune_excess-due_ids t zero rest l
prune_excess-due_ids t (suc room) (s ∷ rest) l = prune_excess-due_ids t room rest l

-- When a valid runtime has handled its timer, and every notification object is gone, refuses the call
-- or closes under the identifier of its association, no live notification is past its deadline, and
-- no snapshot past its cutoff.
pub process_due_deadlines-settles :
    (w : World) (r : NotificationRuntime)
    → IsValid r
    → All (Responds w) r.live_associations
    → let q = process_due_deadlines w r in
      (due_ids w.now q.live_associations ≡ []) × All (IsFresh w.now) q.history_snapshots
unfolding process_due_deadlines arm_scheduler notify_history_reset_if prune_history prune_lists
process_due_deadlines-settles w r v responds =
    let r1 = expire_all w (due_ids w.now r.live_associations) r in
    let settled =
      expire_all-Pending w (due_ids w.now r.live_associations) r
        (record { due = refl; distinct = v.live_ok.distinct; responds = responds }) in
    (
      prune_excess-due_ids w.now max_history _ _
          ∙ prune_due-due_ids w.now w.now r1.history_snapshots r1.live_associations
          ∙ settled.due,
      All-prune_lists w.now r1.history_snapshots r1.live_associations,
    )
