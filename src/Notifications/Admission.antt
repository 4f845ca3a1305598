-- ===== src/Notifications/Admission.antt =====
-- src/notifications/runtime.cpp: the generations of the shell, and the admission of notifications.
pub mod Room
pub mod Generations
pub mod Validity
use nagi_shell.Prelude.{
  ℕ, ◌+◌, Bool, true, false, not, ◌&&◌, ◌||◌, Option, none, some, is_some, List, [], ◌∷◌, ◌++◌,
  ◌==◌, ltb, leb, if◌then◌else◌, length, map, reverse, any,
}
use nagi_shell.Notifications.Types.{
  World, NotificationRuntime, LiveAssociation, BufferedNotification, NormalizedNotification,
}
use nagi_shell.Notifications.Live.{
  find, erase, refers_to, unlink, max_live, provisional_capacity_class, select_victim, Victim,
}
use nagi_shell.Notifications.Normalize.{normalize}
use nagi_shell.Notifications.Scheduler.{arm_scheduler}
use nagi_shell.Notifications.Operations.{
  u64_max, admit_history, mark_snapshot_expired, notify_history_reset, notify_history_reset_if,
  notify_live_count_if_changed, allocate_live_sequence, expire_notification, erase_association,
  with_expiry, report_invalid_timeout, dispatch_presentation, transient_source_token,
}
use nagi_shell.Notifications.Replacement.{modify_live, queue_replacement, with_key}

abbrev pub detached : LiveAssociation → LiveAssociation
detached a = record a { record_key = none; seen_in_generation = false; update_queued = false }

-- beginGeneration, without its result, which is `current_generation`.
unfoldable pub begin_generation : World → NotificationRuntime → NotificationRuntime
begin_generation w r =
    let is_empty = length r.history_snapshots == 0 in
    arm_scheduler w (
      notify_history_reset_if (not is_empty) (record r {
        current_generation =
            if r.current_generation == u64_max
            then r.current_generation
            else r.current_generation + 1;
        reconciling_generation = true;
        buffered_notifications = [];
        live_associations = map detached r.live_associations;
        history_snapshots = [];
      }))

-- The object that no association will hold: its snapshot is history at once.
unfoldable pub mark_key_expired : Option ℕ → NotificationRuntime → NotificationRuntime
mark_key_expired none r = r
mark_key_expired (some key) r = notify_history_reset (mark_snapshot_expired key r)

unfoldable pub decline : World → ℕ → Option ℕ → NotificationRuntime → NotificationRuntime
unfolding mark_key_expired
decline w notification key r =
    arm_scheduler w (expire_notification w notification (mark_key_expired key r)).1

-- The end of admitFresh. The insertion writes over an entry of the same key.
unfoldable pub insert_association :
    World → NormalizedNotification → LiveAssociation → NotificationRuntime → NotificationRuntime
insert_association w n provisional r =
    let id = n.protocol_id in
    let r' = record (report_invalid_timeout n r) {
      live_associations = with_expiry n w.now provisional ∷ erase id r.live_associations;
    } in
    arm_scheduler w
      (dispatch_presentation n id (notify_live_count_if_changed (length r.live_associations) r'))

-- The victim is expired, and the newcomer inserted if that has made room.
unfoldable pub replace_victim :
    World
    → NormalizedNotification
    → LiveAssociation
    → LiveAssociation
    → NotificationRuntime
    → NotificationRuntime
unfolding insert_association decline
replace_victim w n provisional victim r =
    let key = provisional.record_key in
    let (done, r') = expire_notification w victim.notification r in
    if not (w.alive victim.notification)
    then decline w provisional.notification key r
    else if not done || leb max_live (length r'.live_associations)
    then decline w provisional.notification key r'
    else insert_association w n provisional r'

-- The variables of the loop before its first round.
abbrev pub first_victim : NormalizedNotification → LiveAssociation → NotificationRuntime → Victim
first_victim n provisional r = record {
  provisional = true;
  id = 0;
  capacity = provisional_capacity_class r.history_snapshots n provisional.record_key;
  sequence = provisional.live_admission_sequence;
}

unfoldable pub admit_at_capacity :
    World → NormalizedNotification → LiveAssociation → NotificationRuntime → NotificationRuntime
unfolding decline replace_victim
admit_at_capacity w n provisional r =
    let v = select_victim r.history_snapshots (first_victim n provisional r) r.live_associations in
    let declined = decline w provisional.notification provisional.record_key r in
    if v.provisional then declined else elim (find v.id r.live_associations) [
      | none ↦ declined
      | some victim ↦ replace_victim w n provisional victim r
    ]

unfoldable pub admit_provisional :
    World → NormalizedNotification → LiveAssociation → NotificationRuntime → NotificationRuntime
unfolding insert_association admit_at_capacity
admit_provisional w n provisional r =
    if leb max_live (length r.live_associations)
    then admit_at_capacity w n provisional r
    else insert_association w n provisional r

unfoldable pub provisional_association :
    World → NormalizedNotification → ℕ → ℕ → Option ℕ → LiveAssociation
provisional_association w n notification sequence key = record {
  protocol_id = n.protocol_id;
  live_admission_sequence = sequence;
  notification = notification;
  record_key = key;
  urgency = n.urgency;
  transient = n.transient;
  expiry_deadline_monotonic_ms = none;
  update_queued = false;
  seen_in_generation = true;
  transient_source_token = transient_source_token w sequence;
  transient_app_name = [];
  transient_summary = [];
  transient_body = [];
  transient_app_icon_name = [];
  transient_source_generation = 1;
  transient_revision = 0;
  transient_presentation_valid = false;
}

unfoldable pub admit_sequenced :
    World → NormalizedNotification → ℕ → ℕ → NotificationRuntime → NotificationRuntime
unfolding admit_provisional provisional_association
admit_sequenced w n notification sequence r =
    let (key, r') = admit_history n w.now r in
    admit_provisional w n (provisional_association w n notification sequence key)
      (notify_history_reset_if (is_some key) r')

-- A notification whose identifier has no association yet.
unfoldable pub admit_new :
    World → NormalizedNotification → ℕ → NotificationRuntime → NotificationRuntime
unfolding admit_sequenced
admit_new w n notification r =
    let (sequence, r') = allocate_live_sequence r in
    elim sequence [
      | none ↦ (expire_notification w notification r').1
      | some s ↦ admit_sequenced w n notification s r'
    ]

-- admitFresh.
unfoldable pub admit_fresh : World → ℕ → NotificationRuntime → NotificationRuntime
unfolding admit_new
admit_fresh w notification r =
    let n = normalize w notification in
    if n.protocol_id == 0
    then (expire_notification w notification r).1
    else elim (find n.protocol_id r.live_associations) [
      | none ↦ admit_new w n notification r
      | some a ↦
          if refers_to w a notification then queue_replacement n.protocol_id notification r else r
    ]

-- attachNotification; a null object is `none`.
unfoldable pub attach_notification :
    World → Option ℕ → ℕ → NotificationRuntime → NotificationRuntime
attach_notification w none generation r = r
attach_notification w (some notification) generation r =
    if not (generation == r.current_generation)
    then r
    else if r.reconciling_generation
    then record r {
      buffered_notifications =
          r.buffered_notifications
          ++ record {
            notification = notification;
            carried = (w.properties notification).last_generation;
          }
            ∷ [];
    }
    else admit_fresh w notification r

-- The body of the loop of admitCarried on an association that the object belongs to.
abbrev pub seen : NormalizedNotification → LiveAssociation → LiveAssociation
seen n a = record a { seen_in_generation = true; transient = n.transient; urgency = n.urgency }

unfoldable pub carry_known :
    World → NormalizedNotification → NotificationRuntime → Bool × NotificationRuntime
carry_known w n r =
    let id = n.protocol_id in
    let r1 = modify_live id (seen n) r in
    let (key, r2) = admit_history n w.now r1 in
    if n.transient then (false, r1) else (is_some key, modify_live id (with_key key) r2)

unfoldable pub carry : World → ℕ → NotificationRuntime → Bool × NotificationRuntime
unfolding carry_known
carry w notification r =
    let unknown : Bool × NotificationRuntime = (false, (expire_notification w notification r).1) in
    if not (w.alive notification)
    then (false, r)
    else elim (find (w.properties notification).protocol_id r.live_associations) [
      | none ↦ unknown
      | some a ↦
          if refers_to w a notification then carry_known w (normalize w notification) r else unknown
    ]

unfoldable pub carry_all : World → List ℕ → NotificationRuntime → Bool × NotificationRuntime
unfolding carry
carry_all w [] r = (false, r)
carry_all w (notification ∷ rest) r =
    let (changed, r') = carry w notification r in
    let (changed', r'') = carry_all w rest r' in (changed || changed', r'')

-- admitCarried; the loop goes from the last to the first.
unfoldable pub admit_carried : World → List ℕ → NotificationRuntime → NotificationRuntime
unfolding carry_all
admit_carried w notifications r =
    let (changed, r') = carry_all w (reverse notifications) r in notify_history_reset_if changed r'

-- std::sort by falling identifier.
unfoldable pub insert_sorted : (ℕ → ℕ) → ℕ → List ℕ → List ℕ
insert_sorted id x [] = x ∷ []
insert_sorted id x (y ∷ ys) = if ltb (id y) (id x) then x ∷ y ∷ ys else y ∷ insert_sorted id x ys

unfoldable pub sort_descending : (ℕ → ℕ) → List ℕ → List ℕ
unfolding insert_sorted
sort_descending id [] = []
sort_descending id (x ∷ xs) = insert_sorted id x (sort_descending id xs)

-- The buffered objects that are carried, or fresh: alive, with an identifier that is not 0, the first
-- of each identifier. `ids` is the set of those met.
unfoldable pub select_buffered : World → Bool → List ℕ → List BufferedNotification → List ℕ
select_buffered w carried ids [] = []
select_buffered w carried ids (b ∷ rest) =
    let id = (w.properties b.notification).protocol_id in
    let kind = if carried then b.carried else not b.carried in
    let taken = b.notification ∷ select_buffered w carried (id ∷ ids) rest in
    let skipped = select_buffered w carried ids rest in
    if w.alive b.notification && not (id == 0) && kind && not (any (λ i. i == id) ids)
    then taken
    else skipped

abbrev pub stale_ids : List LiveAssociation → List ℕ
stale_ids [] = []
stale_ids (a ∷ rest) =
    if a.seen_in_generation then stale_ids rest else a.protocol_id ∷ stale_ids rest

unfoldable pub erase_all : List ℕ → NotificationRuntime → NotificationRuntime
erase_all [] r = r
erase_all (id ∷ rest) r = erase_all rest (erase_association id r)

unfoldable pub admit_all : World → List ℕ → NotificationRuntime → NotificationRuntime
admit_all w [] r = r
admit_all w (notification ∷ rest) r =
    admit_all w rest (if w.alive notification then admit_fresh w notification r else r)

abbrev pub erase_stale : NotificationRuntime → NotificationRuntime
erase_stale r =
    notify_live_count_if_changed (length r.live_associations)
      (erase_all (stale_ids r.live_associations) r)

-- finishGeneration.
unfoldable pub finish_generation : World → ℕ → NotificationRuntime → NotificationRuntime
unfolding admit_carried
finish_generation w generation r =
    if not r.reconciling_generation || not (generation == r.current_generation)
    then r
    else let identifier = λ (notification : ℕ). (w.properties notification).protocol_id in
      let carried = select_buffered w true [] r.buffered_notifications in
      let fresh = select_buffered w false [] r.buffered_notifications in
      let r1 = erase_stale (
        admit_carried w (sort_descending identifier carried)
          (record r { buffered_notifications = [] })) in
      arm_scheduler w (admit_all w fresh (record r1 { reconciling_generation = false }))
