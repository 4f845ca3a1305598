-- ===== src/Notifications/Live.antt =====
-- src/notifications/runtime.cpp: the hash `liveAssociations`, and what the code does to one entry.
pub mod Entries
pub mod Invariant
pub mod Victims
use nagi_shell.Prelude.{
  ℕ, zero, suc, ◌+◌, ◌-◌, ◌^◌, Bool, true, false, not, ◌&&◌, ◌||◌, Option, none, some, is_some,
  List, [], ◌∷◌, ◌==◌, ltb, leb, if◌then◌else◌, map,
}
use nagi_shell.Notifications.Types.{
  LiveAssociation, NotificationSnapshot, NormalizedNotification, Urgency, low, normal, critical,
  World, Signal, transient_invalidated,
}
use nagi_shell.Notifications.History.{snapshot_index}

abbrev pub max_live : ℕ
max_live = 50

abbrev pub is_at : ℕ → LiveAssociation → Bool
is_at id association = association.protocol_id == id

-- liveAssociations.find.
unfoldable pub find : ℕ → List LiveAssociation → Option LiveAssociation
find id [] = none
find id (a ∷ rest) = if is_at id a then some a else find id rest

unfoldable pub erase : ℕ → List LiveAssociation → List LiveAssociation
erase id [] = []
erase id (a ∷ rest) = if is_at id a then rest else a ∷ erase id rest

-- A write through the iterator of an entry.
unfoldable pub modify :
    ℕ → (LiveAssociation → LiveAssociation) → List LiveAssociation → List LiveAssociation
modify id f [] = []
modify id f (a ∷ rest) = if is_at id a then f a ∷ rest else a ∷ modify id f rest

abbrev pub is_linked : ℕ → LiveAssociation → Bool
is_linked key a = elim a.record_key [ none ↦ false | some k ↦ k == key ]

abbrev pub unlink : LiveAssociation → LiveAssociation
unlink a = record a { record_key = none }

abbrev pub unlink_key : ℕ → LiveAssociation → LiveAssociation
unlink_key key a = record a { record_key = if is_linked key a then none else a.record_key }

-- clearRecordLink.
unfoldable pub clear_record_link : ℕ → List LiveAssociation → List LiveAssociation
clear_record_link key = map (unlink_key key)

-- `association->notification == notification`, for a QPointer and a live object.
abbrev pub refers_to : World → LiveAssociation → ℕ → Bool
refers_to w a notification = w.alive a.notification && a.notification == notification

-- invalidatePresentation: the entry that is left, and the signal.
unfoldable pub invalidated : LiveAssociation → LiveAssociation
invalidated a = record a {
  transient_presentation_valid = false;
  transient_app_name = if a.transient_presentation_valid then [] else a.transient_app_name;
  transient_summary = if a.transient_presentation_valid then [] else a.transient_summary;
}

abbrev pub signal_invalidated : LiveAssociation → List Signal → List Signal
signal_invalidated a signals =
    if a.transient_presentation_valid
    then transient_invalidated a.transient_source_token a.transient_source_generation ∷ signals
    else signals

-- The tail of capacityClass and of provisionalCapacityClass.
abbrev pub urgency_class : Urgency → ℕ
urgency_class low = 1
urgency_class critical = 3
urgency_class normal = 2

abbrev pub has_no_snapshot : Option ℕ → List NotificationSnapshot → Bool
has_no_snapshot none history = true
has_no_snapshot (some key) history = not (is_some (snapshot_index key history))

-- capacityClass.
unfoldable pub capacity_class : List NotificationSnapshot → LiveAssociation → ℕ
capacity_class history a =
    if a.transient || has_no_snapshot a.record_key history then 0 else urgency_class a.urgency

-- provisionalCapacityClass.
unfoldable pub provisional_capacity_class :
    List NotificationSnapshot → NormalizedNotification → Option ℕ → ℕ
provisional_capacity_class history n record_key =
    if n.transient || has_no_snapshot record_key history then 0 else urgency_class n.urgency

-- The variables of the loop that looks for a victim.
pub record Victim : Type 0 where
  pub provisional : Bool
  pub id : ℕ
  pub capacity : ℕ
  pub sequence : ℕ

unfoldable pub victim_step : List NotificationSnapshot → Victim → LiveAssociation → Victim
victim_step history v a =
    let candidate = capacity_class history a in
    if ltb candidate v.capacity
      || candidate == v.capacity && ltb a.live_admission_sequence v.sequence
    then record {
      provisional = false;
      id = a.protocol_id;
      capacity = candidate;
      sequence = a.live_admission_sequence;
    }
    else v

unfoldable pub select_victim : List NotificationSnapshot → Victim → List LiveAssociation → Victim
select_victim history v [] = v
select_victim history v (a ∷ rest) = select_victim history (victim_step history v a) rest
