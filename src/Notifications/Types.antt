-- ===== src/Notifications/Types.antt =====
-- src/notifications/runtime.h: the records of the runtime, and what it asks of the world outside. A
-- notification object is named by a number; the object, its property values and its methods are not
-- part of the program, so `World` holds what they answer during one event.
use nagi_shell.Prelude.Int.{ℤ}
use nagi_shell.Prelude.{ℕ, Bool, Option, List}
use nagi_shell.Prelude.Int.{ℤ}
use nagi_shell.Notifications.Text.{QString, XmlRun}

pub data Urgency : Type 0 where
  low normal critical : Urgency

pub record NotificationSnapshot : Type 0 where
  pub first_admission_sequence : ℕ
  pub first_admitted_monotonic_ms : ℕ
  pub history_cutoff_monotonic_ms : ℕ
  pub live : Bool
  pub app_name : QString
  pub summary : QString
  pub body : QString
  pub urgency : Urgency
  pub desktop_entry : QString
  pub app_icon_name : QString
  pub resident : Bool

pub record NormalizedNotification : Type 0 where
  pub protocol_id : ℕ
  pub app_name : QString
  pub summary : QString
  pub body : QString
  pub urgency : Urgency
  pub desktop_entry : QString
  pub app_icon_name : QString
  pub resident : Bool
  pub transient : Bool
  pub expire_timeout_ms : ℤ

-- An entry of the hash `liveAssociations`, with its key. A deadline of -1 is `none`.
pub record LiveAssociation : Type 0 where
  pub protocol_id : ℕ
  pub live_admission_sequence : ℕ
  pub notification : ℕ
  pub record_key : Option ℕ
  pub urgency : Urgency
  pub transient : Bool
  pub expiry_deadline_monotonic_ms : Option ℕ
  pub update_queued : Bool
  pub seen_in_generation : Bool
  pub transient_source_token : QString
  pub transient_app_name : QString
  pub transient_summary : QString
  pub transient_body : QString
  pub transient_app_icon_name : QString
  pub transient_source_generation : ℕ
  pub transient_revision : ℕ
  pub transient_presentation_valid : Bool

pub record BufferedNotification : Type 0 where
  pub notification : ℕ
  pub carried : Bool

-- What QObject::property returns for a notification. An urgency that is no integer is `none`.
pub record Properties : Type 0 where
  pub protocol_id : ℕ
  pub app_name : QString
  pub summary : QString
  pub body : QString
  pub urgency : Option ℤ
  pub desktop_entry : QString
  pub app_icon : QString
  pub resident : Bool
  pub transient : Bool
  pub expire_timeout : ℤ
  pub last_generation : Bool

-- The outcome of QMetaObject::invokeMethod on a notification: it fails, or the object takes the call
-- silently, or it closes and the shell calls closeNotification with a reason before the call returns.
pub data Reaction : Type 0 where
  not_invoked ignored : Reaction
  closes : ℤ → Reaction

-- What the runtime reads of the world during one event. `alive` is whether a QPointer is not null.
pub record World : Type 0 where
  pub now : ℕ
  pub properties : ℕ → Properties
  pub alive : ℕ → Bool
  pub expire : ℕ → Reaction
  pub dismiss : ℕ → Reaction
  pub read_xml : QString → XmlRun
  pub number_text : ℕ → QString

pub data Signal : Type 0 where
  live_count_changed history_count_changed server_ownership_changed active_timer_count_changed :
      Signal
  transient_requested : QString → ℕ → ℕ → Option Urgency → Signal
  transient_invalidated : QString → ℕ → Signal

-- The object's fields. `timer` is the interval of `deadlineTimer`, if it is active; `queued` holds the
-- calls that queueReplacement has posted to the event loop, oldest first; `signals` holds what was
-- emitted, newest first. The hash is a list with the newest entry first.
pub record NotificationRuntime : Type 0 where
  pub live_associations : List LiveAssociation
  pub history_snapshots : List NotificationSnapshot
  pub buffered_notifications : List BufferedNotification
  pub next_history_sequence : ℕ
  pub next_live_sequence : ℕ
  pub current_generation : ℕ
  pub history_sequence_exhausted : Bool
  pub live_sequence_exhausted : Bool
  pub invalid_timeout_reported : Bool
  pub history_exhaustion_reported : Bool
  pub live_exhaustion_reported : Bool
  pub reconciling_generation : Bool
  pub latest_transient_urgency : Option Urgency
  pub owns_notification_server : Bool
  pub ownership_monitoring_enabled : Bool
  pub timer : Option ℕ
  pub queued : List (ℕ × ℕ)
  pub signals : List Signal
