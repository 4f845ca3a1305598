-- ===== src/Notifications/Normalize.antt =====
-- src/notifications/runtime.cpp: what is read of a notification object, and its expiry delay.
use nagi_shell.Prelude.{
  ℕ, zero, suc, Bool, true, false, not, ◌&&◌, Option, none, some, if◌then◌else◌,
}
use nagi_shell.Prelude.Int.{ℤ, pos, negsuc}
use nagi_shell.Notifications.Text.{
  normalize_plain_text, normalize_body, normalize_desktop_entry, normalize_icon_name,
}
use nagi_shell.Notifications.Types.{World, NormalizedNotification, Urgency, low, normal, critical}

-- normalizeUrgency; `none` is a value that is no integer.
unfoldable pub normalize_urgency : Option ℤ → Urgency
normalize_urgency (some (pos zero)) = low
normalize_urgency (some (pos (suc (suc zero)))) = critical
normalize_urgency _ = normal

unfoldable pub normalize : World → ℕ → NormalizedNotification
normalize w notification =
    let p = w.properties notification in
    record {
      protocol_id = p.protocol_id;
      app_name = normalize_plain_text p.app_name 256 false;
      summary = normalize_plain_text p.summary 1024 false;
      body = normalize_body w.read_xml p.body;
      urgency = normalize_urgency p.urgency;
      desktop_entry = normalize_desktop_entry p.desktop_entry;
      app_icon_name = normalize_icon_name p.app_icon;
      resident = p.resident;
      transient = p.transient;
      expire_timeout_ms = p.expire_timeout;
    }

abbrev pub is_critical : Urgency → Bool
is_critical critical = true
is_critical _ = false

abbrev pub default_delay : Urgency → ℕ
default_delay low = 5000
default_delay _ = 10000

abbrev pub timeout_delay : ℤ → Urgency → Option ℕ
timeout_delay (pos zero) urgency = none
timeout_delay (pos (suc t)) urgency = some (suc t)
timeout_delay (negsuc t) urgency = some (default_delay urgency)

-- expiryDelay; -1 is `none`.
unfoldable pub expiry_delay : NormalizedNotification → Option ℕ
expiry_delay n = if is_critical n.urgency then none else timeout_delay n.expire_timeout_ms n.urgency

abbrev pub below_minus_one : ℤ → Bool
below_minus_one (negsuc (suc t)) = true
below_minus_one _ = false

-- Whether expiryDelay comes to the report of an invalid timeout.
unfoldable pub invalid_timeout : NormalizedNotification → Bool
invalid_timeout n = not (is_critical n.urgency) && below_minus_one n.expire_timeout_ms
