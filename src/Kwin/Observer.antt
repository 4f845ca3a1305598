-- ===== src/Kwin/Observer.antt =====
-- src/kwin-virtual-desktops/main.cpp: the state of WorkspaceConsensusObserver, and the script that it
-- loads into KWin. What D-Bus, the file system and the standard streams answer during one event is a
-- parameter. The log lines of `diagnose` are left out.
pub mod Commands
pub mod Events
pub mod Validity
pub mod Framing
pub mod Scripts
mod Tests
use nagi_shell.Prelude.{
  ℕ, zero, suc, ◌+◌, Bool, true, false, not, ◌&&◌, ◌||◌, Option, none, some, is_some, List, [], ◌∷◌,
  ◌++◌, ◌==◌, if◌then◌else◌, length,
}
use nagi_shell.Prelude.Int.{ℤ, pos, negsuc}
use nagi_shell.Notifications.Text.{QString, literal}
use nagi_shell.Bytes.{Bytes}
use nagi_shell.Kwin.Snapshot.{Codec, unavailable_snapshot_json, should_publish}

-- The calls of KWin, with the owner of the name that they go to.
pub data Call : Type 0 where
  load_script unload_script : QString → QString → Call
  run_script stop_script : QString → ℕ → Call

-- The replies: of loadScript a number if it is an integer, of the others whether they succeed. `token` is
-- the result of randomToken, and an empty name is no owner.
pub record Session : Type 0 where
  pub codec : Codec
  pub token : QString
  pub template : Option Bytes
  pub json_literal : QString → Bytes
  pub writes_script : Bytes → Bool
  pub loads : Option ℤ
  pub runs : Bool
  pub callable : QString → Bool
  pub connected : Bool
  pub base_service : QString
  pub registers : Bool
  pub prints : Bool
  pub prints_ready : Bool
  pub service_owner : QString

-- `none` is the script id -1. `calls`, `output` and `exits` hold what was called, printed and returned,
-- newest first.
pub record WorkspaceConsensusObserver : Type 0 where
  pub helper_epoch : QString
  pub helper_destination : QString
  pub active_owner : QString
  pub active_generation : QString
  pub plugin_name : QString
  pub temporary_script : Option Bytes
  pub script_id : Option ℕ
  pub callback_registered : Bool
  pub script_running : Bool
  pub received_first_snapshot : Bool
  pub discarding_command : Bool
  pub shutting_down : Bool
  pub timer_active : Bool
  pub last_snapshot : Bytes
  pub command_buffer : Bytes
  pub calls : List Call
  pub output : List Bytes
  pub exits : List ℕ

abbrev pub is_empty {ℓ} : {A : Type ℓ} → List A → Bool
is_empty [] = true
is_empty (x ∷ xs) = false

-- QByteArray::count and replace, of a text that is there once at most.
abbrev pub strip_prefix : Bytes → Bytes → Option Bytes
strip_prefix [] text = some text
strip_prefix (p ∷ ps) [] = none
strip_prefix (p ∷ ps) (c ∷ text) = let rest = strip_prefix ps text in if p == c then rest else none

unfoldable pub count : Bytes → Bytes → ℕ
count token [] = 0
count token (c ∷ text) =
    let later = count token text in
    if is_some (strip_prefix token (c ∷ text)) then suc later else later

unfoldable pub replace : Bytes → Bytes → Bytes → Bytes
replace token value [] = []
replace token value (c ∷ text) =
    let later = replace token value text in
    elim (strip_prefix token (c ∷ text)) [ some rest ↦ value ++ rest | none ↦ c ∷ later ]

abbrev pub destination_placeholder : Bytes
destination_placeholder = literal "@NAGI_HELPER_DESTINATION@"

abbrev pub generation_placeholder : Bytes
generation_placeholder = literal "@NAGI_SCRIPT_GENERATION@"

-- renderScript, of a template that was read.
unfoldable pub render_template : Session → Bytes → WorkspaceConsensusObserver → Option Bytes
unfolding count replace
render_template w text s =
    if not (count destination_placeholder text == 1) || not (count generation_placeholder text == 1)
    then none
    else let rendered =
        replace generation_placeholder (w.json_literal s.active_generation)
          (replace destination_placeholder (w.json_literal s.helper_destination) text) in
      if w.writes_script rendered then some rendered else none

-- renderScript: the temporary file, where there is one.
unfoldable pub render_script : Session → WorkspaceConsensusObserver → Option Bytes
unfolding render_template
render_script w s = elim w.template [ none ↦ none | some text ↦ render_template w text s ]

-- The calls of retireGeneration.
abbrev pub stop_calls : QString → Option ℕ → List Call → List Call
stop_calls owner none calls = calls
stop_calls owner (some id) calls = stop_script owner id ∷ calls

abbrev pub cleanup_calls : WorkspaceConsensusObserver → List Call
cleanup_calls s =
    let stopped = stop_calls s.active_owner s.script_id s.calls in
    if is_empty s.plugin_name then stopped else unload_script s.active_owner s.plugin_name ∷ stopped

-- serviceIsCallable.
abbrev pub service_is_callable : Session → QString → Bool
service_is_callable w service = not (is_empty service) && w.callable service

-- retireGeneration.
unfoldable pub retire_generation :
    Session → Bool → WorkspaceConsensusObserver → WorkspaceConsensusObserver
retire_generation w attempt_cleanup s = record s {
  timer_active = false;
  active_generation = [];
  received_first_snapshot = false;
  plugin_name = [];
  script_id = none;
  script_running = false;
  temporary_script = none;
  calls =
      if attempt_cleanup && service_is_callable w s.active_owner then cleanup_calls s else s.calls;
}

-- detachOwner.
unfoldable pub detach_owner :
    Session → Bool → WorkspaceConsensusObserver → WorkspaceConsensusObserver
unfolding retire_generation
detach_owner w attempt_cleanup s = record (retire_generation w attempt_cleanup s) {
  active_owner = [];
}

-- shutdown.
unfoldable pub shutdown : Session → Bool → WorkspaceConsensusObserver → WorkspaceConsensusObserver
unfolding detach_owner
shutdown w quit_application s =
    if s.shutting_down
    then s
    else let s' = detach_owner w true (record s { shutting_down = true }) in
      record s' {
        callback_registered = false;
        exits = if quit_application then 0 ∷ s'.exits else s'.exits;
      }

-- failInitialization, and the other ends with the code 2.
unfoldable pub fail : Session → WorkspaceConsensusObserver → WorkspaceConsensusObserver
unfolding shutdown
fail w s = let s' = shutdown w false s in record s' { exits = 2 ∷ s'.exits }

-- publishSnapshot.
unfoldable pub publish_snapshot :
    Session → Bytes → WorkspaceConsensusObserver → WorkspaceConsensusObserver
unfolding fail
publish_snapshot w snapshot s =
    let p = should_publish s.last_snapshot snapshot in
    let s' = record s { last_snapshot = p.1 } in
    if not p.0
    then s
    else if w.prints
    then record s' { output = snapshot ∷ s'.output }
    else fail w s'

abbrev pub unavailable : Session → WorkspaceConsensusObserver → Bytes
unavailable w s = unavailable_snapshot_json w.codec s.helper_epoch
