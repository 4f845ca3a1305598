-- ===== src/Kwin/Observer/Events.antt =====
-- src/kwin-virtual-desktops/main.cpp: the owner of KWin's name, the callback of the script, and the
-- histories of events.
use nagi_shell.Prelude.{
  ℕ, Bool, true, false, not, ◌&&◌, ◌||◌, Option, none, some, List, [], ◌∷◌, ◌++◌, list_eq,
  if◌then◌else◌,
}
use nagi_shell.Prelude.Int.{ℤ, pos}
use nagi_shell.Prelude.Result.{ok, err}
use nagi_shell.Notifications.Text.{QString, literal}
use nagi_shell.Bytes.{Bytes}
use nagi_shell.Kwin.Snapshot.{canonicalize_script_snapshot}
use nagi_shell.Kwin.Observer.{
  Session, WorkspaceConsensusObserver, load_script, run_script, is_empty, render_script,
  retire_generation, detach_owner, shutdown, fail, publish_snapshot, unavailable,
}
use nagi_shell.Kwin.Observer.Commands.{read_bytes}

-- The object after its construction; `epoch` is the result of randomToken.
unfoldable pub initial : QString → WorkspaceConsensusObserver
initial epoch = record {
  helper_epoch = epoch;
  helper_destination = [];
  active_owner = [];
  active_generation = [];
  plugin_name = [];
  temporary_script = none;
  script_id = none;
  callback_registered = false;
  script_running = false;
  received_first_snapshot = false;
  discarding_command = false;
  shutting_down = false;
  timer_active = false;
  last_snapshot = [];
  command_buffer = [];
  calls = [];
  output = [];
  exits = [];
}

-- Publish; `sender` is the caller's name, where the call comes from D-Bus.
abbrev pub is_sender : Option QString → QString → Bool
is_sender none owner = false
is_sender (some name) owner = list_eq name owner

abbrev pub is_authenticated : Option QString → QString → WorkspaceConsensusObserver → Bool
is_authenticated sender generation s =
    not s.shutting_down
    && not (is_empty s.active_owner)
    && not (is_empty s.active_generation)
    && s.script_running
    && is_sender sender s.active_owner
    && list_eq generation s.active_generation

unfoldable pub publish :
    Session
    → Option QString
    → QString
    → QString
    → WorkspaceConsensusObserver
    → WorkspaceConsensusObserver
unfolding publish_snapshot
publish w sender generation payload s =
    if not (is_authenticated sender generation s)
    then s
    else elim (canonicalize_script_snapshot w.codec payload s.helper_epoch) [
      | err e ↦ s
      | ok snapshot ↦
          publish_snapshot w snapshot
            (record s { timer_active = false; received_first_snapshot = true })
    ]

-- attachOwner, once the script is loaded as `id`.
unfoldable pub run_loaded : Session → ℕ → WorkspaceConsensusObserver → WorkspaceConsensusObserver
unfolding retire_generation
run_loaded w id s =
    let s' = record s {
      script_id = some id;
      script_running = true;
      calls = run_script s.active_owner id ∷ s.calls;
    } in
    if w.runs then record s' { timer_active = true } else retire_generation w true s'

-- The script id of a reply, unless it is none or negative.
abbrev pub script_id_of : Option ℤ → Option ℕ
script_id_of (some (pos id)) = some id
script_id_of _ = none

-- attachOwner, once the script is written.
unfoldable pub load_rendered :
    Session → Bytes → WorkspaceConsensusObserver → WorkspaceConsensusObserver
unfolding run_loaded retire_generation
load_rendered w script s =
    let s' = record s {
      temporary_script = some script;
      calls = load_script s.active_owner s.plugin_name ∷ s.calls;
    } in
    elim (script_id_of w.loads) [
      | none ↦ retire_generation w true (record s' { script_id = none })
      | some id ↦ run_loaded w id s'
    ]

abbrev pub plugin_prefix : QString
plugin_prefix = literal "nagi-workspace-consensus-"

-- attachOwner, with a generation of its own.
unfoldable pub begin_generation : Session → WorkspaceConsensusObserver → WorkspaceConsensusObserver
unfolding render_script load_rendered retire_generation
begin_generation w s =
    let s' = record s {
      active_generation = w.token;
      plugin_name = plugin_prefix ++ w.token;
      received_first_snapshot = false;
    } in
    elim (render_script w s') [
      | none ↦ retire_generation w false s'
      | some script ↦ load_rendered w script s'
    ]

-- attachOwner.
unfoldable pub attach_owner :
    Session → QString → WorkspaceConsensusObserver → WorkspaceConsensusObserver
unfolding begin_generation detach_owner publish_snapshot
attach_owner w owner s =
    if s.shutting_down || is_empty owner || list_eq owner s.active_owner
    then s
    else let s1 = if is_empty s.active_owner then s else detach_owner w true s in
      let s2 = record s1 { active_owner = owner } in
      begin_generation w (publish_snapshot w (unavailable w s2) s2)

-- onServiceOwnerChanged.
unfoldable pub on_service_owner_changed :
    Session → QString → WorkspaceConsensusObserver → WorkspaceConsensusObserver
unfolding attach_owner detach_owner publish_snapshot
on_service_owner_changed w owner s =
    if s.shutting_down || list_eq owner s.active_owner
    then s
    else let s1 = detach_owner w true s in
      let s2 = publish_snapshot w (unavailable w s1) s1 in
      if is_empty owner then s2 else attach_owner w owner s2

-- initialize, once the bus is there and has registered the callback.
unfoldable pub announce : Session → WorkspaceConsensusObserver → WorkspaceConsensusObserver
unfolding attach_owner fail
announce w s =
    if not w.prints_ready
    then fail w s
    else if is_empty w.service_owner
    then s
    else attach_owner w w.service_owner s

unfoldable pub register : Session → WorkspaceConsensusObserver → WorkspaceConsensusObserver
unfolding announce fail
register w s =
    let s' = record s { helper_destination = w.base_service } in
    if not w.connected
    then fail w s
    else if is_empty w.base_service || not w.registers
    then fail w s'
    else announce w (record s' { callback_registered = true })

-- initialize.
unfoldable pub initialize : Session → WorkspaceConsensusObserver → WorkspaceConsensusObserver
unfolding register publish_snapshot
initialize w s =
    let s' = publish_snapshot w (unavailable w s) s in
    if s.shutting_down then s else if s'.shutting_down then s' else register w s'

-- onSnapshotTimeout; the timer fires once.
unfoldable pub on_snapshot_timeout :
    Session → WorkspaceConsensusObserver → WorkspaceConsensusObserver
unfolding retire_generation publish_snapshot
on_snapshot_timeout w s =
    let s1 = record s { timer_active = false } in
    let s2 = retire_generation w true s1 in
    if s.shutting_down || is_empty s.active_generation || s.received_first_snapshot
    then s1
    else publish_snapshot w (unavailable w s2) s2

-- The input ends, or cannot be read, while the loop of readCommands runs.
unfoldable pub input_fails : Session → WorkspaceConsensusObserver → WorkspaceConsensusObserver
unfolding fail
input_fails w s = if s.shutting_down then s else fail w s

pub data Event : Type 0 where
  initialized timed_out input_ended input_failed destroyed : Event
  owner_changed : QString → Event
  published : Option QString → QString → QString → Event
  input_read : Bytes → Event

unfoldable pub step : Session → Event → WorkspaceConsensusObserver → WorkspaceConsensusObserver
step w initialized s = initialize w s
step w timed_out s = if s.timer_active then on_snapshot_timeout w s else s
step w input_ended s = shutdown w true s
step w input_failed s = input_fails w s
step w destroyed s = shutdown w false s
step w (owner_changed owner) s = on_service_owner_changed w owner s
step w (published sender generation payload) s = publish w sender generation payload s
step w (input_read bytes) s = read_bytes w bytes s

-- Each event comes with the answers that it gets.
unfoldable pub run :
    List (Session × Event) → WorkspaceConsensusObserver → WorkspaceConsensusObserver
run [] s = s
run ((w, e) ∷ rest) s = run rest (step w e s)
