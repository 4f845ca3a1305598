-- ===== src/Audio/Bridge/Events.antt =====
-- src/pipewire-audio/main.cpp: the callbacks of PipeWire, the standard input, and the histories of events.
use nagi_shell.Prelude.{
  ℕ, suc, ◌*◌, Bool, true, false, not, ◌&&◌, ◌||◌, Option, none, some, List, [], ◌∷◌, ◌++◌, ◌==◌,
  ltb, if◌then◌else◌, length, any, map,
}
use nagi_shell.Prelude.Result.{ok, err}
use nagi_shell.Bytes.{Bytes, split_lines, chop_return}
use nagi_shell.Json.{Double}
use nagi_shell.Audio.Protocol.{
  Role, output, input, EasyEffectsInternalRole, none_role, parse_command, maximum_command_bytes,
}
use nagi_shell.Audio.Volume.{Floats, is_level}
use nagi_shell.Audio.Bridge.{
  Request, NodeBinding, no_role, PipeWireBridge, PipeWire, Message, ready, fatal, node_metadata,
  node_removed, role_state,
}
use nagi_shell.Audio.Bridge.Bindings.{
  at_handle, change_binding, post, post_state, ensure_tracked_bindings, remove_binding, points_to,
  is_known,
}
use nagi_shell.Audio.Bridge.Requests.{
  in_flight, find_request, erase_request, begin_readback, complete_request, handle_command,
}

-- The object after its construction; `sequence` is that of the first pw_core_sync.
unfoldable pub initial : ℕ → PipeWireBridge
initial sequence = record {
  helper_ready = false;
  running = true;
  initial_sync_sequence = sequence;
  next_readback_sequence = 1000;
  next_handle = 0;
  command_buffer = [];
  output_state = no_role;
  input_state = no_role;
  known_nodes = [];
  bindings = [];
  sync_requests = [];
  readback_requests = [];
  posts = [];
  writes = [];
}

-- onCoreDone, of the core.
unfoldable pub on_core_done : PipeWire → ℕ → PipeWireBridge → PipeWireBridge
on_core_done w sequence b =
    if sequence == b.initial_sync_sequence
    then ensure_tracked_bindings w (post ready (record b { helper_ready = true }))
    else elim (find_request sequence b.sync_requests) [
      | none ↦ b
      | some r ↦
          begin_readback w r (record b { sync_requests = erase_request sequence b.sync_requests })
    ]

-- onCoreError, of the core with a result below 0.
unfoldable pub on_core_error : PipeWireBridge → PipeWireBridge
unfolding post
on_core_error b = record (post fatal b) { running = false }

-- postNodeMetadata.
abbrev pub metadata_message : ℕ → EasyEffectsInternalRole → Message
metadata_message id none_role = node_removed id
metadata_message id role = node_metadata id role

-- onRegistryGlobal, of a node.
unfoldable pub on_registry_global :
    PipeWire → ℕ → EasyEffectsInternalRole → PipeWireBridge → PipeWireBridge
unfolding post
on_registry_global w id role b =
    let known = if is_known id b then b.known_nodes else id ∷ b.known_nodes in
    ensure_tracked_bindings w (post (metadata_message id role) (record b { known_nodes = known }))

abbrev pub without : ℕ → List ℕ → List ℕ
without id [] = []
without id (k ∷ rest) = if k == id then rest else k ∷ without id rest

-- onRegistryGlobalRemove.
unfoldable pub on_registry_global_remove : ℕ → PipeWireBridge → PipeWireBridge
unfolding post
on_registry_global_remove id b =
    let forgotten = post (node_removed id) (record b { known_nodes = without id b.known_nodes }) in
    remove_binding id (if is_known id b then forgotten else b)

-- onNodeInfo.
unfoldable pub on_node_info : ℕ → PipeWireBridge → PipeWireBridge
on_node_info h b = record b {
  bindings = change_binding h (λ n. record n { subscribed = true }) b.bindings;
}

-- A parameter of the kind SPA_PARAM_Props: its array of floats, and its Boolean, where it has them.
pub record Props : Type 0 where
  pub channel_volumes : Option (List Double)
  pub mute : Option Bool

-- The loop of updateState; one value that is no level voids all.
abbrev pub visual_volumes_of : Floats → List Double → List Double
visual_volumes_of fl values = if any (λ v. not (is_level v)) values then [] else map fl.cbrt values

abbrev pub with_volumes : List Double → NodeBinding → NodeBinding
with_volumes volumes n =
    if length volumes == 0 then n else record n { visual_volumes = volumes; has_volumes = true }

abbrev pub read_volumes : Floats → Option (List Double) → NodeBinding → NodeBinding
read_volumes fl none n = n
read_volumes fl (some values) n =
    if length values == 0 || ltb 64 (length values)
    then n
    else with_volumes (visual_volumes_of fl values) n

abbrev pub read_mute : Option Bool → NodeBinding → NodeBinding
read_mute none n = n
read_mute (some muted) n = record n { muted = muted; has_mute = true }

-- updateState, on the binding.
unfoldable pub update_state : Floats → Props → NodeBinding → NodeBinding
update_state fl p n = read_mute p.mute (read_volumes fl p.channel_volumes n)

-- The only readback of a node, if there is just one.
unfoldable pub candidate : ℕ → List (ℕ × Request) → Option (ℕ × Request)
candidate id [] = none
candidate id ((sequence, r) ∷ rest) =
    let later = candidate id rest in
    if r.node_id == id
    then if any (λ p. p.1.node_id == id) rest then none else some (sequence, r)
    else later

unfoldable pub find_readback : ℕ → ℕ → List (ℕ × Request) → Option (ℕ × Request)
unfolding candidate
find_readback sequence id requests = elim (find_request sequence requests) [
  | none ↦ candidate id requests
  | some r ↦ some (sequence, r)
]

-- publishExternalState.
unfoldable pub publish_external : NodeBinding → Role → PipeWireBridge → PipeWireBridge
unfolding post_state
publish_external n role b =
    let s = role_state role b in
    if not (points_to n.handle s) || in_flight s then b else post_state role n none b

-- onNodeParam, after the state of the binding was updated.
unfoldable pub answer_param : PipeWire → ℕ → NodeBinding → PipeWireBridge → PipeWireBridge
unfolding publish_external find_readback
answer_param w sequence n b = elim (find_readback sequence n.id b.readback_requests) [
  | none ↦ publish_external n input (publish_external n output b)
  | some found ↦
      complete_request w found.1 n
        (record b { readback_requests = erase_request found.0 b.readback_requests })
]

-- onNodeParam; a binding that is gone has no listener.
unfoldable pub on_node_param : PipeWire → ℕ → ℕ → Props → PipeWireBridge → PipeWireBridge
unfolding answer_param
on_node_param w h sequence p b = elim (at_handle h b.bindings) [
  | none ↦ b
  | some n ↦
      let n' = update_state w.floats p n in
      let b' = record b { bindings = change_binding h (update_state w.floats p) b.bindings } in
      if n'.has_volumes && n'.has_mute then answer_param w sequence n' b' else b'
]

-- The lines of the input; a line that is no command is only reported. `w k` answers during line k.
unfoldable pub handle_lines : (ℕ → PipeWire) → List Bytes → PipeWireBridge → PipeWireBridge
handle_lines w [] b = b
handle_lines w (line ∷ rest) b =
    handle_lines (λ k. w (suc k)) rest
      (elim (parse_command (w 0).from_json (chop_return line)) [
        | err e ↦ b
        | ok c ↦ handle_command (w 0) c b
      ])

-- readCommands, of the bytes that were read.
unfoldable pub read_commands : (ℕ → PipeWire) → Bytes → PipeWireBridge → PipeWireBridge
unfolding handle_lines
read_commands w bytes b =
    let buffer = b.command_buffer ++ bytes in
    let s = split_lines (if ltb (maximum_command_bytes * 2) (length buffer) then [] else buffer) in
    handle_lines w s.lines (record b { command_buffer = s.rest })

pub data Event : Type 0 where
  core_error input_closed : Event
  core_done node_info registry_global_remove : ℕ → Event
  registry_global : ℕ → EasyEffectsInternalRole → Event
  node_param : ℕ → ℕ → Props → Event
  bytes_read : Bytes → Event

unfoldable pub step : (ℕ → PipeWire) → Event → PipeWireBridge → PipeWireBridge
step w core_error b = on_core_error b
step w input_closed b = record b { running = false }
step w (core_done sequence) b = on_core_done (w 0) sequence b
step w (node_info h) b = on_node_info h b
step w (registry_global_remove id) b = on_registry_global_remove id b
step w (registry_global id role) b = on_registry_global (w 0) id role b
step w (node_param h sequence p) b = on_node_param (w 0) h sequence p b
step w (bytes_read bytes) b = read_commands w bytes b

-- Each event comes with the answers that PipeWire gives to it.
unfoldable pub run : List ((ℕ → PipeWire) × Event) → PipeWireBridge → PipeWireBridge
run [] b = b
run ((w, e) ∷ rest) b = run rest (step w e b)
