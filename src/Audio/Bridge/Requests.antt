-- ===== src/Audio/Bridge/Requests.antt =====
-- src/pipewire-audio/main.cpp: the commands, and the requests on their way.
use nagi_shell.Prelude.{
  ℕ, suc, Bool, true, false, not, ◌&&◌, ◌||◌, Option, none, some, is_some, List, [], ◌∷◌, ◌==◌,
  if◌then◌else◌, length,
}
use nagi_shell.Audio.Protocol.{
  Operation, track, untrack, set_volume, set_mute, shutdown, Role, Command,
}
use nagi_shell.Audio.Volume.{proportional_cubic_volumes}
use nagi_shell.Audio.Bridge.{
  Request, NodeBinding, RoleState, no_role, PipeWireBridge, PipeWire, failure, unavailable, stale,
  not_ready, invalid_state, sync_failed, readback_failed, backend, role_state, with_state, Write,
  channel_volumes, mute,
}
use nagi_shell.Audio.Bridge.Bindings.{
  at_handle, post, post_state, ensure_tracked_bindings, release_binding_if_unused, is_known,
  is_node, points_to,
}

abbrev pub is_set_volume : Operation → Bool
is_set_volume set_volume = true
is_set_volume _ = false

abbrev pub is_set_mute : Operation → Bool
is_set_mute set_mute = true
is_set_mute _ = false

-- makeRequest.
abbrev pub make_request : Command → Request
make_request c = record {
  operation = c.operation;
  role = c.role;
  node_id = c.node_id;
  generation = c.generation;
  request_id = c.request_id;
  volume = c.volume;
  muted = c.muted;
  final = c.final;
}

-- The node and the generation of the role are those of the request.
abbrev pub is_current : Request → RoleState → Bool
is_current r s = is_node r.node_id s && s.generation == r.generation

abbrev pub in_flight : RoleState → Bool
in_flight s = s.volume_in_flight || s.mute_in_flight

-- clearInFlight.
abbrev pub cleared : Operation → RoleState → RoleState
cleared set_volume s = record s { volume_in_flight = false }
cleared set_mute s = record s { mute_in_flight = false }
cleared _ s = s

unfoldable pub clear_in_flight : Request → PipeWireBridge → PipeWireBridge
clear_in_flight r b =
    if is_current r (role_state r.role b)
    then with_state r.role (cleared r.operation (role_state r.role b)) b
    else b

-- map[key] = value, where a key is there once at most.
unfoldable pub assign : ℕ → Request → List (ℕ × Request) → List (ℕ × Request)
assign key r [] = (key, r) ∷ []
assign key r ((k, q) ∷ rest) = if k == key then (key, r) ∷ rest else (k, q) ∷ assign key r rest

unfoldable pub find_request : ℕ → List (ℕ × Request) → Option Request
find_request key [] = none
find_request key ((k, q) ∷ rest) = if k == key then some q else find_request key rest

unfoldable pub erase_request : ℕ → List (ℕ × Request) → List (ℕ × Request)
erase_request key [] = []
erase_request key ((k, q) ∷ rest) = if k == key then rest else (k, q) ∷ erase_request key rest

-- dispatch, from the call of pw_core_sync on.
unfoldable pub sync_request : PipeWire → Request → PipeWireBridge → PipeWireBridge
unfolding clear_in_flight post assign
sync_request w r b = elim w.sync [
  | none ↦ post (failure r sync_failed) (clear_in_flight r b)
  | some sequence ↦ record b { sync_requests = assign sequence r b.sync_requests }
]

abbrev pub flying : Operation → RoleState → RoleState
flying set_volume s = record s { volume_in_flight = true }
flying _ s = record s { mute_in_flight = true }

abbrev pub written : Write → PipeWireBridge → PipeWireBridge
written write b = record b { writes = write ∷ b.writes }

-- The call of pw_node_set_param.
unfoldable pub send_request : PipeWire → Request → Write → PipeWireBridge → PipeWireBridge
unfolding sync_request post
send_request w r write b = elim w.set_param [
  | none ↦
      sync_request w r
        (written write (with_state r.role (flying r.operation (role_state r.role b)) b))
  | some message ↦ post (failure r (backend message)) (written write b)
]

-- The volumes must be there, and give new ones.
unfoldable pub send_volume : PipeWire → Request → NodeBinding → PipeWireBridge → PipeWireBridge
unfolding send_request post
send_volume w r n b =
    if not n.has_volumes || length n.visual_volumes == 0
    then post (failure r not_ready) b
    else elim (proportional_cubic_volumes w.floats n.visual_volumes r.volume) [
      | none ↦ post (failure r invalid_state) b
      | some cubics ↦ send_request w r (channel_volumes n.id cubics) b
    ]

-- The object of a pointer that may be null.
abbrev pub pointed : Option ℕ → List NodeBinding → Option NodeBinding
pointed none bs = none
pointed (some h) bs = at_handle h bs

abbrev pub target_of : RoleState → PipeWireBridge → Option NodeBinding
target_of s b = pointed s.binding b.bindings

-- dispatch.
unfoldable pub dispatch : PipeWire → Request → PipeWireBridge → PipeWireBridge
unfolding send_volume send_request post
dispatch w r b = elim (target_of (role_state r.role b) b) [
  | none ↦ post (failure r stale) b
  | some n ↦
      if not (n.id == r.node_id)
      then post (failure r stale) b
      else if is_set_volume r.operation
      then send_volume w r n b
      else send_request w r (mute n.id r.muted) b
]

abbrev pub queue : Request → RoleState → RoleState
queue r s =
    if is_set_volume r.operation
    then record s { queued_volume = some r }
    else record s { queued_mute = some r }

-- request.
unfoldable pub request : PipeWire → Command → PipeWireBridge → PipeWireBridge
unfolding dispatch post
request w c b =
    let r = make_request c in
    let s = role_state c.role b in
    if not (is_current r s) || not (is_some s.binding)
    then post (failure r stale) b
    else if in_flight s
    then with_state c.role (queue r s) b
    else dispatch w r b

-- dispatchQueued.
unfoldable pub dispatch_queued : PipeWire → Role → PipeWireBridge → PipeWireBridge
unfolding dispatch
dispatch_queued w role b =
    let s = role_state role b in
    if in_flight s then b else elim s.queued_mute [
      | some r ↦ dispatch w r (with_state role (record s { queued_mute = none }) b)
      | none ↦ elim s.queued_volume [
        | some r ↦ dispatch w r (with_state role (record s { queued_volume = none }) b)
        | none ↦ b
      ]
    ]

-- beginReadback.
unfoldable pub begin_readback : PipeWire → Request → PipeWireBridge → PipeWireBridge
unfolding clear_in_flight post assign erase_request
begin_readback w r b =
    let s = role_state r.role b in
    let sequence = suc b.next_readback_sequence in
    let b' = record b { next_readback_sequence = sequence } in
    if not (is_current r s) || not (is_some s.binding)
    then clear_in_flight r b
    else if w.enum_params
    then record b' { readback_requests = assign sequence r b.readback_requests }
    else post (failure r readback_failed) (
        clear_in_flight r (record b' {
          readback_requests = erase_request sequence (assign sequence r b.readback_requests);
        }))

-- completeRequest, for the binding that a param came from.
unfoldable pub complete_request : PipeWire → Request → NodeBinding → PipeWireBridge → PipeWireBridge
unfolding clear_in_flight dispatch_queued post_state
complete_request w r n b =
    let s = role_state r.role b in
    if not (is_current r s) || not (points_to n.handle s)
    then b
    else dispatch_queued w r.role (clear_in_flight r (post_state r.role n (some r) b))

-- track.
unfoldable pub track_node : PipeWire → Command → PipeWireBridge → PipeWireBridge
unfolding ensure_tracked_bindings release_binding_if_unused post
track_node w c b =
    let old = (role_state c.role b).node_id in
    let replacement = record no_role { node_id = some c.node_id; generation = c.generation } in
    let b1 = release_binding_if_unused old (with_state c.role replacement b) in
    let b2 = ensure_tracked_bindings w b1 in
    if not (is_some (role_state c.role b2).binding)
      && b2.helper_ready
      && not (is_known c.node_id b2)
    then post (unavailable c.role c.generation) b2
    else b2

-- untrack.
unfoldable pub untrack_node : Command → PipeWireBridge → PipeWireBridge
unfolding release_binding_if_unused
untrack_node c b =
    let s = role_state c.role b in
    if s.generation == c.generation
    then release_binding_if_unused s.node_id (with_state c.role no_role b)
    else b

-- handleCommand.
unfoldable pub handle_command : PipeWire → Command → PipeWireBridge → PipeWireBridge
unfolding track_node untrack_node request
handle_command w c b = elim c.operation [
  | shutdown ↦ record b { running = false }
  | track ↦ track_node w c b
  | untrack ↦ untrack_node c b
  | set_volume ↦ request w c b
  | set_mute ↦ request w c b
]
