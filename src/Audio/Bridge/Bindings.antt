-- ===== src/Audio/Bridge/Bindings.antt =====
-- src/pipewire-audio/main.cpp: the bindings of nodes, and which role points to which.
pub mod Entries
use nagi_shell.Prelude.{
  ℕ, zero, suc, ◌+◌, Bool, true, false, not, ◌&&◌, ◌||◌, Option, none, some, is_some, List, [], ◌∷◌,
  ◌==◌, if◌then◌else◌, any, length,
}
use nagi_shell.Audio.Protocol.{Role, output, input}
use nagi_shell.Audio.Bridge.{
  Request, NodeBinding, RoleState, PipeWireBridge, PipeWire, Message, unavailable, state,
  role_state, with_state,
}

-- bindings.find, and the object that a pointer refers to.
unfoldable pub find_binding : ℕ → List NodeBinding → Option NodeBinding
find_binding id [] = none
find_binding id (n ∷ rest) = if n.id == id then some n else find_binding id rest

unfoldable pub at_handle : ℕ → List NodeBinding → Option NodeBinding
at_handle h [] = none
at_handle h (n ∷ rest) = if n.handle == h then some n else at_handle h rest

unfoldable pub erase_binding : ℕ → List NodeBinding → List NodeBinding
erase_binding id [] = []
erase_binding id (n ∷ rest) = if n.id == id then rest else n ∷ erase_binding id rest

-- A write through the pointer.
unfoldable pub change_binding :
    ℕ → (NodeBinding → NodeBinding) → List NodeBinding → List NodeBinding
change_binding h f [] = []
change_binding h f (n ∷ rest) = if n.handle == h then f n ∷ rest else n ∷ change_binding h f rest

unfoldable pub post : Message → PipeWireBridge → PipeWireBridge
post m b = record b { posts = m ∷ b.posts }

-- postState of a role.
unfoldable pub post_state : Role → NodeBinding → Option Request → PipeWireBridge → PipeWireBridge
unfolding post
post_state role n request b =
    if not n.has_volumes || not n.has_mute || length n.visual_volumes == 0
    then b
    else post (state role n.id (role_state role b).generation request n.visual_volumes n.muted) b

-- ensureBinding: the pointer, which may be null.
abbrev pub new_binding : ℕ → ℕ → NodeBinding
new_binding handle id = record {
  handle = handle;
  id = id;
  subscribed = false;
  has_volumes = false;
  has_mute = false;
  visual_volumes = [];
  muted = false;
}

abbrev pub is_known : ℕ → PipeWireBridge → Bool
is_known id b = any (λ k. k == id) b.known_nodes

unfoldable pub bind_node :
    PipeWire → Role → ℕ → PipeWireBridge → Option NodeBinding × PipeWireBridge
bind_node w role id b =
    let fresh = new_binding b.next_handle id in
    if is_known id b && w.bind role id
    then (some fresh, record b { bindings = fresh ∷ b.bindings; next_handle = suc b.next_handle })
    else (none, b)

unfoldable pub ensure_binding :
    PipeWire → Role → ℕ → PipeWireBridge → Option NodeBinding × PipeWireBridge
unfolding bind_node
ensure_binding w role id b = elim (find_binding id b.bindings) [
  | none ↦ bind_node w role id b
  | some n ↦ (some n, b)
]

-- One round of ensureTrackedBindings, for a role whose node is known and that has no binding.
abbrev pub pointing : NodeBinding → RoleState → RoleState
pointing n s = record s { binding = some n.handle }

unfoldable pub attach_role : PipeWire → Role → ℕ → PipeWireBridge → PipeWireBridge
unfolding ensure_binding post_state
attach_role w role id b =
    let (found, b') = ensure_binding w role id b in
    elim found [
      | none ↦ b'
      | some n ↦ post_state role n none (with_state role (pointing n (role_state role b')) b')
    ]

unfoldable pub ensure_role : PipeWire → Role → PipeWireBridge → PipeWireBridge
unfolding attach_role
ensure_role w role b = elim (role_state role b).node_id [
  | none ↦ b
  | some id ↦
      if is_some (role_state role b).binding || not (is_known id b)
      then b
      else attach_role w role id b
]

-- ensureTrackedBindings.
unfoldable pub ensure_tracked_bindings : PipeWire → PipeWireBridge → PipeWireBridge
unfolding ensure_role
ensure_tracked_bindings w b =
    if b.helper_ready then ensure_role w input (ensure_role w output b) else b

-- removeBinding, for each role that points to the binding.
abbrev pub points_to : ℕ → RoleState → Bool
points_to h s = elim s.binding [ none ↦ false | some k ↦ k == h ]

abbrev pub detached : RoleState → RoleState
detached s = record s {
  binding = none;
  volume_in_flight = false;
  mute_in_flight = false;
  queued_volume = none;
  queued_mute = none;
}

unfoldable pub detach_role : ℕ → Role → PipeWireBridge → PipeWireBridge
unfolding post
detach_role h role b =
    let s = role_state role b in
    if points_to h s
    then post (unavailable role s.generation) (with_state role (detached s) b)
    else b

-- eraseRequestsForNode on one of the maps.
unfoldable pub without_node : ℕ → List (ℕ × Request) → List (ℕ × Request)
without_node id [] = []
without_node id ((sequence, r) ∷ rest) =
    if r.node_id == id then without_node id rest else (sequence, r) ∷ without_node id rest

unfoldable pub erase_requests_for_node : ℕ → PipeWireBridge → PipeWireBridge
unfolding without_node
erase_requests_for_node id b = record b {
  sync_requests = without_node id b.sync_requests;
  readback_requests = without_node id b.readback_requests;
}

-- removeBinding.
unfoldable pub remove_found : ℕ → NodeBinding → PipeWireBridge → PipeWireBridge
unfolding detach_role erase_requests_for_node
remove_found id n b =
    let b' =
      erase_requests_for_node id (detach_role n.handle input (detach_role n.handle output b)) in
    record b' { bindings = erase_binding id b'.bindings }

unfoldable pub remove_binding : ℕ → PipeWireBridge → PipeWireBridge
unfolding remove_found
remove_binding id b = elim (find_binding id b.bindings) [ none ↦ b | some n ↦ remove_found id n b ]

-- bindingUsed.
abbrev pub is_node : ℕ → RoleState → Bool
is_node id s = elim s.node_id [ none ↦ false | some k ↦ k == id ]

abbrev pub binding_used : ℕ → PipeWireBridge → Bool
binding_used id b = is_node id b.output_state || is_node id b.input_state

-- releaseBindingIfUnused; `none` is InvalidNode.
unfoldable pub release_binding_if_unused : Option ℕ → PipeWireBridge → PipeWireBridge
unfolding remove_binding
release_binding_if_unused none b = b
release_binding_if_unused (some id) b = if binding_used id b then b else remove_binding id b
