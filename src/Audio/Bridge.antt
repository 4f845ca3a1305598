-- ===== src/Audio/Bridge.antt =====
-- src/pipewire-audio/main.cpp: the state of PipeWireBridge. A binding is an object on the heap; its
-- address is a number, its `handle`, that no other binding ever has, and a role points to a binding by
-- the handle. What PipeWire answers during one event is a parameter.
pub mod Bindings
pub mod Requests
pub mod Events
pub mod Validity
pub mod Outcomes
pub mod Queues
mod Tests
use nagi_shell.Prelude.{ℕ, Bool, true, false, Option, none, List, [], if◌then◌else◌}
use nagi_shell.Notifications.Text.{QString}
use nagi_shell.Bytes.{Bytes}
use nagi_shell.Json.{Double, Json}
use nagi_shell.Audio.Protocol.{Operation, Role, output, input, EasyEffectsInternalRole}
use nagi_shell.Audio.Volume.{Floats}

pub record Request : Type 0 where
  pub operation : Operation
  pub role : Role
  pub node_id : ℕ
  pub generation : ℕ
  pub request_id : ℕ
  pub volume : Double
  pub muted : Bool
  pub final : Bool

pub record NodeBinding : Type 0 where
  pub handle : ℕ
  pub id : ℕ
  pub subscribed : Bool
  pub has_volumes : Bool
  pub has_mute : Bool
  pub visual_volumes : List Double
  pub muted : Bool

-- `none` for the node is InvalidNode, for the binding the null pointer.
pub record RoleState : Type 0 where
  pub node_id : Option ℕ
  pub generation : ℕ
  pub binding : Option ℕ
  pub volume_in_flight : Bool
  pub mute_in_flight : Bool
  pub queued_volume : Option Request
  pub queued_mute : Option Request

abbrev pub no_role : RoleState
no_role = record {
  node_id = none;
  generation = 0;
  binding = none;
  volume_in_flight = false;
  mute_in_flight = false;
  queued_volume = none;
  queued_mute = none;
}

pub data Reason : Type 0 where
  stale not_ready invalid_state sync_failed readback_failed : Reason
  backend : QString → Reason

-- The lines that the helper prints. A state is printed with the average of its volumes.
pub data Message : Type 0 where
  ready fatal : Message
  failure : Request → Reason → Message
  unavailable : Role → ℕ → Message
  node_metadata : ℕ → EasyEffectsInternalRole → Message
  node_removed : ℕ → Message
  state : Role → ℕ → ℕ → Option Request → List Double → Bool → Message

-- The answers of PipeWire: whether a node is bound for a role, the error of pw_node_set_param (`none` is success),
-- the sequence of pw_core_sync (`none` is a failure), and whether pw_node_enum_params succeeds.
pub record PipeWire : Type 0 where
  pub bind : Role → ℕ → Bool
  pub set_param : Option QString
  pub sync : Option ℕ
  pub enum_params : Bool
  pub floats : Floats
  pub from_json : Bytes → Option Json

-- What is written to a node: the volumes of its channels, or whether it is muted.
pub data Write : Type 0 where
  channel_volumes : ℕ → List Double → Write
  mute : ℕ → Bool → Write

-- The maps are lists of pairs; of `knownNodes` only the keys are read again. `posts` holds what was
-- posted and `writes` what pw_node_set_param was called with, newest first.
pub record PipeWireBridge : Type 0 where
  pub helper_ready : Bool
  pub running : Bool
  pub initial_sync_sequence : ℕ
  pub next_readback_sequence : ℕ
  pub next_handle : ℕ
  pub command_buffer : Bytes
  pub output_state : RoleState
  pub input_state : RoleState
  pub known_nodes : List ℕ
  pub bindings : List NodeBinding
  pub sync_requests : List (ℕ × Request)
  pub readback_requests : List (ℕ × Request)
  pub posts : List Message
  pub writes : List Write

-- roleState.
abbrev pub role_state : Role → PipeWireBridge → RoleState
role_state output b = b.output_state
role_state input b = b.input_state

abbrev pub with_state : Role → RoleState → PipeWireBridge → PipeWireBridge
with_state output s b = record b { output_state = s }
with_state input s b = record b { input_state = s }
