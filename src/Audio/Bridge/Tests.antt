-- ===== src/Audio/Bridge/Tests.antt =====
-- src/pipewire-audio/main.cpp: a bridge with one tracked node.
use nagi_shell.Prelude.{
  ℕ, ◌≡◌, refl, true, false, Option, none, some, List, [], ◌∷◌, ◌++◌, ◌≤◌, ◌<◌, map, length, any,
  not, arith,
}
use nagi_shell.Prelude.Int.{pos}
use nagi_shell.Json.{Double, integral, between, object}
use nagi_shell.Notifications.Text.{QString, literal}
use nagi_shell.Audio.Protocol.{output, set_volume, set_mute, Command, none_role, is_volume}
use nagi_shell.Audio.Protocol.Schema.{track_request, to_fields}
use nagi_shell.Audio.Volume.{Floats, is_level, cubic_volumes, proportional_cubic_volumes}
use nagi_shell.Audio.Volume.Channels.{length-proportional_cubic_volumes}
use nagi_shell.Audio.Bridge.{
  Request, NodeBinding, RoleState, no_role, PipeWireBridge, PipeWire, Write, Reason, failure,
}
use nagi_shell.Audio.Bridge.Bindings.{post}
use nagi_shell.Audio.Bridge.Bindings.Entries.{owner}
use nagi_shell.Audio.Bridge.Requests.{dispatch, dispatch_queued, make_request}
use nagi_shell.Audio.Bridge.Events.{
  initial, Event, core_done, registry_global, registry_global_remove, bytes_read, node_info, run,
}
use nagi_shell.Audio.Bridge.Validity.{IsSound}
use nagi_shell.Audio.Bridge.Validity.Events.{run-initial-IsSound}
use nagi_shell.Audio.Bridge.Outcomes.{Outcome, dispatch-Outcome}
use nagi_shell.Audio.Bridge.Queues.{
  serve, asking, volume_waiting, serve_lem, dispatch_queued-refused,
}

-- Numbers that all count as tiny, so that no division is made.
abbrev simple_floats : Floats
simple_floats = record {
  add = λ a b. a;
  mul = λ a b. a;
  div = λ a b. a;
  cbrt = λ a. a;
  to_float = λ a. a;
  of_count = λ n. integral (pos n);
  tiny = λ a. true;
  overflows = λ a. false;
}

abbrev answering : Option QString → PipeWire
answering refusal = record {
  bind = λ role id. true;
  set_param = refusal;
  sync = some 7;
  enum_params = true;
  floats = simple_floats;
  from_json = λ line. some (object (to_fields (track_request output 5 1)));
}

abbrev history : List ((ℕ → PipeWire) × Event)
history =
    ((λ k. answering none), registry_global 5 none_role)
    ∷ ((λ k. answering none), core_done 1)
    ∷ ((λ k. answering none), bytes_read (literal "track\n"))
    ∷ ((λ k. answering none), node_info 0)
    ∷ ((λ k. answering none), registry_global_remove 5)
    ∷ []

run-initial-IsSound_example : IsSound (run history (initial 1))
run-initial-IsSound_example = run-initial-IsSound 1 history

abbrev speaker : NodeBinding
speaker = record {
  handle = 0;
  id = 5;
  subscribed = true;
  has_volumes = true;
  has_mute = true;
  visual_volumes = between (pos 0) 1 ∷ [];
  muted = false;
}

abbrev tracked : RoleState
tracked = record no_role { node_id = some 5; generation = 1; binding = some 0 }

abbrev with_output : RoleState → PipeWireBridge
with_output s = record {
  helper_ready = true;
  running = true;
  initial_sync_sequence = 1;
  next_readback_sequence = 1000;
  next_handle = 1;
  command_buffer = [];
  output_state = s;
  input_state = no_role;
  known_nodes = 5 ∷ [];
  bindings = speaker ∷ [];
  sync_requests = [];
  readback_requests = [];
  posts = [];
  writes = [];
}

abbrev mute_request : Request
mute_request = record {
  operation = set_mute;
  role = output;
  node_id = 5;
  generation = 1;
  request_id = 40;
  volume = integral (pos 0);
  muted = true;
  final = true;
}

abbrev half_volume : ℕ → Command
half_volume request_id = record {
  operation = set_volume;
  role = output;
  node_id = 5;
  generation = 1;
  request_id = request_id;
  volume = between (pos 0) 1;
  muted = false;
  final = false;
}

dispatch-Outcome_example :
    Outcome
      (answering none)
      mute_request
      (with_output tracked)
      (dispatch (answering none) mute_request (with_output tracked))
dispatch-Outcome_example =
    dispatch-Outcome (answering none) mute_request (with_output tracked) refl refl refl

with_output-IsSound : IsSound (with_output tracked)
unfolding owner
with_output-IsSound = record {
  below = (omega arith, tt);
  apart = (refl, tt);
  used = (refl, tt);
  output_ok = record { attached = refl; one_in_flight = refl; volume_waits = tt; mute_waits = tt };
  input_ok = record { attached = refl; one_in_flight = refl; volume_waits = tt; mute_waits = tt };
}

abbrev muting : RoleState
muting = record tracked { mute_in_flight = true }

serve_lem_example :
    serve
      (answering none)
      (map (asking output 5 1) ((half_volume 41 ∷ half_volume 42 ∷ []) ++ (half_volume 43 ∷ [])))
      (with_output muting)
    ≡ with_output (volume_waiting (half_volume 43) muting)
serve_lem_example =
    serve_lem (answering none) output 5 1 (half_volume 43) (half_volume 41 ∷ half_volume 42 ∷ [])
      (with_output muting) (refl, refl, refl, refl)

-- Both requests wait, and the role is free.
abbrev waiting : RoleState
waiting = record tracked {
  queued_mute = some mute_request;
  queued_volume = some (make_request (half_volume 41));
}

dispatch_queued-refused_example :
    (reason : Reason) × (ws : List Write) × (dispatch_queued
        (answering (some (literal "Broken pipe")))
        output
        (with_output waiting)
      ≡ post
          (failure mute_request reason)
          (record (with_output (record waiting { queued_mute = none })) { writes = ws }))
dispatch_queued-refused_example =
    dispatch_queued-refused (answering (some (literal "Broken pipe"))) output (with_output waiting)
      mute_request (literal "Broken pipe") refl refl refl

-- A volume for the left and the right channel.
abbrev half : Double
half = between (pos 0) 1

abbrev stereo : List Double
stereo = half ∷ integral (pos 0) ∷ []

stereo-cubic : proportional_cubic_volumes simple_floats stereo half ≡ some (half ∷ half ∷ [])
unfolding proportional_cubic_volumes is_volume cubic_volumes
stereo-cubic = refl

length-proportional_cubic_volumes_example :
    (length (half ∷ half ∷ []) ≡ length stereo)
    × (0 < length stereo)
    × (length stereo ≤ 64)
    × (is_volume half ≡ true)
    × (any (λ v. not (is_level v)) stereo ≡ false)
length-proportional_cubic_volumes_example =
    length-proportional_cubic_volumes simple_floats stereo half (half ∷ half ∷ []) stereo-cubic
