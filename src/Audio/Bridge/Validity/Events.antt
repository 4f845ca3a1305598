-- ===== src/Audio/Bridge/Validity/Events.antt =====
-- Every callback keeps the invariant of the bridge, and so does every history of events.
use nagi_shell.Prelude.{
  ℕ, suc, ◌∙◌, refl, Bool, true, false, not, ◌&&◌, ◌||◌, Option, none, some, List, [], ◌∷◌, ◌++◌,
  ◌==◌, ◌*◌, ltb, if◌then◌else◌, length, arith, if_ind, option_ind,
}
use nagi_shell.Prelude.Result.{Result, ok, err}
use nagi_shell.Bytes.{Bytes, split_lines, chop_return}
use nagi_shell.Json.{Double}
use nagi_shell.Audio.Protocol.{
  Role, output, input, Command, EasyEffectsInternalRole, Operation, shutdown, track, untrack,
  set_volume, set_mute, parse_command, Error, maximum_command_bytes,
}
use nagi_shell.Audio.Volume.{Floats}
use nagi_shell.Audio.Bridge.{
  NodeBinding, RoleState, PipeWireBridge, PipeWire, role_state, node_removed,
}
use nagi_shell.Audio.Bridge.Bindings.{
  at_handle, change_binding, post, is_known, points_to, remove_binding,
}
use nagi_shell.Audio.Bridge.Bindings.Entries.{
  Keeps, owner-change_binding, Apart-change_binding, Below-change_binding, Used-change_binding,
}
use nagi_shell.Audio.Bridge.Requests.{
  in_flight, find_request, erase_request, handle_command, track_node, untrack_node, request,
}
use nagi_shell.Audio.Bridge.Events.{
  without, initial, on_core_done, on_core_error, on_registry_global, on_registry_global_remove,
  on_node_info, Props, read_volumes, read_mute, update_state, find_readback, publish_external,
  answer_param, on_node_param, handle_lines, read_commands, Event, core_error, input_closed,
  core_done, node_info, registry_global_remove, registry_global, node_param, bytes_read, step, run,
}
use nagi_shell.Audio.Bridge.Validity.{IsSound, RoleOk, Owned, Attached}
use nagi_shell.Audio.Bridge.Validity.Requests.{
  post_state-IsSound, request-IsSound, begin_readback-IsSound, complete_request-IsSound,
}
use nagi_shell.Audio.Bridge.Validity.Removals.{IsSound-but, remove_binding-IsSound}
use nagi_shell.Audio.Bridge.Validity.Bindings.{
  ensure_tracked_bindings-IsSound, track_node-IsSound, untrack_node-IsSound,
}

pub initial-IsSound : (sequence : ℕ) → IsSound (initial sequence)
unfolding initial
initial-IsSound sequence = record {
  below = tt;
  apart = tt;
  used = tt;
  output_ok = record { attached = refl; one_in_flight = refl; volume_waits = tt; mute_waits = tt };
  input_ok = record { attached = refl; one_in_flight = refl; volume_waits = tt; mute_waits = tt };
}

module _ (h : ℕ) (f : NodeBinding → NodeBinding) (keeps : Keeps f) where
  RoleOk-change_binding :
      (role : Role) (s : RoleState) (bs : List NodeBinding)
      → RoleOk role s bs
      → RoleOk role s (change_binding h f bs)
  RoleOk-change_binding role s bs valid = record {
    attached = moved s.binding valid.attached;
    one_in_flight = valid.one_in_flight;
    volume_waits = valid.volume_waits;
    mute_waits = valid.mute_waits;
  }
    where
      owned : (m : Option ℕ) (k : ℕ) → Owned m bs k → Owned m (change_binding h f bs) k
      owned none k a = a
      owned (some id) k a = owner-change_binding h f keeps id bs ∙ a

      moved : (o : Option ℕ) → Attached o s bs → Attached o s (change_binding h f bs)
      moved none a = a
      moved (some k) a = owned s.node_id k a

  change_binding-IsSound :
      (b : PipeWireBridge)
      → IsSound b
      → IsSound (record b { bindings = change_binding h f b.bindings })
  change_binding-IsSound b v = record {
    below = Below-change_binding h f keeps b.next_handle b.bindings v.below;
    apart = Apart-change_binding h f keeps b.bindings v.apart;
    used = Used-change_binding h f keeps b.output_state b.input_state b.bindings v.used;
    output_ok = RoleOk-change_binding output b.output_state b.bindings v.output_ok;
    input_ok = RoleOk-change_binding input b.input_state b.bindings v.input_ok;
  }

read_volumes-Keeps : (fl : Floats) (o : Option (List Double)) → Keeps (read_volumes fl o)
read_volumes-Keeps fl none = record { keeps_handle = λ n. refl; keeps_id = λ n. refl }
read_volumes-Keeps fl (some values) = record {
  keeps_handle = λ n. ground arith;
  keeps_id = λ n. ground arith;
}

read_mute-Keeps : (o : Option Bool) → Keeps (read_mute o)
read_mute-Keeps none = record { keeps_handle = λ n. refl; keeps_id = λ n. refl }
read_mute-Keeps (some muted) = record { keeps_handle = λ n. refl; keeps_id = λ n. refl }

update_state-Keeps : (fl : Floats) (p : Props) → Keeps (update_state fl p)
unfolding update_state
update_state-Keeps fl p =
    let volumes = read_volumes-Keeps fl p.channel_volumes in
    let mute = read_mute-Keeps p.mute in
    record {
      keeps_handle =
          λ n. mute.keeps_handle (read_volumes fl p.channel_volumes n) ∙ volumes.keeps_handle n;
      keeps_id = λ n. mute.keeps_id (read_volumes fl p.channel_volumes n) ∙ volumes.keeps_id n;
    }

module _ (w : PipeWire) (b : PipeWireBridge) (v : IsSound b) where
  on_core_done-IsSound : (sequence : ℕ) → IsSound (on_core_done w sequence b)
  unfolding on_core_done post
  on_core_done-IsSound sequence =
      if_ind IsSound (sequence == b.initial_sync_sequence)
        (λ _. ensure_tracked_bindings-IsSound w _ v)
        λ _.
          option_ind IsSound (find_request sequence b.sync_requests) (λ _. v)
            λ r _.
              begin_readback-IsSound w r
                (record b { sync_requests = erase_request sequence b.sync_requests }) v

  on_registry_global-IsSound :
      (id : ℕ) (role : EasyEffectsInternalRole) → IsSound (on_registry_global w id role b)
  unfolding on_registry_global post
  on_registry_global-IsSound id role = ensure_tracked_bindings-IsSound w _ v

  on_registry_global_remove-IsSound : (id : ℕ) → IsSound (on_registry_global_remove id b)
  unfolding on_registry_global_remove post
  on_registry_global_remove-IsSound id =
      let forgotten =
        post (node_removed id) (record b { known_nodes = without id b.known_nodes }) in
      if_ind (λ r. IsSound (remove_binding id r)) (is_known id b)
        (λ _. remove_binding-IsSound id forgotten (IsSound-but id forgotten v))
        (λ _. remove_binding-IsSound id b (IsSound-but id b v))

  on_node_info-IsSound : (h : ℕ) → IsSound (on_node_info h b)
  unfolding on_node_info
  on_node_info-IsSound h =
      change_binding-IsSound h (λ n. record n { subscribed = true })
        (record { keeps_handle = λ n. refl; keeps_id = λ n. refl }) b v

  publish_external-IsSound : (n : NodeBinding) (role : Role) → IsSound (publish_external n role b)
  unfolding publish_external
  publish_external-IsSound n role =
      if_ind IsSound (not (points_to n.handle (role_state role b)) || in_flight (role_state role b))
        (λ _. v) λ _. post_state-IsSound role n none b v

  handle_command-IsSound : (c : Command) → IsSound (handle_command w c b)
  unfolding handle_command
  handle_command-IsSound c = by c.operation
    where
      by :
          (o : Operation)
          → IsSound (elim o [
            | shutdown ↦ record b { running = false }
            | track ↦ track_node w c b
            | untrack ↦ untrack_node c b
            | set_volume ↦ request w c b
            | set_mute ↦ request w c b
          ])
      by shutdown = v
      by track = track_node-IsSound w c b v
      by untrack = untrack_node-IsSound c b v
      by set_volume = request-IsSound w c b v
      by set_mute = request-IsSound w c b v

module _ (w : PipeWire) where
  answer_param-IsSound :
      (sequence : ℕ) (n : NodeBinding) (b : PipeWireBridge)
      → IsSound b
      → IsSound (answer_param w sequence n b)
  unfolding answer_param
  answer_param-IsSound sequence n b v =
      option_ind IsSound (find_readback sequence n.id b.readback_requests)
        (λ _. publish_external-IsSound w _ (publish_external-IsSound w b v n output) n input)
        λ found _. complete_request-IsSound w found.1 _ v n

  on_node_param-IsSound :
      (h sequence : ℕ) (p : Props) (b : PipeWireBridge)
      → IsSound b
      → IsSound (on_node_param w h sequence p b)
  unfolding on_node_param
  on_node_param-IsSound h sequence p b v =
      option_ind IsSound (at_handle h b.bindings) (λ _. v)
        λ n _.
          let n' = update_state w.floats p n in
          let v' =
            change_binding-IsSound h (update_state w.floats p) (update_state-Keeps w.floats p) b
              v in
          if_ind IsSound (n'.has_volumes && n'.has_mute)
            (λ _. answer_param-IsSound sequence n' _ v') (λ _. v')

handle_lines-IsSound :
    (w : ℕ → PipeWire) (lines : List Bytes) (b : PipeWireBridge)
    → IsSound b
    → IsSound (handle_lines w lines b)
unfolding handle_lines
handle_lines-IsSound w [] b v = v
handle_lines-IsSound w (line ∷ rest) b v =
    handle_lines-IsSound (λ k. w (suc k)) rest _
      (by (parse_command (w 0).from_json (chop_return line)))
  where
    by :
        (r : Result Error Command)
        → IsSound (elim r [ err e ↦ b | ok c ↦ handle_command (w 0) c b ])
    by (err e) = v
    by (ok c) = handle_command-IsSound (w 0) b v c

step-IsSound :
    (w : ℕ → PipeWire) (e : Event) (b : PipeWireBridge) → IsSound b → IsSound (step w e b)
unfolding step on_core_error post read_commands
step-IsSound w core_error b v = v
step-IsSound w input_closed b v = v
step-IsSound w (core_done sequence) b v = on_core_done-IsSound (w 0) b v sequence
step-IsSound w (node_info h) b v = on_node_info-IsSound (w 0) b v h
step-IsSound w (registry_global_remove id) b v = on_registry_global_remove-IsSound (w 0) b v id
step-IsSound w (registry_global id role) b v = on_registry_global-IsSound (w 0) b v id role
step-IsSound w (node_param h sequence p) b v = on_node_param-IsSound (w 0) h sequence p b v
step-IsSound w (bytes_read bytes) b v =
    let buffer = b.command_buffer ++ bytes in
    let s = split_lines (if ltb (maximum_command_bytes * 2) (length buffer) then [] else buffer) in
    handle_lines-IsSound w s.lines (record b { command_buffer = s.rest }) v

run-IsSound :
    (history : List ((ℕ → PipeWire) × Event)) (b : PipeWireBridge)
    → IsSound b
    → IsSound (run history b)
unfolding run
run-IsSound [] b v = v
run-IsSound ((w, e) ∷ rest) b v = run-IsSound rest (step w e b) (step-IsSound w e b v)

-- From the start, whatever PipeWire reports and answers and whatever bytes are read: the binding that a role points to
-- is that of the role's node; a role without one has no mark of a request in flight, and none that waits;
-- the marks of a volume and of a mute request in flight are not both set; the requests that wait are for
-- the role's node and generation and of their queue's kind; no node has two bindings, every binding is for
-- the node of some role, and the bindings' addresses are distinct.
pub run-initial-IsSound :
    (sequence : ℕ) (history : List ((ℕ → PipeWire) × Event))
    → IsSound (run history (initial sequence))
run-initial-IsSound sequence history =
    run-IsSound history (initial sequence) (initial-IsSound sequence)
