-- ===== src/Audio/Bridge/Validity.antt =====
-- The invariant of the bridge: its pointers, flags and queues.
pub mod Requests
pub mod Removals
pub mod Bindings
pub mod Events
use nagi_shell.Prelude.{
  ℕ, zero, suc, ◌+◌, ◌≤◌, ◌<◌, ◌≡◌, ◌≢◌, refl, sym, ◌∙◌, subst, Bool, true, false, not, ◌&&◌, ◌||◌,
  Option, none, some, is_some, List, [], ◌∷◌, ◌==◌, if◌then◌else◌, All, All-mono, Descending,
  Descending-mono, arith, if_ind, option_ind,
}
use nagi_shell.Audio.Protocol.{Role, output, input, Operation, set_volume, set_mute}
use nagi_shell.Audio.Bridge.{
  Request, NodeBinding, RoleState, no_role, PipeWireBridge, PipeWire, role_state, with_state,
}
use nagi_shell.Audio.Bridge.Bindings.{
  find_binding, at_handle, erase_binding, new_binding, is_node, is_known, bind_node, ensure_binding,
  attach_role, ensure_role, ensure_tracked_bindings, pointing, points_to, detached, detach_role,
  erase_requests_for_node, remove_found, remove_binding, binding_used, release_binding_if_unused,
  post, post_state,
}
use nagi_shell.Audio.Bridge.Requests.{is_set_volume}
use nagi_shell.Audio.Bridge.Bindings.Entries.{
  owner, Apart, Used, is_used, Below, owner-find_binding, owner-erase_binding, Apart-erase_binding,
  Below-erase_binding, All-erase_binding, owner-Below,
}

-- Nothing is on its way, and nothing waits.
abbrev pub is_idle : RoleState → Bool
is_idle s =
    not s.volume_in_flight
    && not s.mute_in_flight
    && not (is_some s.queued_volume)
    && not (is_some s.queued_mute)

-- The pointer is that of the node's binding.
abbrev pub Owned : Option ℕ → List NodeBinding → ℕ → Type 0
Owned none bs h = ⊥
Owned (some id) bs h = owner id bs ≡ some h

-- A role's pointer is that of the binding for the role's node; with no pointer the role is idle.
abbrev pub Attached : Option ℕ → RoleState → List NodeBinding → Type 0
Attached none s bs = is_idle s ≡ true
Attached (some h) s bs = Owned s.node_id bs h

abbrev pub is_for : Request → Option ℕ → ℕ → Bool
is_for r tracked generation =
    elim tracked [ none ↦ false | some k ↦ k == r.node_id ] && generation == r.generation

-- A request that waits is the role's, for its node and generation, and of the queue's kind.
abbrev pub Waits : Bool → Role → Option ℕ → ℕ → Option Request → Type 0
Waits volume role tracked generation none = Unit
Waits volume role tracked generation (some r) =
    (r.role ≡ role) × (is_for r tracked generation ≡ true) × (is_set_volume r.operation ≡ volume)

pub record RoleOk (role : Role) (s : RoleState) (bs : List NodeBinding) : Type 0 where
  pub attached : Attached s.binding s bs
  pub one_in_flight : (s.volume_in_flight && s.mute_in_flight) ≡ false
  pub volume_waits : Waits true role s.node_id s.generation s.queued_volume
  pub mute_waits : Waits false role s.node_id s.generation s.queued_mute

-- The invariant, of the parts of the bridge that it is about.
pub record ValidParts (next : ℕ) (bs : List NodeBinding) (o i : RoleState) : Type 0 where
  pub below : Below next bs
  pub apart : Apart bs
  pub used : Used o i bs
  pub output_ok : RoleOk output o bs
  pub input_ok : RoleOk input i bs

abbrev pub IsSound : PipeWireBridge → Type 0
IsSound b = ValidParts b.next_handle b.bindings b.output_state b.input_state

pub role_ok :
    (role : Role) (b : PipeWireBridge) → IsSound b → RoleOk role (role_state role b) b.bindings
role_ok output b v = v.output_ok
role_ok input b v = v.input_ok

-- A role's state is replaced by another of the same node.
pub with_state-IsSound :
    (role : Role) (s : RoleState) (b : PipeWireBridge)
    → IsSound b
    → s.node_id ≡ (role_state role b).node_id
    → RoleOk role s b.bindings
    → IsSound (with_state role s b)
with_state-IsSound output s b v same ok = record {
  below = v.below;
  apart = v.apart;
  used =
      subst
        (λ (o : Option ℕ).
          All
            (λ n.
              (elim o [ none ↦ false | some k ↦ k == n.id ] || is_node n.id b.input_state) ≡ true)
            b.bindings)
        (sym same) v.used;
  output_ok = ok;
  input_ok = v.input_ok;
}
with_state-IsSound input s b v same ok = record {
  below = v.below;
  apart = v.apart;
  used =
      subst
        (λ (o : Option ℕ).
          All
            (λ n.
              (is_node n.id b.output_state || elim o [ none ↦ false | some k ↦ k == n.id ]) ≡ true)
            b.bindings)
        (sym same) v.used;
  output_ok = v.output_ok;
  input_ok = ok;
}

-- A role that points nowhere is idle.
pub Attached-idle :
    (o : Option ℕ) (s : RoleState) (bs : List NodeBinding)
    → Attached o s bs
    → (is_some o || is_idle s) ≡ true
Attached-idle none s bs a = a
Attached-idle (some h) s bs a = refl

-- The pointer still fits a state of the same node.
pub Attached-same :
    (o : Option ℕ) (s s' : RoleState) (bs : List NodeBinding)
    → Attached o s bs
    → s'.node_id ≡ s.node_id
    → (is_some o || is_idle s') ≡ true
    → Attached o s' bs
Attached-same none s s' bs a same idle = idle
Attached-same (some h) s s' bs a same idle = subst (λ k. Owned k bs h) (sym same) a
