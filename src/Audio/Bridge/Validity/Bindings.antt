-- ===== src/Audio/Bridge/Validity/Bindings.antt =====
-- The tracked bindings keep the invariant of the bridge, as do the commands that change what is tracked.
use nagi_shell.Prelude.{
  ℕ, suc, ◌≡◌, ◌≢◌, refl, sym, subst, true, false, not, ◌&&◌, ◌||◌, Option, none, some, is_some,
  List, Bool-cases, inl, inr, ◌∷◌, ◌==◌, All-mono, arith, if_ind, option_ind,
}
use nagi_shell.Audio.Protocol.{Role, output, input, Command}
use nagi_shell.Audio.Bridge.{
  NodeBinding, RoleState, no_role, PipeWireBridge, PipeWire, role_state, with_state,
}
use nagi_shell.Audio.Bridge.Bindings.{
  find_binding, new_binding, is_node, is_known, bind_node, ensure_binding, attach_role, ensure_role,
  ensure_tracked_bindings, pointing, binding_used, release_binding_if_unused, post, post_state,
}
use nagi_shell.Audio.Bridge.Bindings.Entries.{owner, is_used, owner-find_binding}
use nagi_shell.Audio.Bridge.Requests.{track_node, untrack_node}
use nagi_shell.Audio.Bridge.Validity.{IsSound, Owned, RoleOk, Attached, role_ok, with_state-IsSound}
use nagi_shell.Audio.Bridge.Validity.Requests.{post_state-IsSound}
use nagi_shell.Audio.Bridge.Validity.Removals.{ValidBut, remove_binding-IsSound}

-- The binding that was found is that of the node.
abbrev Found : ℕ → Option NodeBinding → List NodeBinding → Type 0
Found id none bs = Unit
Found id (some n) bs = owner id bs ≡ some n.handle

abbrev Bound : Role → ℕ → Option NodeBinding × PipeWireBridge → Type 0
Bound role id p =
    IsSound p.1 × ((role_state role p.1).node_id ≡ some id) × Found id p.0 p.1.bindings

module _ (id handle : ℕ) (bs : List NodeBinding) (free : owner id bs ≡ none) where
  Attached-new :
      (s : RoleState) (o : Option ℕ) → Attached o s bs → Attached o s (new_binding handle id ∷ bs)
  unfolding owner
  Attached-new s none a = a
  Attached-new s (some k) a = node s.node_id a
    where
      node : (m : Option ℕ) → Owned m bs k → Owned m (new_binding handle id ∷ bs) k
      node none a = a
      node (some j) a = ground (arith, free, a)

  RoleOk-new :
      (role : Role) (s : RoleState) → RoleOk role s bs → RoleOk role s (new_binding handle id ∷ bs)
  RoleOk-new role s ok = record {
    attached = Attached-new s s.binding ok.attached;
    one_in_flight = ok.one_in_flight;
    volume_waits = ok.volume_waits;
    mute_waits = ok.mute_waits;
  }

module _ (w : PipeWire) (role : Role) (id : ℕ) (b : PipeWireBridge) (v : IsSound b)
    (mine : (role_state role b).node_id ≡ some id) where
  used_by_role : (is_node id b.output_state || is_node id b.input_state) ≡ true
  used_by_role = by role mine
    where
      by :
          (k : Role)
          → (role_state k b).node_id ≡ some id
          → (is_node id b.output_state || is_node id b.input_state) ≡ true
      by output e = ground (arith, e)
      by input e = ground (arith, e)

  same_node :
      (k : Role) (bs : List NodeBinding) (next : ℕ)
      → (role_state k b).node_id ≡ some id
      → (role_state k (record b { bindings = bs; next_handle = next })).node_id ≡ some id
  same_node output bs next e = e
  same_node input bs next e = e

  bind_node-Bound : owner id b.bindings ≡ none → Bound role id (bind_node w role id b)
  unfolding bind_node owner
  bind_node-Bound free =
      if_ind (Bound role id) (is_known id b && w.bind role id)
        (λ _. (
          record {
            below = (omega arith, v.below);
            apart = (free, v.apart);
            used = (used_by_role, v.used);
            output_ok =
                RoleOk-new id b.next_handle b.bindings free output b.output_state v.output_ok;
            input_ok = RoleOk-new id b.next_handle b.bindings free input b.input_state v.input_ok;
          },
          same_node role (new_binding b.next_handle id ∷ b.bindings) (suc b.next_handle) mine,
          ground arith,
        ))
        λ _. (v, mine, tt)

  ensure_binding-Bound : Bound role id (ensure_binding w role id b)
  unfolding ensure_binding
  ensure_binding-Bound =
      option_ind (Bound role id) (find_binding id b.bindings)
        (λ e. bind_node-Bound (ground (arith, e, owner-find_binding id b.bindings)))
        λ n e. (v, mine, ground (arith, e, owner-find_binding id b.bindings))

pointing-RoleOk :
    (role : Role) (id : ℕ) (n : NodeBinding) (s : RoleState) (bs : List NodeBinding)
    → RoleOk role s bs
    → s.node_id ≡ some id
    → owner id bs ≡ some n.handle
    → RoleOk role (pointing n s) bs
pointing-RoleOk role id n s bs ok mine own = record {
  attached = subst (λ m. Owned m bs n.handle) (sym mine) own;
  one_in_flight = ok.one_in_flight;
  volume_waits = ok.volume_waits;
  mute_waits = ok.mute_waits;
}

module _ (w : PipeWire) (role : Role) where
  attach_role-IsSound :
      (id : ℕ) (b : PipeWireBridge)
      → IsSound b
      → (role_state role b).node_id ≡ some id
      → IsSound (attach_role w role id b)
  unfolding attach_role
  attach_role-IsSound id b v mine =
      attached (ensure_binding w role id b) (ensure_binding-Bound w role id b v mine)
    where
      attached :
          (p : Option NodeBinding × PipeWireBridge)
          → Bound role id p
          → IsSound (elim p.0 [
            | none ↦ p.1
            | some n ↦
                post_state role n none (with_state role (pointing n (role_state role p.1)) p.1)
          ])
      attached (none, b') bound = bound.0
      attached (some n, b') bound =
          let s = role_state role b' in
          post_state-IsSound role n none _ (
            with_state-IsSound role (pointing n s) b' bound.0 refl
              (pointing-RoleOk role id n s b'.bindings (role_ok role b' bound.0) bound.1 bound.2))

  ensure_role-IsSound : (b : PipeWireBridge) → IsSound b → IsSound (ensure_role w role b)
  unfolding ensure_role
  ensure_role-IsSound b v =
      option_ind IsSound (role_state role b).node_id (λ _. v)
        λ id mine.
          if_ind IsSound (is_some (role_state role b).binding || not (is_known id b)) (λ _. v)
            λ _. attach_role-IsSound id b v mine

module _ (w : PipeWire) where
  pub ensure_tracked_bindings-IsSound :
      (b : PipeWireBridge) → IsSound b → IsSound (ensure_tracked_bindings w b)
  unfolding ensure_tracked_bindings
  ensure_tracked_bindings-IsSound b v =
      if_ind IsSound b.helper_ready
        (λ _. ensure_role-IsSound w input _ (ensure_role-IsSound w output b v)) (λ _. v)

-- What a role's replacement leaves: its old node's binding may be unused.
abbrev Released : Option ℕ → PipeWireBridge → Type 0
Released none b = IsSound b
Released (some id) b = ValidBut id b

not_node : (s : RoleState) (n id : ℕ) → s.node_id ≡ some id → n ≢ id → is_node n s ≡ false
not_node s n id e other = ground arith

no_node : (s : RoleState) (n : ℕ) → s.node_id ≡ none → is_node n s ≡ false
no_node s n e = ground arith

module _ (s' : RoleState) (b : PipeWireBridge) (v : IsSound b) where
  replaced_output :
      (o : Option ℕ)
      → RoleOk output s' b.bindings
      → b.output_state.node_id ≡ o
      → Released o (with_state output s' b)
  replaced_output none ok e = record {
    below = v.below;
    apart = v.apart;
    used =
        All-mono (λ n. is_used b.output_state b.input_state n ≡ true)
          (λ n. is_used s' b.input_state n ≡ true) b.bindings
          (λ n used. ground (arith, used, no_node b.output_state n.id e)) v.used;
    output_ok = ok;
    input_ok = v.input_ok;
  }
  replaced_output (some id) ok e = record {
    below = v.below;
    apart = v.apart;
    others_used =
        All-mono (λ n. is_used b.output_state b.input_state n ≡ true)
          (λ n. n.id ≢ id → is_used s' b.input_state n ≡ true) b.bindings
          (λ n used other. ground (arith, used, not_node b.output_state n.id id e other)) v.used;
    output_ok = ok;
    input_ok = v.input_ok;
  }

  replaced_input :
      (o : Option ℕ)
      → RoleOk input s' b.bindings
      → b.input_state.node_id ≡ o
      → Released o (with_state input s' b)
  replaced_input none ok e = record {
    below = v.below;
    apart = v.apart;
    used =
        All-mono (λ n. is_used b.output_state b.input_state n ≡ true)
          (λ n. is_used b.output_state s' n ≡ true) b.bindings
          (λ n used. ground (arith, used, no_node b.input_state n.id e)) v.used;
    output_ok = v.output_ok;
    input_ok = ok;
  }
  replaced_input (some id) ok e = record {
    below = v.below;
    apart = v.apart;
    others_used =
        All-mono (λ n. is_used b.output_state b.input_state n ≡ true)
          (λ n. n.id ≢ id → is_used b.output_state s' n ≡ true) b.bindings
          (λ n used other. ground (arith, used, not_node b.input_state n.id id e other)) v.used;
    output_ok = v.output_ok;
    input_ok = ok;
  }

  pub replaced :
      (role : Role)
      → RoleOk role s' b.bindings
      → Released (role_state role b).node_id (with_state role s' b)
  replaced output ok = replaced_output b.output_state.node_id ok refl
  replaced input ok = replaced_input b.input_state.node_id ok refl

used_again : (id : ℕ) (b : PipeWireBridge) → ValidBut id b → binding_used id b ≡ true → IsSound b
used_again id b v again = record {
  below = v.below;
  apart = v.apart;
  used =
      All-mono (λ n. n.id ≢ id → is_used b.output_state b.input_state n ≡ true)
        (λ n. is_used b.output_state b.input_state n ≡ true) b.bindings
        (λ n other. elim (Bool-cases (n.id == id)) [
          | inl e ↦ ground (arith, e, again)
          | inr e ↦ other (ground (arith, e))
        ])
        v.others_used;
  output_ok = v.output_ok;
  input_ok = v.input_ok;
}

pub release_binding_if_unused-IsSound :
    (o : Option ℕ) (b : PipeWireBridge) → Released o b → IsSound (release_binding_if_unused o b)
unfolding release_binding_if_unused
release_binding_if_unused-IsSound none b v = v
release_binding_if_unused-IsSound (some id) b v =
    if_ind IsSound (binding_used id b) (λ again. used_again id b v again)
      λ _. remove_binding-IsSound id b v

-- A role that is tracked anew, or no more, points nowhere.
unbound-RoleOk :
    (role : Role) (o : Option ℕ) (g : ℕ) (bs : List NodeBinding)
    → RoleOk role (record no_role { node_id = o; generation = g }) bs
unbound-RoleOk role o g bs = record {
  attached = refl;
  one_in_flight = refl;
  volume_waits = tt;
  mute_waits = tt;
}

pub track_node-IsSound :
    (w : PipeWire) (c : Command) (b : PipeWireBridge) → IsSound b → IsSound (track_node w c b)
unfolding track_node post
track_node-IsSound w c b v =
    let s' = record no_role { node_id = some c.node_id; generation = c.generation } in
    let ok = unbound-RoleOk c.role (some c.node_id) c.generation b.bindings in
    let b1 = release_binding_if_unused (role_state c.role b).node_id (with_state c.role s' b) in
    let b2 = ensure_tracked_bindings w b1 in
    let v2 = ensure_tracked_bindings-IsSound w b1 (
      release_binding_if_unused-IsSound (role_state c.role b).node_id (with_state c.role s' b)
        (replaced s' b v c.role ok)) in
    if_ind IsSound
      (not (is_some (role_state c.role b2).binding)
        && b2.helper_ready
        && not (is_known c.node_id b2))
      (λ _. v2) (λ _. v2)

pub untrack_node-IsSound :
    (c : Command) (b : PipeWireBridge) → IsSound b → IsSound (untrack_node c b)
unfolding untrack_node
untrack_node-IsSound c b v =
    let s = role_state c.role b in
    if_ind IsSound (s.generation == c.generation)
      (λ _.
        release_binding_if_unused-IsSound s.node_id (with_state c.role no_role b)
          (replaced no_role b v c.role (unbound-RoleOk c.role none 0 b.bindings)))
      (λ _. v)
