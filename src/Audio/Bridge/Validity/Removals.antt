-- ===== src/Audio/Bridge/Validity/Removals.antt =====
-- The removal of a binding, which no pointer survives.
use nagi_shell.Prelude.{
  ℕ, ◌≡◌, ◌≢◌, refl, true, false, Option, none, some, List, ◌==◌, All, All-mono, arith, if_ind,
  option_ind,
}
use nagi_shell.Audio.Protocol.{Role, output, input}
use nagi_shell.Audio.Bridge.{NodeBinding, RoleState, PipeWireBridge}
use nagi_shell.Audio.Bridge.Bindings.{
  find_binding, erase_binding, points_to, detached, detach_role, erase_requests_for_node,
  remove_found, remove_binding, post,
}
use nagi_shell.Audio.Bridge.Bindings.Entries.{
  owner, Apart, is_used, Below, owner-find_binding, owner-erase_binding, Apart-erase_binding,
  Below-erase_binding, All-erase_binding, All-unbound,
}
use nagi_shell.Audio.Bridge.Validity.{IsSound, ValidParts, Owned, RoleOk, Attached}

-- While a node's binding is removed: it may be unused, and each role is valid for bindings of its own.
pub record Removing (id next : ℕ) (bs : List NodeBinding) (o i : RoleState)
    (outs ins : List NodeBinding) : Type 0 where
  pub below : Below next bs
  pub apart : Apart bs
  pub others_used : All (λ n. n.id ≢ id → is_used o i n ≡ true) bs
  pub output_ok : RoleOk output o outs
  pub input_ok : RoleOk input i ins

abbrev pub ValidBut : ℕ → PipeWireBridge → Type 0
ValidBut id b =
    Removing id b.next_handle b.bindings b.output_state b.input_state b.bindings b.bindings

pub IsSound-but : (id : ℕ) (b : PipeWireBridge) → IsSound b → ValidBut id b
IsSound-but id b v = record {
  below = v.below;
  apart = v.apart;
  others_used =
      All-mono (λ n. is_used b.output_state b.input_state n ≡ true)
        (λ n. n.id ≢ id → is_used b.output_state b.input_state n ≡ true) b.bindings
        (λ n used other. used) v.used;
  output_ok = v.output_ok;
  input_ok = v.input_ok;
}

module _ (id h : ℕ) (bs : List NodeBinding) (apart : Apart bs) (own : owner id bs ≡ some h) where
  -- A pointer elsewhere stays right.
  Attached-erase_binding :
      (s : RoleState) (o : Option ℕ)
      → Attached o s bs
      → (elim o [ none ↦ false | some k ↦ k == h ]) ≡ false
      → Attached o s (erase_binding id bs)
  Attached-erase_binding s none a e = a
  Attached-erase_binding s (some k) a e = node s.node_id a
    where
      node : (m : Option ℕ) → Owned m bs k → Owned m (erase_binding id bs) k
      node none a = a
      node (some j) a = ground (arith, owner-erase_binding id j bs apart, own)

  elsewhere-RoleOk :
      (role : Role) (s : RoleState)
      → RoleOk role s bs
      → points_to h s ≡ false
      → RoleOk role s (erase_binding id bs)
  elsewhere-RoleOk role s ok e = record {
    attached = Attached-erase_binding s s.binding ok.attached e;
    one_in_flight = ok.one_in_flight;
    volume_waits = ok.volume_waits;
    mute_waits = ok.mute_waits;
  }

detached-RoleOk :
    (role : Role) (s : RoleState) (bs : List NodeBinding) → RoleOk role (detached s) bs
detached-RoleOk role s bs = record {
  attached = refl;
  one_in_flight = refl;
  volume_waits = tt;
  mute_waits = tt;
}

module _ (id h : ℕ) where
  -- Once the output points elsewhere, or nowhere.
  abbrev OutputFree : PipeWireBridge → Type 0
  OutputFree b =
      Removing id b.next_handle b.bindings b.output_state b.input_state
        (erase_binding id b.bindings) b.bindings
      × (owner id b.bindings ≡ some h)

  abbrev BothFree : PipeWireBridge → Type 0
  BothFree b =
      Removing id b.next_handle b.bindings b.output_state b.input_state
        (erase_binding id b.bindings) (erase_binding id b.bindings)

  detach_output :
      (b : PipeWireBridge)
      → ValidBut id b
      → owner id b.bindings ≡ some h
      → OutputFree (detach_role h output b)
  unfolding detach_role post
  detach_output b v own =
      if_ind OutputFree (points_to h b.output_state)
        (λ _. (
          record {
            below = v.below;
            apart = v.apart;
            others_used = v.others_used;
            output_ok = detached-RoleOk output b.output_state (erase_binding id b.bindings);
            input_ok = v.input_ok;
          },
          own,
        ))
        λ e. (
          record {
            below = v.below;
            apart = v.apart;
            others_used = v.others_used;
            output_ok =
                elsewhere-RoleOk id h b.bindings v.apart own output b.output_state v.output_ok e;
            input_ok = v.input_ok;
          },
          own,
        )

  detach_input : (b : PipeWireBridge) → OutputFree b → BothFree (detach_role h input b)
  unfolding detach_role post
  detach_input b (v, own) =
      if_ind BothFree (points_to h b.input_state)
        (λ _. record {
          below = v.below;
          apart = v.apart;
          others_used = v.others_used;
          output_ok = v.output_ok;
          input_ok = detached-RoleOk input b.input_state (erase_binding id b.bindings);
        })
        λ e. record {
          below = v.below;
          apart = v.apart;
          others_used = v.others_used;
          output_ok = v.output_ok;
          input_ok = elsewhere-RoleOk id h b.bindings v.apart own input b.input_state v.input_ok e;
        }

  erased-IsSound :
      (b : PipeWireBridge)
      → BothFree b
      → ValidParts b.next_handle (erase_binding id b.bindings) b.output_state b.input_state
  erased-IsSound b v = record {
    below = Below-erase_binding id b.next_handle b.bindings v.below;
    apart = Apart-erase_binding id b.bindings v.apart;
    used =
        All-erase_binding (λ n. is_used b.output_state b.input_state n ≡ true) id b.bindings v.apart
          v.others_used;
    output_ok = v.output_ok;
    input_ok = v.input_ok;
  }

remove_found-IsSound :
    (id : ℕ) (n : NodeBinding) (b : PipeWireBridge)
    → ValidBut id b
    → owner id b.bindings ≡ some n.handle
    → IsSound (remove_found id n b)
unfolding remove_found erase_requests_for_node
remove_found-IsSound id n b v own =
    let b1 = detach_role n.handle output b in
    erased-IsSound id n.handle (detach_role n.handle input b1)
      (detach_input id n.handle b1 (detach_output id n.handle b v own))

unbound-IsSound :
    (id : ℕ) (b : PipeWireBridge) → ValidBut id b → owner id b.bindings ≡ none → IsSound b
unbound-IsSound id b v free = record {
  below = v.below;
  apart = v.apart;
  used =
      All-unbound (λ n. is_used b.output_state b.input_state n ≡ true) id b.bindings free
        v.others_used;
  output_ok = v.output_ok;
  input_ok = v.input_ok;
}

pub remove_binding-IsSound :
    (id : ℕ) (b : PipeWireBridge) → ValidBut id b → IsSound (remove_binding id b)
unfolding remove_binding
remove_binding-IsSound id b v =
    option_ind IsSound (find_binding id b.bindings)
      (λ e. unbound-IsSound id b v (ground (arith, e, owner-find_binding id b.bindings)))
      λ n e. remove_found-IsSound id n b v (ground (arith, e, owner-find_binding id b.bindings))
