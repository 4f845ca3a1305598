-- ===== src/Audio/Bridge/Validity/Requests.antt =====
-- Commands and requests keep the invariant of the bridge.
use nagi_shell.Prelude.{
  ℕ, ◌≡◌, refl, sym, ◌∙◌, Bool, true, false, not, ◌||◌, Option, none, some, is_some, List, ◌==◌,
  arith, if_ind, option_ind, subst, length,
}
use nagi_shell.Audio.Protocol.{
  Role, output, input, Operation, set_volume, set_mute, track, untrack, shutdown, Command,
}
use nagi_shell.Audio.Volume.{proportional_cubic_volumes}
use nagi_shell.Audio.Bridge.{
  Request, NodeBinding, RoleState, PipeWireBridge, PipeWire, role_state, with_state, Write,
  channel_volumes, mute,
}
use nagi_shell.Audio.Bridge.Bindings.{post, post_state, points_to}
use nagi_shell.Audio.Bridge.Requests.{
  in_flight, cleared, clear_in_flight, flying, written, sync_request, send_request, send_volume,
  target_of, dispatch, queue, make_request, is_current, request, dispatch_queued, begin_readback,
  complete_request, is_set_volume,
}
use nagi_shell.Audio.Bridge.Validity.{
  IsSound, RoleOk, Attached-idle, Attached-same, Waits, is_for, role_ok, with_state-IsSound,
}

module _ (role : Role) (s : RoleState) (bs : List NodeBinding) (ok : RoleOk role s bs) where
  cleared-RoleOk : (op : Operation) → RoleOk role (cleared op s) bs
  cleared-RoleOk set_volume = record {
    attached =
        Attached-same s.binding s _ bs ok.attached refl
          (ground (arith, Attached-idle s.binding s bs ok.attached));
    one_in_flight = refl;
    volume_waits = ok.volume_waits;
    mute_waits = ok.mute_waits;
  }
  cleared-RoleOk set_mute = record {
    attached =
        Attached-same s.binding s _ bs ok.attached refl
          (ground (arith, Attached-idle s.binding s bs ok.attached));
    one_in_flight = ground arith;
    volume_waits = ok.volume_waits;
    mute_waits = ok.mute_waits;
  }
  cleared-RoleOk track = ok
  cleared-RoleOk untrack = ok
  cleared-RoleOk shutdown = ok

  flying-RoleOk :
      (op : Operation)
      → is_some s.binding ≡ true
      → in_flight s ≡ false
      → RoleOk role (flying op s) bs
  flying-RoleOk set_volume bound still = record {
    attached = Attached-same s.binding s _ bs ok.attached refl (ground arith);
    one_in_flight = ground arith;
    volume_waits = ok.volume_waits;
    mute_waits = ok.mute_waits;
  }
  flying-RoleOk op bound still = record {
    attached = Attached-same s.binding s _ bs ok.attached refl (ground arith);
    one_in_flight = ground arith;
    volume_waits = ok.volume_waits;
    mute_waits = ok.mute_waits;
  }

-- A message changes nothing that the invariant is about.
pub post_state-IsSound :
    (role : Role) (n : NodeBinding) (o : Option Request) (b : PipeWireBridge)
    → IsSound b
    → IsSound (post_state role n o b)
unfolding post_state post
post_state-IsSound role n o b v =
    if_ind IsSound (not n.has_volumes || not n.has_mute || length n.visual_volumes == 0) (λ _. v)
      λ _. v

cleared-node : (op : Operation) (s : RoleState) → (cleared op s).node_id ≡ s.node_id
cleared-node set_volume s = refl
cleared-node set_mute s = refl
cleared-node track s = refl
cleared-node untrack s = refl
cleared-node shutdown s = refl

flying-node : (op : Operation) (s : RoleState) → (flying op s).node_id ≡ s.node_id
flying-node set_volume s = refl
flying-node op s = refl

pub clear_in_flight-IsSound :
    (r : Request) (b : PipeWireBridge) → IsSound b → IsSound (clear_in_flight r b)
unfolding clear_in_flight
clear_in_flight-IsSound r b v =
    let s = role_state r.role b in
    if_ind IsSound (is_current r s)
      (λ _.
        with_state-IsSound r.role (cleared r.operation s) b v (cleared-node r.operation s)
          (cleared-RoleOk r.role s b.bindings (role_ok r.role b v) r.operation))
      λ _. v

module _ (w : PipeWire) (r : Request) where
  sync_request-IsSound : (b : PipeWireBridge) → IsSound b → IsSound (sync_request w r b)
  unfolding sync_request post
  sync_request-IsSound b v =
      option_ind IsSound w.sync (λ _. clear_in_flight-IsSound r b v) (λ sequence _. v)

  send_request-IsSound :
      (write : Write) (b : PipeWireBridge)
      → IsSound b
      → is_some (role_state r.role b).binding ≡ true
      → in_flight (role_state r.role b) ≡ false
      → IsSound (send_request w r write b)
  unfolding send_request post
  send_request-IsSound write b v bound still =
      let s = role_state r.role b in
      option_ind IsSound w.set_param
        (λ _. sync_request-IsSound (written write (with_state r.role (flying r.operation s) b)) (
          with_state-IsSound r.role (flying r.operation s) b v (flying-node r.operation s)
            (flying-RoleOk r.role s b.bindings (role_ok r.role b v) r.operation bound still)))
        λ message _. v

  send_volume-IsSound :
      (n : NodeBinding) (b : PipeWireBridge)
      → IsSound b
      → is_some (role_state r.role b).binding ≡ true
      → in_flight (role_state r.role b) ≡ false
      → IsSound (send_volume w r n b)
  unfolding send_volume post
  send_volume-IsSound n b v bound still =
      if_ind IsSound (not n.has_volumes || length n.visual_volumes == 0) (λ _. v)
        λ _.
          option_ind IsSound (proportional_cubic_volumes w.floats n.visual_volumes r.volume)
            (λ _. v) λ cubics _. send_request-IsSound (channel_volumes n.id cubics) b v bound still

  target_of-bound :
      (b : PipeWireBridge) (n : NodeBinding)
      → target_of (role_state r.role b) b ≡ some n
      → is_some (role_state r.role b).binding ≡ true
  target_of-bound b n e = ground arith

  pub dispatch-IsSound :
      (b : PipeWireBridge)
      → IsSound b
      → in_flight (role_state r.role b) ≡ false
      → IsSound (dispatch w r b)
  unfolding dispatch post
  dispatch-IsSound b v still =
      option_ind IsSound (target_of (role_state r.role b) b) (λ _. v)
        λ n e.
          let bound = target_of-bound b n e in
          if_ind IsSound (not (n.id == r.node_id)) (λ _. v)
            λ _.
              if_ind IsSound (is_set_volume r.operation)
                (λ _. send_volume-IsSound n b v bound still)
                (λ _. send_request-IsSound (mute n.id r.muted) b v bound still)

queue-node : (r : Request) (s : RoleState) → (queue r s).node_id ≡ s.node_id
queue-node r s = ground arith

-- The request that comes is for the node and generation of its role.
queue-RoleOk :
    (r : Request) (s : RoleState) (bs : List NodeBinding)
    → RoleOk r.role s bs
    → is_some s.binding ≡ true
    → is_for r s.node_id s.generation ≡ true
    → RoleOk r.role (queue r s) bs
queue-RoleOk r s bs ok bound current =
    if_ind (λ t. RoleOk r.role t bs) (is_set_volume r.operation)
      (λ volume. record {
        attached = Attached-same s.binding s _ bs ok.attached refl (ground arith);
        one_in_flight = ok.one_in_flight;
        volume_waits = (refl, current, volume);
        mute_waits = ok.mute_waits;
      })
      λ volume. record {
        attached = Attached-same s.binding s _ bs ok.attached refl (ground arith);
        one_in_flight = ok.one_in_flight;
        volume_waits = ok.volume_waits;
        mute_waits = (refl, current, volume);
      }

pub request-IsSound :
    (w : PipeWire) (c : Command) (b : PipeWireBridge) → IsSound b → IsSound (request w c b)
unfolding request post
request-IsSound w c b v =
    let r = make_request c in
    let s = role_state c.role b in
    if_ind IsSound (not (is_current r s) || not (is_some s.binding)) (λ _. v)
      λ live.
        if_ind IsSound (in_flight s)
          (λ _. with_state-IsSound c.role (queue r s) b v (queue-node r s) (
            queue-RoleOk r s b.bindings (role_ok c.role b v)
              (bound_of s.binding (is_current r s) live)
              (current_of s.binding (is_current r s) live)))
          λ still. dispatch-IsSound w r b v still
  where
    bound_of : (o : Option ℕ) (c : Bool) → (not c || not (is_some o)) ≡ false → is_some o ≡ true
    bound_of o c h = ground arith

    current_of : (o : Option ℕ) (c : Bool) → (not c || not (is_some o)) ≡ false → c ≡ true
    current_of o c h = ground arith

module _ (w : PipeWire) (role : Role) (b : PipeWireBridge) (v : IsSound b) where
  dequeued-IsSound :
      (s' : RoleState)
      → s'.node_id ≡ (role_state role b).node_id
      → RoleOk role s' b.bindings
      → in_flight s' ≡ false
      → (r : Request) → r.role ≡ role
      → IsSound (dispatch w r (with_state role s' b))
  dequeued-IsSound s' same ok still r e =
      dispatch-IsSound w r (with_state role s' b) (with_state-IsSound role s' b v same ok)
        (subst (λ k. in_flight (role_state k (with_state role s' b)) ≡ false) (sym e) (quiet role))
    where
      quiet : (k : Role) → in_flight (role_state k (with_state k s' b)) ≡ false
      quiet output = still
      quiet input = still

  waiting_role :
      (volume : Bool) (o : Option Request) (id : Option ℕ) (generation : ℕ) (r : Request)
      → Waits volume role id generation o
      → o ≡ some r
      → r.role ≡ role
  waiting_role volume none id generation r h e = cc
  waiting_role volume (some q) id generation r h e = ap_role q r (cc) ∙ h.0
    where
      ap_role : (q r : Request) → some q ≡ some r → r.role ≡ q.role
      ap_role q r e = cc

  pub dispatch_queued-IsSound : IsSound (dispatch_queued w role b)
  unfolding dispatch_queued
  dispatch_queued-IsSound =
      let s = role_state role b in
      let ok = role_ok role b v in
      let idle = Attached-idle s.binding s b.bindings ok.attached in
      if_ind IsSound (in_flight s) (λ _. v)
        λ still.
          option_ind IsSound s.queued_mute
            (λ _.
              option_ind IsSound s.queued_volume (λ _. v)
                λ r e.
                  dequeued-IsSound (record s { queued_volume = none }) refl
                    (record {
                      attached =
                          Attached-same s.binding s _ b.bindings ok.attached refl
                            (ground (arith, idle));
                      one_in_flight = ok.one_in_flight;
                      volume_waits = tt;
                      mute_waits = ok.mute_waits;
                    })
                    still r
                    (waiting_role true s.queued_volume s.node_id s.generation r ok.volume_waits e))
            λ r e.
              dequeued-IsSound (record s { queued_mute = none }) refl
                (record {
                  attached =
                      Attached-same s.binding s _ b.bindings ok.attached refl
                        (ground (arith, idle));
                  one_in_flight = ok.one_in_flight;
                  volume_waits = ok.volume_waits;
                  mute_waits = tt;
                })
                still r (waiting_role false s.queued_mute s.node_id s.generation r ok.mute_waits e)

module _ (w : PipeWire) (r : Request) (b : PipeWireBridge) (v : IsSound b) where
  pub begin_readback-IsSound : IsSound (begin_readback w r b)
  unfolding begin_readback post
  begin_readback-IsSound =
      let s = role_state r.role b in
      if_ind IsSound (not (is_current r s) || not (is_some s.binding))
        (λ _. clear_in_flight-IsSound r b v)
        λ _. if_ind IsSound w.enum_params (λ _. v) λ _. clear_in_flight-IsSound r _ v

  pub complete_request-IsSound : (n : NodeBinding) → IsSound (complete_request w r n b)
  unfolding complete_request
  complete_request-IsSound n =
      let s = role_state r.role b in
      if_ind IsSound (not (is_current r s) || not (points_to n.handle s)) (λ _. v)
        λ _.
          dispatch_queued-IsSound w r.role _
            (clear_in_flight-IsSound r _ (post_state-IsSound r.role n (some r) b v))
