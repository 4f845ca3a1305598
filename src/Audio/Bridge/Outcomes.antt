-- ===== src/Audio/Bridge/Outcomes.antt =====
-- What becomes of a request: its outcomes, a burst of requests, and the binding it is sent to.
use nagi_shell.Prelude.{
  ℕ, ◌≡◌, ◌≢◌, ◌⊎◌, inl, inr, refl, sym, subst, ap, ◌∙◌, Bool, true, false, not, ◌||◌, Option, none,
  some, is_some, List, [], ◌∷◌, ◌==◌, length, arith, if_ind, option_ind,
}
use nagi_shell.Audio.Protocol.{
  Role, output, input, Operation, set_volume, set_mute, track, untrack, shutdown,
}
use nagi_shell.Audio.Volume.{proportional_cubic_volumes}
use nagi_shell.Audio.Bridge.{
  Request, NodeBinding, RoleState, PipeWireBridge, PipeWire, Reason, stale, not_ready,
  invalid_state, sync_failed, readback_failed, backend, failure, Message, Write, channel_volumes,
  mute, role_state, with_state,
}
use nagi_shell.Audio.Bridge.Bindings.{post, find_binding}
use nagi_shell.Audio.Bridge.Bindings.Entries.{
  owner, owner-find_binding, at_handle-owner, find_binding-id, Below,
}
use nagi_shell.Audio.Bridge.Requests.{
  in_flight, cleared, clear_in_flight, flying, written, assign, find_request, sync_request,
  send_request, send_volume, target_of, pointed, dispatch, is_current, is_set_volume,
}
use nagi_shell.Audio.Bridge.Validity.{IsSound, Owned, Attached, role_ok}

-- Why a request fails: the role points to no binding of the request's node; the binding has no volumes,
-- or none that new ones can be made of; or PipeWire refused the write or the synchronisation.
abbrev pub Cause : PipeWire → Request → PipeWireBridge → Reason → Type 0
Cause w r b stale =
    (n : NodeBinding) → target_of (role_state r.role b) b ≡ some n → n.id ≢ r.node_id
Cause w r b not_ready =
    (n : NodeBinding) × ((target_of (role_state r.role b) b ≡ some n)
      × (r.operation ≡ set_volume)
      × ((n.has_volumes ≡ false) ⊎ (length n.visual_volumes ≡ 0)))
Cause w r b invalid_state =
    (n : NodeBinding) × ((target_of (role_state r.role b) b ≡ some n)
      × (r.operation ≡ set_volume)
      × (proportional_cubic_volumes w.floats n.visual_volumes r.volume ≡ none))
Cause w r b sync_failed = (w.set_param ≡ none) × (w.sync ≡ none)
Cause w r b readback_failed = ⊥
Cause w r b (backend message) = w.set_param ≡ some message

-- The request failed with its cause, and the role is free; or PipeWire took what was written to the request's node and
-- gave a sequence, under which the request is found.
abbrev pub Failed : PipeWire → Request → PipeWireBridge → PipeWireBridge → Reason → Type 0
Failed w r b b' reason =
    Cause w r b reason
    × (b'.posts ≡ failure r reason ∷ b.posts)
    × (in_flight (role_state r.role b') ≡ false)

abbrev pub IsFor : Request → Write → Type 0
IsFor r (channel_volumes id cubics) = (id ≡ r.node_id) × (r.operation ≡ set_volume)
IsFor r (mute id muted) = (id ≡ r.node_id) × (muted ≡ r.muted)

abbrev pub Sent : PipeWire → Request → PipeWireBridge → PipeWireBridge → ℕ → Write → Type 0
Sent w r b b' sequence write =
    (w.set_param ≡ none)
    × (w.sync ≡ some sequence)
    × (b'.writes ≡ write ∷ b.writes)
    × IsFor r write
    × (b'.posts ≡ b.posts)
    × (in_flight (role_state r.role b') ≡ true)
    × (find_request sequence b'.sync_requests ≡ some r)

abbrev pub Outcome : PipeWire → Request → PipeWireBridge → PipeWireBridge → Type 0
Outcome w r b b' =
    ((reason : Reason) × Failed w r b b' reason)
    ⊎ ((sequence : ℕ) × ((write : Write) × Sent w r b b' sequence write))

find_request-assign :
    (key : ℕ) (r : Request) (rs : List (ℕ × Request)) → find_request key (assign key r rs) ≡ some r
unfolding find_request assign
find_request-assign key r [] = ground arith
find_request-assign key r ((k, q) ∷ rest) = ground (arith, find_request-assign key r rest)

pub role_state-with_state :
    (role : Role) (s : RoleState) (b : PipeWireBridge) → role_state role (with_state role s b) ≡ s
role_state-with_state output s b = refl
role_state-with_state input s b = refl

posts-with_state :
    (role : Role) (s : RoleState) (b : PipeWireBridge) → (with_state role s b).posts ≡ b.posts
posts-with_state output s b = refl
posts-with_state input s b = refl

writes-with_state :
    (role : Role) (s : RoleState) (b : PipeWireBridge) → (with_state role s b).writes ≡ b.writes
writes-with_state output s b = refl
writes-with_state input s b = refl

same_id : (n k : ℕ) → not (n == k) ≡ false → n ≡ k
same_id n k h = ground (arith, h)

sets_volume : (op : Operation) → is_set_volume op ≡ true → op ≡ set_volume
sets_volume set_volume h = refl
sets_volume set_mute h = absurd (cc)
sets_volume track h = absurd (cc)
sets_volume untrack h = absurd (cc)
sets_volume shutdown h = absurd (cc)

posts-clear_in_flight : (r : Request) (b : PipeWireBridge) → (clear_in_flight r b).posts ≡ b.posts
unfolding clear_in_flight
posts-clear_in_flight r b =
    if_ind (λ (b' : PipeWireBridge). b'.posts ≡ b.posts) (is_current r (role_state r.role b))
      (λ _. posts-with_state r.role (cleared r.operation (role_state r.role b)) b) (λ _. refl)

-- The operations that are requests.
abbrev pub is_request : Operation → Bool
is_request set_volume = true
is_request set_mute = true
is_request _ = false

in_flight-cleared :
    (op : Operation) (s : RoleState)
    → is_request op ≡ true
    → in_flight s ≡ false
    → in_flight (cleared op (flying op s)) ≡ false
in_flight-cleared set_volume s e still = ground arith
in_flight-cleared set_mute s e still = ground arith
in_flight-cleared track s e still = cc
in_flight-cleared untrack s e still = cc
in_flight-cleared shutdown s e still = cc

in_flight-flying :
    (op : Operation) (s : RoleState)
    → (in_flight (flying op s) ≡ true)
      × ((r : Request) → is_current r (flying op s) ≡ is_current r s)
in_flight-flying set_volume s = (ground arith, λ r. refl)
in_flight-flying op s = (ground arith, λ r. refl)

clear_in_flight-free :
    (r : Request) (b1 : PipeWireBridge) (s : RoleState)
    → role_state r.role b1 ≡ s
    → is_current r s ≡ true
    → in_flight (cleared r.operation s) ≡ false
    → in_flight (role_state r.role (clear_in_flight r b1)) ≡ false
unfolding clear_in_flight
clear_in_flight-free r b1 s same current free =
    if_ind (λ (b' : PipeWireBridge). in_flight (role_state r.role b') ≡ false)
      (is_current r (role_state r.role b1))
      (λ _.
        ap in_flight (role_state-with_state r.role (cleared r.operation (role_state r.role b1)) b1)
        ∙ ap (λ t. in_flight (cleared r.operation t)) same
        ∙ free)
      λ e. absurd (sym e ∙ ap (is_current r) same ∙ current)
  where
    absurd : false ≡ true → in_flight (role_state r.role b1) ≡ false
    absurd h = cc

-- What is printed, written or awaited is no part of a role's state.
role_state-posts :
    (role : Role) (b : PipeWireBridge) (posts : List Message)
    → role_state role (record b { posts = posts }) ≡ role_state role b
role_state-posts output b posts = refl
role_state-posts input b posts = refl

role_state-writes :
    (role : Role) (b : PipeWireBridge) (writes : List Write)
    → role_state role (record b { writes = writes }) ≡ role_state role b
role_state-writes output b writes = refl
role_state-writes input b writes = refl

role_state-sync_requests :
    (role : Role) (b : PipeWireBridge) (requests : List (ℕ × Request))
    → role_state role (record b { sync_requests = requests }) ≡ role_state role b
role_state-sync_requests output b requests = refl
role_state-sync_requests input b requests = refl

module _ (w : PipeWire) (r : Request) (b : PipeWireBridge) (asks : is_request r.operation ≡ true)
    (current : is_current r (role_state r.role b) ≡ true)
    (still : in_flight (role_state r.role b) ≡ false) where
  refused :
      (write : Write) (reason : Reason)
      → Cause w r b reason
      → Outcome w r b (post (failure r reason) (written write b))
  unfolding post
  refused write reason cause =
      let b1 = written write b in
      inl (
        reason,
        (
          cause,
          refl,
          ap in_flight (role_state-posts r.role b1 (failure r reason ∷ b.posts))
              ∙ ap in_flight (role_state-writes r.role b (write ∷ b.writes))
              ∙ still,
        ),
      )

  failed : (reason : Reason) → Cause w r b reason → Outcome w r b (post (failure r reason) b)
  unfolding post
  failed reason cause = inl (
    reason,
    (cause, refl, ap in_flight (role_state-posts r.role b (failure r reason ∷ b.posts)) ∙ still),
  )

  sync_request-Outcome :
      (write : Write)
      → IsFor r write
      → w.set_param ≡ none
      → Outcome w r b (
          sync_request w r
            (written write (with_state r.role (flying r.operation (role_state r.role b)) b)))
  unfolding sync_request post
  sync_request-Outcome write fits taken =
      let s = role_state r.role b in
      let s' = flying r.operation s in
      let b0 = with_state r.role s' b in
      let b1 = written write b0 in
      let same =
        role_state-writes r.role b0 (write ∷ b0.writes) ∙ role_state-with_state r.role s' b in
      let b2 = clear_in_flight r b1 in
      let flies = in_flight-flying r.operation s in
      option_ind (Outcome w r b) w.sync
        (λ lost. inl (
          sync_failed,
          (
            (taken, lost),
            ap (λ l. failure r sync_failed ∷ l)
                (posts-clear_in_flight r b1 ∙ posts-with_state r.role s' b),
            ap in_flight (role_state-posts r.role b2 (failure r sync_failed ∷ b2.posts))
                ∙ clear_in_flight-free r b1 s' same (flies.1 r ∙ current)
                    (in_flight-cleared r.operation s asks still),
          ),
        ))
        λ sequence gave. inr (
          sequence,
          (
            write,
            (
              taken,
              gave,
              ap (λ l. write ∷ l) (writes-with_state r.role s' b),
              fits,
              posts-with_state r.role s' b,
              ap in_flight (role_state-sync_requests r.role b1 (assign sequence r b1.sync_requests))
                  ∙ ap in_flight same
                  ∙ flies.0,
              find_request-assign sequence r b1.sync_requests,
            ),
          ),
        )

  send_request-Outcome : (write : Write) → IsFor r write → Outcome w r b (send_request w r write b)
  unfolding send_request
  send_request-Outcome write fits =
      option_ind (Outcome w r b) w.set_param (λ taken. sync_request-Outcome write fits taken)
        λ message error. refused write (backend message) error

  other_node :
      (n m : NodeBinding)
      → not (n.id == r.node_id) ≡ true
      → target_of (role_state r.role b) b ≡ some n
      → target_of (role_state r.role b) b ≡ some m
      → m.id ≢ r.node_id
  other_node n m e f g same = differs n.id r.node_id e (ap node_id_of (sym f ∙ g) ∙ same)
    where
      node_id_of : Option NodeBinding → ℕ
      node_id_of none = n.id
      node_id_of (some k) = k.id

      differs : (i j : ℕ) → not (i == j) ≡ true → i ≢ j
      differs i j h k = ground (arith, h, k)

  empty : (a : Bool) (k : ℕ) → (not a || k == 0) ≡ true → (a ≡ false) ⊎ (k ≡ 0)
  empty a k h = ground (arith, h)

  send_volume-Outcome :
      (n : NodeBinding)
      → n.id ≡ r.node_id
      → r.operation ≡ set_volume
      → target_of (role_state r.role b) b ≡ some n
      → Outcome w r b (send_volume w r n b)
  unfolding send_volume
  send_volume-Outcome n same volume target =
      if_ind (Outcome w r b) (not n.has_volumes || length n.visual_volumes == 0)
        (λ e.
          failed not_ready (n, (target, volume, empty n.has_volumes (length n.visual_volumes) e)))
        λ _.
          option_ind (Outcome w r b) (proportional_cubic_volumes w.floats n.visual_volumes r.volume)
            (λ e. failed invalid_state (n, (target, volume, e)))
            λ cubics _. send_request-Outcome (channel_volumes n.id cubics) (same, volume)

  -- A request for a free role of its node and generation: either exactly one failure is reported, that of
  -- the request, with a reason that applies, and the role is free again; or nothing is reported, PipeWire
  -- took one write to the request's node, the role is marked as having a request in flight, and the
  -- request is found under the sequence that pw_core_sync gave. The reasons: the role points to no binding
  -- of the request's node; the binding has no volumes, or none that new ones can be made of; or
  -- PipeWire refused the write or the synchronisation.
  pub dispatch-Outcome : Outcome w r b (dispatch w r b)
  unfolding dispatch
  dispatch-Outcome =
      option_ind (Outcome w r b) (target_of (role_state r.role b) b)
        (λ e. failed stale (λ n h. absurd (cc)))
        λ n target.
          if_ind (Outcome w r b) (not (n.id == r.node_id))
            (λ e. failed stale (λ m h. other_node n m e target h))
            λ other.
              let same : n.id ≡ r.node_id = same_id n.id r.node_id other in
              if_ind (Outcome w r b) (is_set_volume r.operation)
                (λ volume. send_volume-Outcome n same (sets_volume r.operation volume) target)
                (λ _. send_request-Outcome (mute n.id r.muted) (same, refl))

abbrev Target : Option ℕ → Option ℕ → List NodeBinding → Type 0
Target o m bs = (n : NodeBinding) × ((pointed o bs ≡ some n) × (m ≡ some n.id))

unowned : (id h : ℕ) (bs : List NodeBinding) → owner id bs ≡ some h → find_binding id bs ≡ none → ⊥
unowned id h bs own e = ground (arith, own, e, owner-find_binding id bs)

found :
    (next h id : ℕ) (bs : List NodeBinding) (o : Option NodeBinding)
    → Below next bs
    → owner id bs ≡ some h
    → find_binding id bs ≡ o
    → Target (some h) (some id) bs
found next h id bs none below own e = elim (unowned id h bs own e) [ ]
found next h id bs (some n) below own e =
    (n, (at_handle-owner next id h bs below own ∙ e, ap some (sym (find_binding-id id bs n e))))

pointed-Attached :
    (o m : Option ℕ) (s : RoleState) (next : ℕ) (bs : List NodeBinding)
    → Below next bs
    → Attached o s bs
    → s.node_id ≡ m
    → is_some o ≡ true
    → Target o m bs
pointed-Attached none m s next bs below a e bound = elim (impossible bound) [ ]
  where
    impossible : false ≡ true → ⊥
    impossible h = cc
pointed-Attached (some h) none s next bs below a e bound = elim (subst (λ m. Owned m bs h) e a) [ ]
pointed-Attached (some h) (some id) s next bs below a e bound =
    found next h id bs (find_binding id bs) below (subst (λ m. Owned m bs h) e a) refl

-- In a valid state a role's pointer, where it has one, leads to the binding of the role's own node.
target_of-IsSound :
    (role : Role) (b : PipeWireBridge)
    → IsSound b
    → is_some (role_state role b).binding ≡ true
    → (n : NodeBinding) × ((target_of (role_state role b) b ≡ some n)
        × ((role_state role b).node_id ≡ some n.id))
target_of-IsSound role b v bound =
    let s = role_state role b in
    pointed-Attached s.binding s.node_id s b.next_handle b.bindings v.below
      (role_ok role b v).attached refl bound
