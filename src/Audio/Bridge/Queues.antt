-- ===== src/Audio/Bridge/Queues.antt =====
-- Requests that come while another is on its way, and what becomes of those that wait.
use nagi_shell.Prelude.{
  ℕ, ◌≡◌, refl, sym, ap, subst, ◌∙◌, Bool, true, false, not, ◌||◌, Option, none, some, is_some,
  List, [], ◌∷◌, ◌++◌, ◌==◌, if◌then◌else◌, map, length, arith, if_ind, option_ind,
}
use nagi_shell.Audio.Protocol.{Role, output, input, set_volume, Command}
use nagi_shell.Audio.Volume.{proportional_cubic_volumes}
use nagi_shell.Notifications.Text.{QString}
use nagi_shell.Audio.Bridge.{
  Request, RoleState, PipeWireBridge, PipeWire, Reason, stale, not_ready, invalid_state, backend,
  failure, role_state, with_state, Write, channel_volumes, mute,
}
use nagi_shell.Audio.Bridge.Bindings.{post}
use nagi_shell.Audio.Bridge.Requests.{
  in_flight, send_request, send_volume, target_of, dispatch, make_request, is_current, request,
  dispatch_queued, is_set_volume,
}
use nagi_shell.Audio.Bridge.Outcomes.{role_state-with_state}

-- The commands in their order, with the same answers of PipeWire for each.
unfoldable pub serve : PipeWire → List Command → PipeWireBridge → PipeWireBridge
serve w [] b = b
serve w (c ∷ rest) b = serve w rest (request w c b)

-- The command as one for the volume of a role at a node and generation.
abbrev pub asking : Role → ℕ → ℕ → Command → Command
asking role id generation c = record c {
  operation = set_volume;
  role = role;
  node_id = id;
  generation = generation;
}

abbrev pub volume_waiting : Command → RoleState → RoleState
volume_waiting c s = record s { queued_volume = some (make_request c) }

with_state-with_state :
    (role : Role) (s t : RoleState) (b : PipeWireBridge)
    → with_state role t (with_state role s b) ≡ with_state role t b
with_state-with_state output s t b = refl
with_state-with_state input s t b = refl

-- The second of three branches.
second {ℓ} :
    {A : Type ℓ} (p q : Bool) (x y z : A)
    → p ≡ false
    → q ≡ true
    → (if p then x else if q then y else z) ≡ y
second true q x y z h e = elim (clash h) [ ]
  where
    clash : true ≡ false → ⊥
    clash h = cc
second false true x y z h e = refl
second false false x y z h e = elim (clash e) [ ]
  where
    clash : false ≡ true → ⊥
    clash h = cc

module _ (w : PipeWire) (role : Role) (id generation : ℕ) where
  abbrev Busy : RoleState → Type 0
  Busy s =
      (s.node_id ≡ some id)
      × (s.generation ≡ generation)
      × (is_some s.binding ≡ true)
      × (in_flight s ≡ true)

  Busy-current :
      (c : Command) (s : RoleState)
      → Busy s
      → (not (is_current (make_request (asking role id generation c)) s) || not (is_some s.binding))
        ≡ false
  Busy-current c s busy = ground (arith, busy.0, busy.1, busy.2)

  request-queues :
      (c : Command) (b : PipeWireBridge)
      → Busy (role_state role b)
      → request w (asking role id generation c) b
        ≡ with_state role (volume_waiting (asking role id generation c) (role_state role b)) b
  unfolding request
  request-queues c b busy =
      let s = role_state role b in
      let r = make_request (asking role id generation c) in
      second (not (is_current r s) || not (is_some s.binding)) (in_flight s) _ _ _
        (Busy-current c s busy) busy.3

  serve-queues :
      (c : Command) (cs : List Command) (b : PipeWireBridge) (s : RoleState)
      → role_state role b ≡ s
      → Busy s
      → serve w (map (asking role id generation) (cs ++ (c ∷ []))) b
        ≡ with_state role (volume_waiting (asking role id generation c) s) b
  unfolding serve
  serve-queues c [] b s e busy =
      request-queues c b (subst Busy (sym e) busy)
      ∙ ap (λ t. with_state role (volume_waiting (asking role id generation c) t) b) e
  serve-queues c (d ∷ cs) b s e busy =
      let s1 = volume_waiting (asking role id generation d) s in
      let b1 = with_state role s1 b in
      ap (serve w (map (asking role id generation) (cs ++ (c ∷ [])))) (
        request-queues d b (subst Busy (sym e) busy)
        ∙ ap (λ t. with_state role (volume_waiting (asking role id generation d) t) b) e)
      ∙ serve-queues c cs b1 s1 (role_state-with_state role s1 b) busy
      ∙ with_state-with_state role s1 (volume_waiting (asking role id generation c) s) b

  -- While a request of a role is on its way, a burst of volume requests for the node and generation that
  -- the role tracks leaves only the last of them waiting, and changes nothing else.
  pub serve_lem :
      (c : Command) (cs : List Command) (b : PipeWireBridge)
      → Busy (role_state role b)
      → serve w (map (asking role id generation) (cs ++ (c ∷ []))) b
        ≡ with_state role (volume_waiting (asking role id generation c) (role_state role b)) b
  serve_lem c cs b busy = serve-queues c cs b (role_state role b) refl busy

module _ (w : PipeWire) (r : Request) (b : PipeWireBridge) (message : QString)
    (refuses : w.set_param ≡ some message) where
  abbrev Refused : PipeWireBridge → Type 0
  Refused b' =
      (reason : Reason) × (ws : List Write) × (b'
        ≡ post (failure r reason) (record b { writes = ws }))

  send_request-Refused : (write : Write) → Refused (send_request w r write b)
  unfolding send_request
  send_request-Refused write =
      option_ind Refused w.set_param (λ e. elim (clash w.set_param e refuses) [ ])
        λ m _. (backend m, write ∷ b.writes, refl)
    where
      clash : (o : Option QString) → o ≡ none → o ≡ some message → ⊥
      clash o h e = cc

  dispatch-Refused : Refused (dispatch w r b)
  unfolding dispatch send_volume
  dispatch-Refused =
      option_ind Refused (target_of (role_state r.role b) b) (λ _. (stale, b.writes, refl))
        λ n _.
          if_ind Refused (not (n.id == r.node_id)) (λ _. (stale, b.writes, refl))
            λ _.
              if_ind Refused (is_set_volume r.operation)
                (λ _.
                  if_ind Refused (not n.has_volumes || length n.visual_volumes == 0)
                    (λ _. (not_ready, b.writes, refl))
                    λ _.
                      option_ind Refused
                        (proportional_cubic_volumes w.floats n.visual_volumes r.volume)
                        (λ _. (invalid_state, b.writes, refl))
                        λ cubics _. send_request-Refused (channel_volumes n.id cubics))
                (λ _. send_request-Refused (mute n.id r.muted))

-- When PipeWire refuses the mute request that waited for a free role, its failure is reported and nothing
-- else changes but what was written: a volume request that waits too still waits, though nothing of the role is on its way.
pub dispatch_queued-refused :
    (w : PipeWire) (role : Role) (b : PipeWireBridge) (r : Request) (message : QString)
    → w.set_param ≡ some message
    → in_flight (role_state role b) ≡ false
    → (role_state role b).queued_mute ≡ some r
    → (reason : Reason) × (ws : List Write) × (dispatch_queued w role b
        ≡ post
            (failure r reason)
            (record (with_state role (record (role_state role b) { queued_mute = none }) b) {
              writes = ws;
            }))
unfolding dispatch_queued
dispatch_queued-refused w role b r message refuses still waits =
    let s = role_state role b in
    let b1 = with_state role (record s { queued_mute = none }) b in
    if_ind P (in_flight s) (λ h. elim (clash (in_flight s) h still) [ ])
      λ _.
        option_ind P s.queued_mute (λ e. elim (clash_none s.queued_mute e waits) [ ])
          λ q e.
            subst (λ k. P (dispatch w k b1)) (some_injective r q (sym waits ∙ e))
              (dispatch-Refused w r b1 message refuses)
  where
    P : PipeWireBridge → Type 0
    P b' =
        (reason : Reason) × (ws : List Write) × (b'
          ≡ post (failure r reason)
              (record (with_state role (record (role_state role b) { queued_mute = none }) b) {
                writes = ws;
              }))

    clash : (p : Bool) → p ≡ true → p ≡ false → ⊥
    clash p h e = cc

    clash_none : (o : Option Request) → o ≡ none → o ≡ some r → ⊥
    clash_none o h e = cc

    some_injective : (q t : Request) → some q ≡ some t → q ≡ t
    some_injective q t e = cc
