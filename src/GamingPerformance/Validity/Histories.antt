-- ===== src/GamingPerformance/Validity/Histories.antt =====
-- The slots, and histories of signals.
use nagi_shell.Prelude.{
  ℕ, ◌≡◌, refl, ◌∙◌, Bool, true, false, not, ◌&&◌, ◌||◌, Option, none, some, List, [], ◌∷◌, ◌==◌,
  length, list_eq, if◌then◌else◌, if_ind, option_ind, arith,
}
use nagi_shell.Prelude.Result.{Result, ok, err}
use nagi_shell.Notifications.Text.{QString, literal}
use nagi_shell.Bytes.{Bytes}
use nagi_shell.Json.{Fields, string, end, field}
use nagi_shell.GamingPerformance.{
  Variant, PowerEndpoint, available, is_empty, Buses, GamingPerformanceObserver,
  read_game_client_count, is_performance, valid_profile, publish, publish_state, diagnose,
}
use nagi_shell.GamingPerformance.Attachments.{
  game_service, owner_of, no_endpoint, detach_game, attach_game, preferred_power_endpoint,
  same_endpoint, detach_power, attach_power,
}
use nagi_shell.GamingPerformance.Events.{
  event_of, announced_profile, same_flag, source_unavailable, snapshot, on_game_event,
  on_game_owner_changed, change_profile, announce, on_power_properties_changed, follow_owner,
  switch_endpoint, on_power_owner_changed, attach_session_bus, attach_system_bus, initial,
  initialize, start, Event, game_event, game_owner_changed, power_properties_changed,
  power_owner_changed, step, run,
}
use nagi_shell.GamingPerformance.Refinement.{attach_game-SamePower}
use nagi_shell.GamingPerformance.Validity.{
  IsSound, read_game_client_count-le, diagnose-IsSound, publish_state-IsSound, detach_game-IsSound,
  detach_power-IsSound, attach_game-IsSound, attach_power-IsSound,
}

-- A sound observer without an owner of GameMode, or without an endpoint.
abbrev Ownerless : GamingPerformanceObserver → Type 0
Ownerless x = IsSound x × (x.game_owner ≡ [])

abbrev Unpowered : GamingPerformanceObserver → Type 0
Unpowered x = IsSound x × (x.power_endpoint ≡ no_endpoint)

module _ (to_json : Fields → Bytes) (w : Buses) (s : GamingPerformanceObserver)
    (v : IsSound s) where
  counted-IsSound :
      (n : ℕ)
      → read_game_client_count w ≡ some n
      → is_empty s.game_owner ≡ false
      → IsSound (record s { game_client_count = n })
  counted-IsSound n read owner = record {
    game = ground (arith, v.game, read_game_client_count-le w n read);
    power = v.power;
    diagnosed = v.diagnosed;
  }

  on_game_event-IsSound :
      (member : QString) (arguments : List Variant)
      → IsSound (on_game_event to_json w member arguments s)
  unfolding on_game_event
  on_game_event-IsSound member arguments =
      if_ind IsSound
        (is_empty (event_of member) || not (length arguments == 2) || is_empty s.game_owner)
        (λ _. diagnose-IsSound s v _)
        λ e.
          option_ind IsSound (read_game_client_count w) (λ _. diagnose-IsSound s v _)
            λ n read.
              publish_state-IsSound (record s { game_client_count = n })
                (counted-IsSound n read
                  (third (is_empty (event_of member)) _ (is_empty s.game_owner) e))
                to_json (event_of member) true
    where
      third : (a b c : Bool) → (a || b || c) ≡ false → c ≡ false
      third a b c h = ground arith

  reattach_game-IsSound :
      (new : QString) (x : GamingPerformanceObserver)
      → Ownerless x
      → IsSound (if is_empty new then x else attach_game w new x)
  reattach_game-IsSound new x o =
      if_ind IsSound (is_empty new) (λ _. o.0) (λ _. attach_game-IsSound x o.0 w new o.1)

  reattach_power-IsSound :
      (e : PowerEndpoint) (x : GamingPerformanceObserver)
      → Unpowered x
      → IsSound (if available e then attach_power w e x else x)
  reattach_power-IsSound e x o =
      if_ind IsSound (available e) (λ _. attach_power-IsSound x o.0 w e o.1) (λ _. o.0)

  on_game_owner_changed-IsSound :
      (old new : QString) → IsSound (on_game_owner_changed to_json w old new s)
  unfolding on_game_owner_changed publish_state detach_game
  on_game_owner_changed-IsSound old new =
      let s1 = record (detach_game s) { game_client_count = 0 } in
      let s2 = if is_empty old then s1 else publish_state to_json source_unavailable true s1 in
      let u = detach_game-IsSound s v in
      if_ind IsSound (list_eq old new || (is_empty old && list_eq new s.game_owner)) (λ _. v)
        λ _.
          publish_state-IsSound (if is_empty new then s2 else attach_game w new s2)
            (reattach_game-IsSound new s2 (
              if_ind Ownerless (is_empty old) (λ _. (u, refl))
                (λ _. (publish_state-IsSound s1 u to_json source_unavailable true, refl))))
            to_json snapshot false

  change_profile-IsSound :
      (profile : QString)
      → available s.power_endpoint ≡ true
      → IsSound (change_profile to_json profile s)
  unfolding change_profile
  change_profile-IsSound profile there =
      let s' = record s { performance_profile = is_performance profile } in
      if_ind IsSound (not (valid_profile profile)) (λ _. diagnose-IsSound s v _)
        λ _.
          if_ind IsSound (same_flag (is_performance profile) s.performance_profile) (λ _. v)
            λ _.
              publish_state-IsSound s'
                (record { game = v.game; power = ground (arith, v.power); diagnosed = v.diagnosed })
                to_json (literal "profile") true

  on_power_properties_changed-IsSound :
      (interface : QString) (changed : List (QString × Variant)) (invalidated : List QString)
      → IsSound (on_power_properties_changed to_json w interface changed invalidated s)
  unfolding on_power_properties_changed
  on_power_properties_changed-IsSound interface changed invalidated =
      if_ind IsSound
        (not (available s.power_endpoint) || not (list_eq interface s.power_endpoint.interface))
        (λ _. v)
        λ e.
          announced (announced_profile w s.power_endpoint changed invalidated)
            (first (available s.power_endpoint) _ e)
    where
      first : (a b : Bool) → (not a || b) ≡ false → a ≡ true
      first a b h = ground arith

      announced :
          (r : Option (Result QString QString))
          → available s.power_endpoint ≡ true
          → IsSound (announce to_json r s)
      announced none there = v
      announced (some (err m)) there = diagnose-IsSound s v m
      announced (some (ok profile)) there = change_profile-IsSound profile there

  follow_owner-IsSound :
      (next : PowerEndpoint) (old : QString) → IsSound (follow_owner to_json w next old s)
  unfolding follow_owner publish_state detach_power
  follow_owner-IsSound next old =
      let s1 = record (detach_power s) { performance_profile = false } in
      let s2 = if is_empty old then s1 else publish_state to_json source_unavailable true s1 in
      let u = detach_power-IsSound s v in
      publish_state-IsSound (if available next then attach_power w next s2 else s2)
        (reattach_power-IsSound next s2 (
          if_ind Unpowered (is_empty old) (λ _. (u, refl))
            (λ _. (publish_state-IsSound s1 u to_json source_unavailable true, refl))))
        to_json snapshot false

  switch_endpoint-IsSound : (next : PowerEndpoint) → IsSound (switch_endpoint to_json w next s)
  unfolding switch_endpoint detach_power
  switch_endpoint-IsSound next =
      let s1 = record (detach_power s) { performance_profile = false } in
      let s2 = if available next then attach_power w next s1 else s1 in
      let lost = available s.power_endpoint && not (available next) in
      let s3 = if lost then publish_state to_json source_unavailable true s2 else s2 in
      let u = reattach_power-IsSound next s1 (detach_power-IsSound s v, refl) in
      publish_state-IsSound s3
        (if_ind IsSound lost (λ _. publish_state-IsSound s2 u to_json source_unavailable true)
          (λ _. u))
        to_json snapshot false

  on_power_owner_changed-IsSound :
      (service old new : QString) → IsSound (on_power_owner_changed to_json w service old new s)
  unfolding on_power_owner_changed
  on_power_owner_changed-IsSound service old new =
      let e = s.power_endpoint in
      let next = preferred_power_endpoint w in
      if_ind IsSound (list_eq old new) (λ _. v)
        λ _.
          if_ind IsSound (not (same_endpoint next e)) (λ _. switch_endpoint-IsSound next)
            λ _.
              if_ind IsSound (not (list_eq e.owner next.owner) && list_eq service e.service)
                (λ _. follow_owner-IsSound next old) (λ _. v)

module _ (w : Buses) (s : GamingPerformanceObserver) (v : IsSound s) where
  attach_session_bus-IsSound :
      s.game_owner ≡ []
      → s.power_endpoint ≡ no_endpoint
      → IsSound (attach_session_bus w s) × ((attach_session_bus w s).power_endpoint ≡ no_endpoint)
  unfolding attach_session_bus diagnose
  attach_session_bus-IsSound g e =
      let name = owner_of (w.session_owner game_service) in
      if_ind Unpowered (not w.session_connected) (λ _. (diagnose-IsSound s v _, e))
        λ _.
          if_ind Unpowered (is_empty name) (λ _. (v, e))
            λ _. (attach_game-IsSound s v w name g, (attach_game-SamePower w name s).0 ∙ e)

  attach_system_bus-IsSound : s.power_endpoint ≡ no_endpoint → IsSound (attach_system_bus w s)
  unfolding attach_system_bus
  attach_system_bus-IsSound e =
      let next = preferred_power_endpoint w in
      if_ind IsSound (not w.system_connected) (λ _. diagnose-IsSound s v _)
        λ _. if_ind IsSound (available next) (λ _. attach_power-IsSound s v w next e) (λ _. v)

module _ (to_json : Fields → Bytes) where
  initialize-IsSound :
      (w : Buses) (s : GamingPerformanceObserver)
      → IsSound s
      → s.game_owner ≡ []
      → s.power_endpoint ≡ no_endpoint
      → IsSound (initialize to_json w s)
  unfolding initialize
  initialize-IsSound w s v g e =
      let s1 = attach_session_bus w s in
      let u = attach_session_bus-IsSound w s v g e in
      publish_state-IsSound (attach_system_bus w s1) (attach_system_bus-IsSound w s1 u.0 u.1)
        to_json snapshot true

  start-IsSound : (w : Buses) → IsSound (start to_json w)
  unfolding start initial
  start-IsSound w =
      let s = record initial {
        output =
            publish to_json (field (literal "type") (string (literal "ready")) end) true
              initial.output;
      } in
      initialize-IsSound w s
        (record {
          game = (omega arith, refl, refl, refl);
          power = (refl, refl);
          diagnosed = (refl, omega arith);
        })
        refl refl

  step-IsSound :
      (w : Buses) (e : Event) (s : GamingPerformanceObserver)
      → IsSound s
      → IsSound (step to_json w e s)
  unfolding step
  step-IsSound w (game_event member arguments) s v =
      on_game_event-IsSound to_json w s v member arguments
  step-IsSound w (game_owner_changed old new) s v =
      on_game_owner_changed-IsSound to_json w s v old new
  step-IsSound w (power_properties_changed interface changed invalidated) s v =
      on_power_properties_changed-IsSound to_json w s v interface changed invalidated
  step-IsSound w (power_owner_changed service old new) s v =
      on_power_owner_changed-IsSound to_json w s v service old new

  run-IsSound :
      (h : List (Buses × Event)) (s : GamingPerformanceObserver)
      → IsSound s
      → IsSound (run to_json h s)
  unfolding run
  run-IsSound [] s v = v
  run-IsSound ((w, e) ∷ rest) s v = run-IsSound rest (step to_json w e s) (step-IsSound w e s v)

  -- After initialize and any history of signals, whatever the buses answer: at most 1000000 clients are
  -- counted, and none without an owner of GameMode; with an owner both signals of GameMode are connected,
  -- and without one the second is not; the signal of the profiles is connected for exactly the service of
  -- the endpoint, and not without one; the performance profile is held only with an endpoint; and at most
  -- eight diagnostics are printed.
  pub run-start-IsSound :
      (w : Buses) (h : List (Buses × Event)) → IsSound (run to_json h (start to_json w))
  run-start-IsSound w h = run-IsSound h (start to_json w) (start-IsSound w)
