-- ===== src/GamingPerformance/Refinement/Histories.antt =====
-- initialize, and histories of signals, against the steps of the sources.
use nagi_shell.Prelude.{
  ℕ, ◌≡◌, refl, sym, ap, ◌∙◌, subst, Bool, true, false, not, Option, none, some, is_some, List, [],
  ◌∷◌, if◌then◌else◌,
}
use nagi_shell.Notifications.Text.{QString, literal}
use nagi_shell.Bytes.{Bytes}
use nagi_shell.Json.{Fields, string, end, field}
use nagi_shell.GamingPerformance.{
  PowerEndpoint, available, is_empty, Buses, GamingPerformanceObserver, diagnose, publish,
}
use nagi_shell.GamingPerformance.Attachments.{
  game_service, owner_of, no_endpoint, attach_game, preferred_power_endpoint, attach_power,
}
use nagi_shell.GamingPerformance.Events.{
  snapshot, initial, attach_session_bus, attach_system_bus, initialize, start, Event, game_event,
  game_owner_changed, power_properties_changed, power_owner_changed, step, run,
}
use nagi_shell.GamingPerformance.Sources
use nagi_shell.GamingPerformance.Sources.{
  Sources, find_game, find_power, owner_in, endpoint_in, clients_in, performance_in, message,
  is_game_event, count_clients, follow_game, accept_profile, hear_profile, concerns, follow_power,
}
use nagi_shell.GamingPerformance.Refinement.{
  Game, Power, GameOf, PowerOf, attach_game-Game, attach_game-SamePower, attach_power-Power,
  attach_power-SameGame, attach_game-empty, attach_power-unavailable, shown, Tracks, latest,
  publish_state-Tracks,
}
use nagi_shell.GamingPerformance.Refinement.Clients.{
  on_game_event-Tracks, on_game_owner_changed-Tracks,
}
use nagi_shell.GamingPerformance.Refinement.Profiles.{hear-Tracks, on_power_owner_changed-Tracks}

-- A bus has brought its source, and left the other alone.
abbrev Attached :
    GamingPerformanceObserver → GamingPerformanceObserver → Option (QString × ℕ) → Type 0
Attached s x g =
    GameOf x g
    × (x.power_endpoint ≡ s.power_endpoint)
    × (x.performance_profile ≡ s.performance_profile)

abbrev Powered :
    GamingPerformanceObserver → GamingPerformanceObserver → Option (PowerEndpoint × Bool) → Type 0
Powered s x p =
    PowerOf x p × (x.game_owner ≡ s.game_owner) × (x.game_client_count ≡ s.game_client_count)

module _ (w : Buses) where
  attach_session_bus-Game :
      (s : GamingPerformanceObserver)
      → s.game_owner ≡ []
      → s.game_client_count ≡ 0
      → Attached s (attach_session_bus w s) (Sources.start w).game
  unfolding attach_session_bus Sources.start diagnose
  attach_session_bus-Game s e n =
      let name = owner_of (w.session_owner game_service) in
      let same = attach_game-SamePower w name s in
      elim w.session_connected
        as (λ b.
          Attached s
            (if not b
              then diagnose (literal "session bus unavailable") s
              else if is_empty name
              then s
              else attach_game w name s)
            (if b then find_game w name else none)) [
              | false ↦ ((e, n), refl, refl)
              | true ↦
                  rw (attach_game-empty w name s) (attach_game-Game w name s e n, same.0, same.1)
            ]

  attach_system_bus-Power :
      (s : GamingPerformanceObserver)
      → s.power_endpoint ≡ no_endpoint
      → s.performance_profile ≡ false
      → Powered s (attach_system_bus w s) (Sources.start w).power
  unfolding attach_system_bus Sources.start diagnose
  attach_system_bus-Power s e b =
      let next = preferred_power_endpoint w in
      let same = attach_power-SameGame w next s in
      elim w.system_connected
        as (λ b.
          Powered s
            (if not b
              then diagnose (literal "system bus unavailable") s
              else if available next
              then attach_power w next s
              else s)
            (if b then find_power w else none)) [
              | false ↦ ((e, b), refl, refl)
              | true ↦
                  rw (attach_power-unavailable w next s)
                    (attach_power-Power w s e b, same.0, same.1)
            ]

module _ (to_json : Fields → Bytes) (w : Buses) where
  pub initialize-Tracks :
      (s : GamingPerformanceObserver)
      → s.game_owner ≡ []
      → s.game_client_count ≡ 0
      → s.power_endpoint ≡ no_endpoint
      → s.performance_profile ≡ false
      → Tracks to_json (initialize to_json w s) (Sources.start w)
  unfolding initialize
  initialize-Tracks s g n e b =
      let s1 = attach_session_bus w s in
      let first = attach_session_bus-Game w s g n in
      let second = attach_system_bus-Power w s1 (first.1 ∙ e) (first.2 ∙ b) in
      publish_state-Tracks to_json snapshot true (attach_system_bus w s1) (Sources.start w)
        (subst (λ x. Game x (attach_system_bus w s1).game_client_count (Sources.start w).game)
          (sym second.1)
          (subst (λ x. Game s1.game_owner x (Sources.start w).game) (sym second.2) first.0))
        second.0 (λ f. absurd (cc))

  pub start-Tracks : Tracks to_json (start to_json w) (Sources.start w)
  unfolding start initial
  start-Tracks =
      initialize-Tracks
        (record initial {
          output =
              publish to_json (field (literal "type") (string (literal "ready")) end) true
                initial.output;
        })
        refl refl refl refl

module _ (to_json : Fields → Bytes) where
  step-Tracks :
      (w : Buses) (e : Event) (s : GamingPerformanceObserver) (t : Sources)
      → Tracks to_json s t
      → Tracks to_json (step to_json w e s) (Sources.step w e t)
  unfolding step Sources.step
  step-Tracks w (game_event member arguments) s t k =
      on_game_event-Tracks to_json w member arguments s t k
  step-Tracks w (game_owner_changed old new) s t k =
      on_game_owner_changed-Tracks to_json w old new s t k
  step-Tracks w (power_properties_changed interface changed invalidated) s t k =
      hear-Tracks to_json w interface changed invalidated s t t.power k k.power
  step-Tracks w (power_owner_changed service old new) s t k =
      on_power_owner_changed-Tracks to_json w service old new s t k

  run-Tracks :
      (h : List (Buses × Event)) (s : GamingPerformanceObserver) (t : Sources)
      → Tracks to_json s t
      → Tracks to_json (run to_json h s) (Sources.run h t)
  unfolding run Sources.run
  run-Tracks [] s t k = k
  run-Tracks ((w, e) ∷ rest) s t k =
      run-Tracks rest (step to_json w e s) (Sources.step w e t) (step-Tracks w e s t k)

  -- What the observer shows is what the sources say.
  shown-eq :
      (event : QString) (s : GamingPerformanceObserver) (t : Sources)
      → GameOf s t.game
      → PowerOf s t.power
      → shown to_json s event ≡ to_json (message t event)
  unfolding message
  shown-eq event s t g p =
      let a = game_shown s.game_owner s.game_client_count t.game g in
      let b = power_shown s.power_endpoint s.performance_profile t.power p in cc
    where
      game_shown :
          (name : QString) (n : ℕ) (g : Option (QString × ℕ))
          → Game name n g
          → (not (is_empty name) ≡ is_some g) × (n ≡ clients_in g)
      game_shown name n none k = (ap (λ x. not (is_empty x)) k.0, k.1)
      game_shown name n (some g) k = (ap not k.2, k.1)

      power_shown :
          (e : PowerEndpoint) (b : Bool) (p : Option (PowerEndpoint × Bool))
          → Power e b p
          → (available e ≡ is_some p) × (b ≡ performance_in p)
      power_shown e b none k = (ap available k.0, k.1)
      power_shown e b (some p) k = (k.2, k.1)

  -- After initialize and any history of signals, whatever the buses answer: the line printed last is the
  -- state message of the two sources, as the specification follows them through the same history, for some
  -- event.
  pub run-refines :
      (w : Buses) (h : List (Buses × Event))
      → (event : QString) × (latest (run to_json h (start to_json w)).output.lines
          ≡ some (to_json (message (Sources.run h (Sources.start w)) event)))
  run-refines w h =
      let t = Sources.run h (Sources.start w) in
      let k = run-Tracks h (start to_json w) (Sources.start w) (start-Tracks to_json w) in
      (
        k.told.0,
        k.settled
            ∙ ap some
                (k.told.1 ∙ shown-eq k.told.0 (run to_json h (start to_json w)) t k.game k.power),
      )
