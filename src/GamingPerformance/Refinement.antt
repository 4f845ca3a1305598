-- ===== src/GamingPerformance/Refinement.antt =====
-- The observer against its sources: what it prints last is what they are.
mod Clients
mod Profiles
pub mod Histories
use nagi_shell.Prelude.{
  ℕ, ◌≡◌, refl, sym, ap, ◌∙◌, subst, Bool, true, false, not, ◌&&◌, ◌||◌, Option, none, some,
  is_some, List, [], ◌∷◌, list_eq, list_eq_sound, if◌then◌else◌, Bool-cases, Option-cases, if_ind,
  inl, inr, arith,
}
use nagi_shell.Notifications.Text.{QString, literal}
use nagi_shell.Bytes.{Bytes}
use nagi_shell.Json.{Fields, value}
use nagi_shell.GamingPerformance.{
  Variant, PowerEndpoint, available, is_empty, Buses, Output, GamingPerformanceObserver,
  read_game_client_count, is_performance, is_state, publish, state_message, publish_state, diagnose,
}
use nagi_shell.GamingPerformance.Attachments.{
  no_endpoint, connects_game, detach_game, read_clients, attach_game, preferred_power_endpoint,
  read_valid_profile, detach_power, read_profile, attach_power,
}
use nagi_shell.GamingPerformance.Sources
use nagi_shell.GamingPerformance.Sources.{
  Sources, find_game, find_power, owner_in, endpoint_in, clients_in, performance_in, message,
}

abbrev pub Game : QString → ℕ → Option (QString × ℕ) → Type 0
Game name n none = (name ≡ []) × (n ≡ 0)
Game name n (some g) = (name ≡ g.0) × (n ≡ g.1) × (is_empty name ≡ false)

abbrev pub Power : PowerEndpoint → Bool → Option (PowerEndpoint × Bool) → Type 0
Power e b none = (e ≡ no_endpoint) × (b ≡ false)
Power e b (some p) = (e ≡ p.0) × (b ≡ p.1) × (available e ≡ true)

abbrev pub GameOf : GamingPerformanceObserver → Option (QString × ℕ) → Type 0
GameOf s g = Game s.game_owner s.game_client_count g

abbrev pub PowerOf : GamingPerformanceObserver → Option (PowerEndpoint × Bool) → Type 0
PowerOf s p = Power s.power_endpoint s.performance_profile p

-- The part that an attachment of GameMode leaves alone, and that of the profiles.
abbrev SamePower : GamingPerformanceObserver → GamingPerformanceObserver → Type 0
SamePower s t =
    (t.power_endpoint ≡ s.power_endpoint)
    × (t.performance_profile ≡ s.performance_profile)
    × (t.output ≡ s.output)

abbrev SameGame : GamingPerformanceObserver → GamingPerformanceObserver → Type 0
SameGame s t =
    (t.game_owner ≡ s.game_owner)
    × (t.game_client_count ≡ s.game_client_count)
    × (t.output ≡ s.output)

module _ (w : Buses) where
  pub attach_game-Game :
      (name : QString) (s : GamingPerformanceObserver)
      → s.game_owner ≡ []
      → s.game_client_count ≡ 0
      → GameOf (attach_game w name s) (find_game w name)
  unfolding attach_game detach_game read_clients diagnose find_game
  attach_game-Game name s e n = ground (arith, Option-cases (read_game_client_count w))

  pub attach_game-SamePower :
      (name : QString) (s : GamingPerformanceObserver) → SamePower s (attach_game w name s)
  unfolding attach_game detach_game read_clients diagnose
  attach_game-SamePower name s = ground (arith, Option-cases (read_game_client_count w))

  pub attach_power-Power :
      (s : GamingPerformanceObserver)
      → s.power_endpoint ≡ no_endpoint
      → s.performance_profile ≡ false
      → PowerOf (attach_power w (preferred_power_endpoint w) s) (find_power w)
  unfolding attach_power read_profile detach_power diagnose find_power
  attach_power-Power s e b =
      ground (arith, Option-cases (read_valid_profile w (preferred_power_endpoint w)))

  pub attach_power-SameGame :
      (e : PowerEndpoint) (s : GamingPerformanceObserver) → SameGame s (attach_power w e s)
  unfolding attach_power detach_power read_profile diagnose
  attach_power-SameGame e s = ground (arith, Option-cases (read_valid_profile w e))

  pub attach_game-empty :
      (name : QString) (s : GamingPerformanceObserver)
      → (if is_empty name then s else attach_game w name s) ≡ attach_game w name s
  unfolding attach_game
  attach_game-empty name s = elim (Bool-cases (is_empty name)) [
    | inl e ↦ rw e refl
    | inr e ↦ rw e refl
  ]

  pub attach_power-unavailable :
      (e : PowerEndpoint) (s : GamingPerformanceObserver)
      → (if available e then attach_power w e s else s) ≡ attach_power w e s
  unfolding attach_power
  attach_power-unavailable e s = elim (Bool-cases (is_empty e.owner)) [
    | inl c ↦ rw c refl
    | inr c ↦ rw c refl
  ]

-- The newest line.
abbrev pub latest : List Bytes → Option Bytes
latest [] = none
latest (l ∷ rest) = some l

abbrev pub Settled : Output → Type 0
Settled o = latest o.lines ≡ some o.last_state

module _ (to_json : Fields → Bytes) where
  publish-Settled :
      (m : Fields) (force : Bool) (o : Output)
      → is_state m ≡ true
      → (force ≡ false → Settled o)
      → Settled (publish to_json m force o) × ((publish to_json m force o).last_state ≡ to_json m)
  unfolding publish
  publish-Settled m true o e h = rw e (refl, refl)
  publish-Settled m false o e h = elim (Bool-cases (list_eq (to_json m) o.last_state)) [
    | inl same ↦ rw (e, same) (h refl, sym (list_eq_sound (to_json m) o.last_state same))
    | inr new ↦ rw (e, new) (refl, refl)
  ]

  abbrev pub shown : GamingPerformanceObserver → QString → Bytes
  shown s event = to_json (
      state_message (not (is_empty s.game_owner)) (available s.power_endpoint) s.game_client_count
        s.performance_profile event)

  -- The observer knows the sources, and what it printed last says so.
  pub record Tracks (s : GamingPerformanceObserver) (t : Sources) : Type 0 where
    pub game : GameOf s t.game
    pub power : PowerOf s t.power
    pub settled : Settled s.output
    pub told : (event : QString) × (s.output.last_state ≡ shown s event)

  publish_state-Settled :
      (event : QString) (force : Bool) (s : GamingPerformanceObserver)
      → (force ≡ false → Settled s.output)
      → Settled (publish_state to_json event force s).output
        × ((publish_state to_json event force s).output.last_state ≡ shown s event)
  unfolding publish_state is_state state_message value list_eq
  publish_state-Settled event force s h =
      publish-Settled
        (state_message (not (is_empty s.game_owner)) (available s.power_endpoint)
          s.game_client_count s.performance_profile event)
        force s.output refl h

  pub publish_state-Tracks :
      (event : QString) (force : Bool) (s : GamingPerformanceObserver) (t : Sources)
      → GameOf s t.game
      → PowerOf s t.power
      → (force ≡ false → Settled s.output)
      → Tracks (publish_state to_json event force s) t
  unfolding publish_state
  publish_state-Tracks event force s t g p h =
      let o = publish_state-Settled event force s h in
      record { game = g; power = p; settled = o.0; told = (event, o.1) }

  -- A diagnostic is not a message.
  pub diagnose-Tracks :
      (text : QString) (s : GamingPerformanceObserver) (t : Sources)
      → Tracks s t
      → Tracks (diagnose text s) t
  unfolding diagnose
  diagnose-Tracks text s t k = record {
    game = k.game;
    power = k.power;
    settled = k.settled;
    told = k.told;
  }
