-- ===== src/GamingPerformance/Validity.antt =====
-- The bounds of the observer's numbers, and the signals that it is connected to.
pub mod Histories
use nagi_shell.Prelude.{
  ℕ, ◌≤◌, ◌≡◌, refl, sym, Bool, true, false, not, ◌&&◌, ◌||◌, Option, none, some, List, [], ◌∷◌,
  ◌==◌, length, leb, list_eq, list_eq_refl, if◌then◌else◌, Bool-cases, Option-cases, if_ind,
  option_ind, inl, inr, arith,
}
use nagi_shell.Prelude.Int.{pos, negsuc}
use nagi_shell.Prelude.Result.{Result, ok, err}
use nagi_shell.Notifications.Text.{QString, literal}
use nagi_shell.Bytes.{Bytes}
use nagi_shell.Json.{Fields}
use nagi_shell.GamingPerformance.{
  Variant, invalid, other, int, text, PowerEndpoint, available, is_empty, Buses, Diagnostics,
  GamingPerformanceObserver, maximum_client_count, maximum_diagnostics, client_count_of,
  read_property, read_game_client_count, is_performance, valid_profile, publish_state, note,
  diagnose,
}
use nagi_shell.GamingPerformance.Attachments.{
  no_endpoint, detach_game, read_clients, attach_game, preferred_power_endpoint, same_endpoint,
  remove, read_valid_profile, detach_power, read_profile, attach_power,
}
use nagi_shell.GamingPerformance.Events.{
  event_of, announced_profile, same_flag, source_unavailable, snapshot, on_game_event,
  on_game_owner_changed, change_profile, announce, on_power_properties_changed, follow_owner,
  switch_endpoint, on_power_owner_changed, attach_session_bus, attach_system_bus, initial,
  initialize, start, Event, game_event, game_owner_changed, power_properties_changed,
  power_owner_changed, step, run,
}

-- While GameMode has an owner both of its signals are connected; without one nobody plays.
abbrev pub GameSound : QString → ℕ → Bool → Bool → Type 0
GameSound name n registered unregistered =
    (n ≤ maximum_client_count)
    × (unregistered ≡ not (is_empty name))
    × ((registered || is_empty name) ≡ true)
    × ((not (is_empty name) || n == 0) ≡ true)

-- Exactly the endpoint's signal is connected; without an endpoint there is no profile.
abbrev pub PowerSound : PowerEndpoint → Bool → List QString → Type 0
PowerSound e performance observed =
    (observed ≡ (if available e then e.service ∷ [] else []))
    × ((available e || not performance) ≡ true)

abbrev pub DiagnosticsSound : Diagnostics → Type 0
DiagnosticsSound d =
    (length d.messages ≡ d.diagnostic_count) × (d.diagnostic_count ≤ maximum_diagnostics)

pub record IsSound (s : GamingPerformanceObserver) : Type 0 where
  pub game : GameSound s.game_owner s.game_client_count s.registered s.unregistered
  pub power : PowerSound s.power_endpoint s.performance_profile s.observed
  pub diagnosed : DiagnosticsSound s.diagnostics

note-Sound : (m : QString) (d : Diagnostics) → DiagnosticsSound d → DiagnosticsSound (note m d)
unfolding note
note-Sound m d v = ground arith

pub read_game_client_count-le :
    (w : Buses) (n : ℕ) → read_game_client_count w ≡ some n → n ≤ maximum_client_count
unfolding read_game_client_count
read_game_client_count-le w n h = bounded (read_property w.client_count) h
  where
    bounded : (v : Variant) → client_count_of v ≡ some n → n ≤ maximum_client_count
    bounded invalid h = absurd (cc)
    bounded other h = absurd (cc)
    bounded (text s) h = absurd (cc)
    bounded (int (negsuc k)) h = absurd (cc)
    bounded (int (pos k)) h = ground arith

remove-only : (name : QString) → remove name (name ∷ []) ≡ []
unfolding remove
remove-only name = rw (list_eq_refl name) refl

module _ (s : GamingPerformanceObserver) (v : IsSound s) where
  pub diagnose-IsSound : (m : QString) → IsSound (diagnose m s)
  unfolding diagnose
  diagnose-IsSound m = record {
    game = v.game;
    power = v.power;
    diagnosed = note-Sound m s.diagnostics v.diagnosed;
  }

  pub publish_state-IsSound :
      (to_json : Fields → Bytes) (event : QString) (force : Bool)
      → IsSound (publish_state to_json event force s)
  unfolding publish_state
  publish_state-IsSound to_json event force = record {
    game = v.game;
    power = v.power;
    diagnosed = v.diagnosed;
  }

  pub detach_game-IsSound : IsSound (record (detach_game s) { game_client_count = 0 })
  unfolding detach_game
  detach_game-IsSound = record {
    game = ground (arith, v.game);
    power = v.power;
    diagnosed = v.diagnosed;
  }

  pub detach_power-IsSound : IsSound (record (detach_power s) { performance_profile = false })
  unfolding detach_power
  detach_power-IsSound = record {
    game = v.game;
    power = ground (arith, v.power, remove-only s.power_endpoint.service);
    diagnosed = v.diagnosed;
  }

  pub attach_game-IsSound :
      (w : Buses) (name : QString) → s.game_owner ≡ [] → IsSound (attach_game w name s)
  unfolding attach_game read_clients detach_game diagnose
  attach_game-IsSound w name e = record {
    game = elim (Option-cases (read_game_client_count w)) [
      | inl none_read ↦ ground (arith, v.game)
      | inr (n, read) ↦ ground (arith, v.game, read_game_client_count-le w n read)
    ];
    power = ground (arith, v.power, Option-cases (read_game_client_count w));
    diagnosed = ground (
      arith,
      v.diagnosed,
      Option-cases (read_game_client_count w),
      note-Sound (literal "could not observe GameMode") s.diagnostics,
      note-Sound (literal "could not read GameMode ClientCount") s.diagnostics,
    );
  }

  pub attach_power-IsSound :
      (w : Buses) (e : PowerEndpoint)
      → s.power_endpoint ≡ no_endpoint
      → IsSound (attach_power w e s)
  unfolding attach_power read_profile detach_power diagnose
  attach_power-IsSound w e none_yet = record {
    game = ground (arith, v.game, Option-cases (read_valid_profile w e));
    power = ground (arith, v.power, Option-cases (read_valid_profile w e), remove-only e.service);
    diagnosed = ground (
      arith,
      v.diagnosed,
      Option-cases (read_valid_profile w e),
      note-Sound (literal "could not observe Power Profiles") s.diagnostics,
      note-Sound (literal "could not read ActiveProfile") s.diagnostics,
    );
  }
