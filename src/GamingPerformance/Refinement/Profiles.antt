-- ===== src/GamingPerformance/Refinement/Profiles.antt =====
-- onPowerPropertiesChanged and onPowerOwnerChanged against the steps of the sources.
use nagi_shell.Prelude.{
  ◌≡◌, refl, sym, ap, subst, Bool, true, false, not, ◌&&◌, ◌||◌, Option, none, some, List, list_eq,
  if◌then◌else◌, Bool-cases, if_ind, inl, inr, arith,
}
use nagi_shell.Prelude.Result.{Result, ok, err}
use nagi_shell.Notifications.Text.{QString, literal}
use nagi_shell.Bytes.{Bytes}
use nagi_shell.Json.{Fields}
use nagi_shell.GamingPerformance.{
  Variant, PowerEndpoint, available, is_empty, Buses, GamingPerformanceObserver, is_performance,
  valid_profile, publish_state,
}
use nagi_shell.GamingPerformance.Attachments.{
  no_endpoint, preferred_power_endpoint, same_endpoint, detach_power, attach_power,
}
use nagi_shell.GamingPerformance.Events.{
  announced_profile, same_flag, source_unavailable, snapshot, change_profile, announce,
  on_power_properties_changed, follow_owner, switch_endpoint, on_power_owner_changed,
}
use nagi_shell.GamingPerformance.Sources.{
  Sources, find_power, endpoint_in, accept_profile, hear_profile, concerns, follow_power,
}
use nagi_shell.GamingPerformance.Refinement.{
  Game, Power, GameOf, PowerOf, attach_power-Power, attach_power-SameGame, attach_power-unavailable,
  Settled, Tracks, publish_state-Tracks, diagnose-Tracks,
}
use nagi_shell.GamingPerformance.Refinement.Clients.{if_both}

endpoint-eq :
    (e : PowerEndpoint) (b : Bool) (p : Option (PowerEndpoint × Bool))
    → Power e b p
    → endpoint_in p ≡ e
endpoint-eq e b none k = sym k.0
endpoint-eq e b (some p) k = sym k.0

module _ (to_json : Fields → Bytes) (w : Buses) where
  same_flag-eq : (a b : Bool) → same_flag a b ≡ true → a ≡ b
  same_flag-eq true b h = sym h
  same_flag-eq false true h = cc
  same_flag-eq false false h = refl

  -- The observer still tracks its sources, where those of the profiles are written otherwise.
  pub power-Tracks :
      (s : GamingPerformanceObserver) (t : Sources) (p : Option (PowerEndpoint × Bool))
      → Tracks to_json s t
      → PowerOf s p
      → Tracks to_json s (record t { power = p })
  power-Tracks s t p k h = record { game = k.game; power = h; settled = k.settled; told = k.told }

  change_profile-Tracks :
      (profile : QString) (s : GamingPerformanceObserver) (t : Sources) (q : PowerEndpoint × Bool)
      → Tracks to_json s t
      → PowerOf s (some q)
      → Tracks to_json
          (change_profile to_json profile s)
          (record t { power = some (q.0, accept_profile (some (ok profile)) q.1) })
  unfolding change_profile
  change_profile-Tracks profile s t q k h = elim (Bool-cases (valid_profile profile)) [
    | inl v ↦ rw v (
        if_ind (λ x. Tracks to_json x (record t { power = some (q.0, is_performance profile) }))
          (same_flag (is_performance profile) s.performance_profile)
          (λ e. power-Tracks s t _ k (h.0, sym (same_flag-eq _ _ e), h.2))
          λ _.
            publish_state-Tracks to_json (literal "profile") true
              (record s { performance_profile = is_performance profile })
              (record t { power = some (q.0, is_performance profile) }) k.game (h.0, refl, h.2)
              (λ f. absurd (cc)))
    | inr v ↦ rw v (diagnose-Tracks to_json _ s _ (power-Tracks s t _ k h))
  ]

  announce-Tracks :
      (r : Option (Result QString QString)) (s : GamingPerformanceObserver) (t : Sources)
      (q : PowerEndpoint × Bool)
      → Tracks to_json s t
      → PowerOf s (some q)
      → Tracks to_json
          (announce to_json r s)
          (record t { power = some (q.0, accept_profile r q.1) })
  announce-Tracks none s t q k h = power-Tracks s t _ k h
  announce-Tracks (some (err text)) s t q k h =
      diagnose-Tracks to_json text s _ (power-Tracks s t _ k h)
  announce-Tracks (some (ok profile)) s t q k h = change_profile-Tracks profile s t q k h

  hear_profile-eq :
      (interface : QString) (changed : List (QString × Variant)) (invalidated : List QString)
      (e : PowerEndpoint) (q : PowerEndpoint × Bool)
      → e ≡ q.0
      → hear_profile w interface changed invalidated (some q) ≡ (
          if list_eq interface e.interface
          then some (q.0, accept_profile (announced_profile w e changed invalidated) q.1)
          else some q)
  unfolding hear_profile
  hear_profile-eq interface changed invalidated e q h = rw h refl

  pub hear-Tracks :
      (interface : QString) (changed : List (QString × Variant)) (invalidated : List QString)
      (s : GamingPerformanceObserver) (t : Sources) (p : Option (PowerEndpoint × Bool))
      → Tracks to_json s t
      → PowerOf s p
      → Tracks to_json
          (on_power_properties_changed to_json w interface changed invalidated s)
          (record t { power = hear_profile w interface changed invalidated p })
  unfolding on_power_properties_changed hear_profile
  hear-Tracks interface changed invalidated s t none k h =
      if_ind (λ x. Tracks to_json x (record t { power = none }))
        (not (available s.power_endpoint) || not (list_eq interface s.power_endpoint.interface))
        (λ _. power-Tracks s t none k h)
        λ e. absurd (apart (available s.power_endpoint) _ (ap available h.0) e)
    where
      apart : (a b : Bool) → a ≡ false → (not a || b) ≡ false → ⊥
      apart a b x y = ground arith
  hear-Tracks interface changed invalidated s t (some q) k h =
      let e = s.power_endpoint in
      rw (hear_profile-eq interface changed invalidated e q h.0) (
        subst
          (λ b.
            Tracks to_json
              (if not b || not (list_eq interface e.interface)
                then s
                else announce to_json (announced_profile w e changed invalidated) s)
              (record t {
                power =
                    if list_eq interface e.interface
                    then some (q.0, accept_profile (announced_profile w e changed invalidated) q.1)
                    else some q;
              }))
          (sym h.2)
          (elim (Bool-cases (list_eq interface e.interface)) [
            | inl same ↦
                rw same (announce-Tracks (announced_profile w e changed invalidated) s t q k h)
            | inr not_same ↦ rw not_same (power-Tracks s t (some q) k h)
          ]))

  -- The preferred source takes the place of the one that is gone.
  reattach-Tracks :
      (t : Sources) (s : GamingPerformanceObserver)
      → s.power_endpoint ≡ no_endpoint
      → s.performance_profile ≡ false
      → GameOf s t.game
      → Settled s.output
      → let next = preferred_power_endpoint w in
        let s' = if available next then attach_power w next s else s in
        GameOf s' t.game × PowerOf s' (find_power w) × Settled s'.output
  reattach-Tracks t s e b g o =
      let next = preferred_power_endpoint w in
      let same = attach_power-SameGame w next s in
      subst (λ x. GameOf x t.game × PowerOf x (find_power w) × Settled x.output)
        (sym (attach_power-unavailable w next s))
        (
          subst (λ x. Game x (attach_power w next s).game_client_count t.game) (sym same.0)
              (subst (λ x. Game s.game_owner x t.game) (sym same.1) g),
          attach_power-Power w s e b,
          subst Settled (sym same.2) o,
        )

  follow_owner-Tracks :
      (old : QString) (s : GamingPerformanceObserver) (t : Sources)
      → Tracks to_json s t
      → Tracks to_json
          (follow_owner to_json w (preferred_power_endpoint w) old s)
          (record t { power = find_power w })
  unfolding follow_owner detach_power publish_state
  follow_owner-Tracks old s t k =
      let next = preferred_power_endpoint w in
      let s1 = record (detach_power s) { performance_profile = false } in
      let t' = record t { power = find_power w } in
      let done =
        λ (x : GamingPerformanceObserver)
            (r : GameOf x t.game × PowerOf x (find_power w) × Settled x.output).
          publish_state-Tracks to_json snapshot false x t' r.0 r.1 (λ _. r.2) in
      if_ind
        (λ x.
          Tracks to_json
            (publish_state to_json snapshot false
              (if available next then attach_power w next x else x))
            t')
        (is_empty old) (λ _. done _ (reattach-Tracks t s1 refl refl k.game k.settled))
        λ _. done _ (
          reattach-Tracks t (publish_state to_json source_unavailable true s1) refl refl k.game
            (publish_state-Tracks to_json source_unavailable true s1 (record t { power = none })
              k.game (refl, refl) (λ f. absurd (cc))).settled)

  switch_endpoint-Tracks :
      (s : GamingPerformanceObserver) (t : Sources)
      → Tracks to_json s t
      → Tracks to_json
          (switch_endpoint to_json w (preferred_power_endpoint w) s)
          (record t { power = find_power w })
  unfolding switch_endpoint detach_power
  switch_endpoint-Tracks s t k =
      let next = preferred_power_endpoint w in
      let s1 = record (detach_power s) { performance_profile = false } in
      let s2 = if available next then attach_power w next s1 else s1 in
      let t' = record t { power = find_power w } in
      let r = reattach-Tracks t s1 refl refl k.game k.settled in
      if_ind (λ x. Tracks to_json (publish_state to_json snapshot false x) t')
        (available s.power_endpoint && not (available next))
        (λ _.
          let lost =
            publish_state-Tracks to_json source_unavailable true s2 t' r.0 r.1 (λ f. absurd (cc)) in
          publish_state-Tracks to_json snapshot false
            (publish_state to_json source_unavailable true s2) t' lost.game lost.power
            (λ _. lost.settled))
        λ _. publish_state-Tracks to_json snapshot false s2 t' r.0 r.1 (λ _. r.2)

  pub on_power_owner_changed-Tracks :
      (service old new : QString) (s : GamingPerformanceObserver) (t : Sources)
      → Tracks to_json s t
      → Tracks to_json
          (on_power_owner_changed to_json w service old new s)
          (record t { power = follow_power w service old new t.power })
  unfolding on_power_owner_changed follow_power concerns
  on_power_owner_changed-Tracks service old new s t k =
      let e = s.power_endpoint in
      let next = preferred_power_endpoint w in
      rw (endpoint-eq e s.performance_profile t.power k.power)
        (elim (Bool-cases (list_eq old new)) [
          | inl same ↦ rw same k
          | inr changed ↦ elim (Bool-cases (same_endpoint next e)) [
            | inr other ↦ rw (changed, other) (switch_endpoint-Tracks s t k)
            | inl kept ↦
                rw (changed, kept)
                  (if_both (λ x p. Tracks to_json x (record t { power = p }))
                    (not (list_eq e.owner next.owner) && list_eq service e.service)
                    (λ _. follow_owner-Tracks old s t k) (λ _. k))
          ]
        ])
