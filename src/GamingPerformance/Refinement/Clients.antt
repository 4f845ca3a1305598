-- ===== src/GamingPerformance/Refinement/Clients.antt =====
-- onGameEvent and onGameOwnerChanged against the steps of the sources.
use nagi_shell.Prelude.{
  ℕ, ◌≡◌, refl, sym, subst, Bool, true, false, not, ◌&&◌, ◌||◌, Option, none, some, List, [], ◌==◌,
  length, list_eq, if◌then◌else◌, Option-cases, if_ind, option_ind, arith,
}
use nagi_shell.Notifications.Text.{QString}
use nagi_shell.Bytes.{Bytes}
use nagi_shell.Json.{Fields}
use nagi_shell.GamingPerformance.{
  Variant, is_empty, Buses, GamingPerformanceObserver, read_game_client_count, publish_state,
}
use nagi_shell.GamingPerformance.Attachments.{detach_game, attach_game}
use nagi_shell.GamingPerformance.Events.{
  event_of, source_unavailable, snapshot, on_game_event, on_game_owner_changed,
}
use nagi_shell.GamingPerformance.Sources.{Sources, find_game, owner_in, count_clients, follow_game}
use nagi_shell.GamingPerformance.Refinement.{
  Game, Power, GameOf, PowerOf, attach_game-Game, attach_game-SamePower, attach_game-empty, Settled,
  Tracks, publish_state-Tracks, diagnose-Tracks,
}

-- A signal that is refused changes nothing, and neither does a count that cannot be read.
count_clients-refused :
    (w : Buses) (member : QString) (arguments : List Variant) (name : QString) (n : ℕ)
    (g : Option (QString × ℕ))
    → (is_empty (event_of member) || not (length arguments == 2) || is_empty name) ≡ true
    → Game name n g
    → Game name n (count_clients w member arguments g)
unfolding count_clients
count_clients-refused w member arguments name n none h k = k
count_clients-refused w member arguments name n (some g) h k =
    ground (arith, Option-cases (read_game_client_count w))

count_clients-unread :
    (w : Buses) (member : QString) (arguments : List Variant) (name : QString) (n : ℕ)
    (g : Option (QString × ℕ))
    → read_game_client_count w ≡ none
    → Game name n g
    → Game name n (count_clients w member arguments g)
unfolding count_clients
count_clients-unread w member arguments name n none h k = k
count_clients-unread w member arguments name n (some g) h k = ground arith

count_clients-read :
    (w : Buses) (member : QString) (arguments : List Variant) (name : QString) (n m : ℕ)
    (g : Option (QString × ℕ))
    → (is_empty (event_of member) || not (length arguments == 2) || is_empty name) ≡ false
    → read_game_client_count w ≡ some m
    → Game name n g
    → Game name m (count_clients w member arguments g)
unfolding count_clients
count_clients-read w member arguments name n m none h e k = ground arith
count_clients-read w member arguments name n m (some g) h e k = ground arith

-- Two terms that branch on one test.
pub if_both {ℓ κ μ} :
    {A : Type ℓ} {B : Type κ} (R : A → B → Type μ) (b : Bool) {x y : A} {x' y' : B}
    → (b ≡ true → R x x')
    → (b ≡ false → R y y')
    → R (if b then x else y) (if b then x' else y')
if_both R true f g = f refl
if_both R false f g = g refl

owner-eq : (name : QString) (n : ℕ) (g : Option (QString × ℕ)) → Game name n g → owner_in g ≡ name
owner-eq name n none k = sym k.0
owner-eq name n (some g) k = sym k.0

module _ (to_json : Fields → Bytes) (w : Buses) where
  pub on_game_event-Tracks :
      (member : QString) (arguments : List Variant) (s : GamingPerformanceObserver) (t : Sources)
      → Tracks to_json s t
      → Tracks to_json
          (on_game_event to_json w member arguments s)
          (record t { game = count_clients w member arguments t.game })
  unfolding on_game_event
  on_game_event-Tracks member arguments s t k =
      let t' = record t { game = count_clients w member arguments t.game } in
      let kept = λ (g : GameOf s t'.game).
        let r : Tracks to_json s t' = record {
          game = g;
          power = k.power;
          settled = k.settled;
          told = k.told;
        } in
        r in
      if_ind (λ x. Tracks to_json x t')
        (is_empty (event_of member) || not (length arguments == 2) || is_empty s.game_owner)
        (λ e.
          diagnose-Tracks to_json _ s t'
            (kept (count_clients-refused w member arguments _ _ t.game e k.game)))
        λ e.
          option_ind (λ x. Tracks to_json x t') (read_game_client_count w)
            (λ u.
              diagnose-Tracks to_json _ s t'
                (kept (count_clients-unread w member arguments _ _ t.game u k.game)))
            λ m u.
              publish_state-Tracks to_json (event_of member) true
                (record s { game_client_count = m }) t'
                (count_clients-read w member arguments _ _ m t.game e u k.game) k.power
                (λ f. absurd (cc))

  -- The owner that is named takes the place of the one that is gone.
  reattach-Tracks :
      (new : QString) (t : Sources) (s : GamingPerformanceObserver)
      → s.game_owner ≡ []
      → s.game_client_count ≡ 0
      → PowerOf s t.power
      → Settled s.output
      → Tracks to_json
          (publish_state to_json snapshot false (if is_empty new then s else attach_game w new s))
          (record t { game = find_game w new })
  reattach-Tracks new t s e n p o =
      let same = attach_game-SamePower w new s in
      subst
        (λ x.
          Tracks to_json (publish_state to_json snapshot false x)
            (record t { game = find_game w new }))
        (sym (attach_game-empty w new s))
        (publish_state-Tracks to_json snapshot false (attach_game w new s)
          (record t { game = find_game w new }) (attach_game-Game w new s e n)
          (subst (λ x. Power x (attach_game w new s).performance_profile t.power) (sym same.0)
            (subst (λ x. Power s.power_endpoint x t.power) (sym same.1) p))
          (λ _. subst Settled (sym same.2) o))

  pub on_game_owner_changed-Tracks :
      (old new : QString) (s : GamingPerformanceObserver) (t : Sources)
      → Tracks to_json s t
      → Tracks to_json
          (on_game_owner_changed to_json w old new s)
          (record t { game = follow_game w old new t.game })
  unfolding on_game_owner_changed detach_game follow_game publish_state
  on_game_owner_changed-Tracks old new s t k =
      let s1 = record (detach_game s) { game_client_count = 0 } in
      rw (owner-eq s.game_owner s.game_client_count t.game k.game) (
        if_both (λ x g. Tracks to_json x (record t { game = g }))
          (list_eq old new || (is_empty old && list_eq new s.game_owner)) (λ _. k)
          λ _.
            if_ind
              (λ x.
                Tracks to_json
                  (publish_state to_json snapshot false
                    (if is_empty new then x else attach_game w new x))
                  (record t { game = find_game w new }))
              (is_empty old) (λ _. reattach-Tracks new t s1 refl refl k.power k.settled)
              λ _.
                reattach-Tracks new t (publish_state to_json source_unavailable true s1) refl refl
                  k.power
                  (publish_state-Tracks to_json source_unavailable true s1
                    (record t { game = none }) (refl, refl) k.power (λ f. absurd (cc))).settled)
