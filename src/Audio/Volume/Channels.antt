-- ===== src/Audio/Volume/Channels.antt =====
-- The volumes that are written are those of the channels, one for each.
use nagi_shell.Prelude.{
  ℕ, suc, ◌≡◌, ◌≤◌, ◌<◌, refl, Bool, true, false, not, Option, none, some, List, [], ◌∷◌, length,
  any, arith, if◌then◌else◌,
}
use nagi_shell.Json.{Double}
use nagi_shell.Audio.Protocol.{is_volume}
use nagi_shell.Audio.Volume.{
  Floats, is_level, average, cubic_of, cubic_volumes, proportional_cubic_volumes,
}

-- One round: the volume is put before those of the rounds that follow.
length-round :
    (too_large : Bool) (later : Option (List Double)) (n : ℕ) (c : Double) (cubics : List Double)
    → ((cs : List Double) → later ≡ some cs → length cs ≡ n)
    → (if too_large then none else elim later [ none ↦ none | some cs ↦ some (c ∷ cs) ])
      ≡ some cubics
    → length cubics ≡ suc n
length-round true later n c cubics h e = ground arith
length-round false none n c cubics h e = ground arith
length-round false (some cs) n c cubics h e = ground (arith, h cs refl)

length-cubic_volumes :
    (fl : Floats) (target mean : Double) (vs cubics : List Double)
    → cubic_volumes fl target mean vs ≡ some cubics
    → length cubics ≡ length vs
unfolding cubic_volumes
length-cubic_volumes fl target mean [] [] e = refl
length-cubic_volumes fl target mean [] (c ∷ cubics) e = ground arith
length-cubic_volumes fl target mean (v ∷ vs) cubics e =
    length-round (fl.overflows (cubic_of fl target mean v)) (cubic_volumes fl target mean vs)
      (length vs) (fl.to_float (cubic_of fl target mean v)) cubics
      (length-cubic_volumes fl target mean vs) e

-- A result has one volume for each channel, and there are from 1 to 64 channels, each at a level that is
-- finite and at least 0; the target is a finite volume from 0 to 1.
pub length-proportional_cubic_volumes :
    (fl : Floats) (vs : List Double) (target : Double) (cubics : List Double)
    → proportional_cubic_volumes fl vs target ≡ some cubics
    → (length cubics ≡ length vs)
      × (0 < length vs)
      × (length vs ≤ 64)
      × (is_volume target ≡ true)
      × (any (λ v. not (is_level v)) vs ≡ false)
unfolding proportional_cubic_volumes
length-proportional_cubic_volumes fl vs target cubics e =
    ground (arith, length-cubic_volumes fl target (average fl vs) vs cubics)
