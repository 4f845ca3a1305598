-- ===== src/Audio/Volume.antt =====
-- src/pipewire-audio/volume.h and volume.cpp. The arithmetic of floating-point numbers is a parameter.
pub mod Channels
use nagi_shell.Prelude.{
  ℕ, Bool, true, false, not, ◌&&◌, ◌||◌, Option, none, some, List, [], ◌∷◌, ◌==◌, ltb, leb,
  if◌then◌else◌, length, any,
}
use nagi_shell.Prelude.Int.{ℤ, pos, negsuc}
use nagi_shell.Json.{Double, integral, between, not_finite}
use nagi_shell.Audio.Protocol.{is_volume}

-- The operations, with rounding; `tiny` is whether a number is at most 0.000001, and `overflows`
-- whether it is not finite, or greater than the largest float.
pub record Floats : Type 0 where
  pub add : Double → Double → Double
  pub mul : Double → Double → Double
  pub div : Double → Double → Double
  pub cbrt : Double → Double
  pub to_float : Double → Double
  pub of_count : ℕ → Double
  pub tiny : Double → Bool
  pub overflows : Double → Bool

-- std::isfinite, and not less than 0.
abbrev pub is_level : Double → Bool
is_level (integral (pos n)) = true
is_level (integral (negsuc n)) = false
is_level (between (pos n) k) = true
is_level (between (negsuc n) k) = false
is_level not_finite = false

abbrev pub accumulate : Floats → Double → List Double → Double
accumulate fl total [] = total
accumulate fl total (v ∷ rest) = accumulate fl (fl.add total v) rest

abbrev pub average : Floats → List Double → Double
average fl volumes =
    fl.div (accumulate fl (integral (pos 0)) volumes) (fl.of_count (length volumes))

-- One round of the loop.
abbrev pub cubic_of : Floats → Double → Double → Double → Double
cubic_of fl target mean current =
    let visual = if fl.tiny mean then target else fl.div (fl.mul current target) mean in
    fl.mul (fl.mul visual visual) visual

unfoldable pub cubic_volumes : Floats → Double → Double → List Double → Option (List Double)
cubic_volumes fl target mean [] = some []
cubic_volumes fl target mean (v ∷ rest) =
    let cubic = cubic_of fl target mean v in
    let later = cubic_volumes fl target mean rest in
    if fl.overflows cubic
    then none
    else elim later [ none ↦ none | some cubics ↦ some (fl.to_float cubic ∷ cubics) ]

-- proportionalCubicVolumes.
unfoldable pub proportional_cubic_volumes : Floats → List Double → Double → Option (List Double)
unfolding cubic_volumes is_volume
proportional_cubic_volumes fl volumes target =
    if length volumes == 0
      || ltb 64 (length volumes)
      || not (is_volume target)
      || any (λ v. not (is_level v)) volumes
    then none
    else cubic_volumes fl target (average fl volumes) volumes
