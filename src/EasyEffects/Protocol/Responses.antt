-- ===== src/EasyEffects/Protocol/Responses.antt =====
-- Which responses name a preset.
use nagi_shell.Prelude.{
  ℕ, zero, suc, ◌≤◌, ◌<◌, ◌≡◌, refl, ap, sym, subst, true, false, not, ◌||◌, some, List, [], ◌∷◌,
  ◌++◌, ◌==◌, ltb, length, take, any, arith, if_ind, option_ind,
}
use nagi_shell.Bytes.{index_of}
use nagi_shell.Notifications.Text.{QString}
use nagi_shell.EasyEffects.Protocol.{
  Unicode, last_loaded, PresetResult, maximum_name_bytes, is_valid_preset_name, is_byte, parse_name,
  parse_preset_response,
}

-- The bytes before the first newline, where this is the last byte.
index_of_last :
    (c n : ℕ) (r : List ℕ)
    → index_of c r ≡ some n
    → suc n ≡ length r
    → (r ≡ take n r ++ c ∷ []) × (length (take n r) ≡ n) × (any (is_byte c) (take n r) ≡ false)
unfolding index_of
index_of_last c n [] h e = absurd (cc)
index_of_last c zero (b ∷ []) h e =
    let same : b ≡ c = ground (arith, h) in (ap (λ t. t ∷ []) same, refl, refl)
index_of_last c zero (b ∷ b' ∷ rest) h e = absurd (omega arith)
index_of_last c (suc n) (b ∷ rest) h e =
    let other : (b == c) ≡ false = ground (arith, h) in
    let found : index_of c rest ≡ some n = ground (arith, h) in
    let (split, long, new) = index_of_last c n rest found (omega (arith, e)) in
    (ap (λ t. b ∷ t) split, ap suc long, ground (arith, other, new))

-- The response is the encoding of a valid name on a line of its own.
abbrev pub Names : Unicode → List ℕ → QString → Type 0
Names u response name =
    (bytes : List ℕ) × (response ≡ bytes ++ b'\n' ∷ [])
    × (0 < length bytes)
    × (length bytes ≤ maximum_name_bytes)
    × (any (is_byte b'\n') bytes ≡ false)
    × (u.decode bytes ≡ some name)
    × (is_valid_preset_name u name ≡ true)

parse_name-loaded :
    (u : Unicode) (bytes : List ℕ)
    → (parse_name u bytes).state ≡ last_loaded
    → (0 < length bytes)
      × (u.decode bytes ≡ some (parse_name u bytes).name)
      × (is_valid_preset_name u (parse_name u bytes).name ≡ true)
unfolding parse_name
parse_name-loaded u [] h = absurd (cc)
parse_name-loaded u (b ∷ rest) h = (omega arith, ground (arith, h), ground (arith, h))

-- Where parsePresetResponse reports a loaded preset, the response is a line of 1 to 100 bytes that
-- decode to its name, ended by the only newline, and the name is a valid one.
pub parse_preset_response-Names :
    (u : Unicode) (response : List ℕ)
    → (parse_preset_response u response).state ≡ last_loaded
    → Names u response (parse_preset_response u response).name
unfolding parse_preset_response
parse_preset_response-Names u response =
    let L = λ (p : PresetResult). p.state ≡ last_loaded → Names u response p.name in
    option_ind L (index_of b'\n' response) (λ e h. absurd (cc))
      λ n e.
        if_ind L
          (not (suc n == length response)
            || ltb maximum_name_bytes n
            || any (is_byte b'\r') response)
          (λ i h. absurd (cc))
          λ i h.
            let (split, long, new) = index_of_last b'\n' n response e (ground (arith, i)) in
            let (some_byte, decoded, valid) = parse_name-loaded u (take n response) h in
            (
              take n response,
              split,
              some_byte,
              subst (λ k. k ≤ maximum_name_bytes) (sym long) (ground (arith, i)),
              new,
              decoded,
              valid,
            )
