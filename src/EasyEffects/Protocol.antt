-- ===== src/EasyEffects/Protocol.antt =====
-- src/easyeffects-status/protocol.h and protocol.cpp: the names of presets and the response to the
-- request for the last one. The Unicode database, QString::toUcs4, QString::toUtf8 and the decoder are
-- parameters; `decode` is `none` on an error.
pub mod Responses
use nagi_shell.Prelude.{
  ℕ, zero, suc, ◌+◌, Bool, true, false, not, ◌&&◌, ◌||◌, Option, none, some, List, [], ◌∷◌, ◌==◌,
  ltb, leb, if◌then◌else◌, length, take, any,
}
use nagi_shell.Notifications.Text.{QString, literal}
use nagi_shell.Bytes.{index_of}

-- The categories that the code tells apart.
pub data Category : Type 0 where
  other_control other_format other_surrogate other_not_assigned : Category
  separator_line separator_paragraph another : Category

pub record Unicode : Type 0 where
  pub to_ucs4 : QString → List ℕ
  pub to_utf8 : QString → List ℕ
  pub decode : List ℕ → Option QString
  pub category : ℕ → Category

pub data PresetState : Type 0 where
  no_preset last_loaded unavailable invalid timeout : PresetState

pub record PresetResult : Type 0 where
  pub state : PresetState
  pub name : QString

-- presetStateName.
unfoldable pub preset_state_name : PresetState → QString
preset_state_name no_preset = literal "none"
preset_state_name last_loaded = literal "lastLoaded"
preset_state_name unavailable = literal "unavailable"
preset_state_name invalid = literal "invalid"
preset_state_name timeout = literal "timeout"

abbrev pub maximum_name_bytes : ℕ
maximum_name_bytes = 100

abbrev pub maximum_unicode_scalars : ℕ
maximum_unicode_scalars = 128

unfoldable pub is_unsafe_category : Category → Bool
is_unsafe_category another = false
is_unsafe_category _ = true

abbrev pub is_unsafe_scalar : Unicode → ℕ → Bool
is_unsafe_scalar u scalar =
    scalar == b':' || scalar == b'/' || scalar == b'\\' || is_unsafe_category (u.category scalar)

-- hasSafePresetCharacters.
unfoldable pub has_safe_preset_characters : Unicode → QString → Bool
unfolding is_unsafe_category
has_safe_preset_characters u name =
    let scalars = u.to_ucs4 name in
    not (length scalars == 0)
    && leb (length scalars) maximum_unicode_scalars
    && not (any (is_unsafe_scalar u) scalars)

-- isValidPresetName.
unfoldable pub is_valid_preset_name : Unicode → QString → Bool
unfolding has_safe_preset_characters
is_valid_preset_name u name =
    let encoded = u.to_utf8 name in
    not (length encoded == 0)
    && leb (length encoded) maximum_name_bytes
    && has_safe_preset_characters u name

abbrev pub is_byte : ℕ → ℕ → Bool
is_byte c b = b == c

abbrev pub invalid_result : PresetResult
invalid_result = record { state = invalid; name = [] }

unfoldable pub parse_name : Unicode → List ℕ → PresetResult
parse_name u [] = record { state = no_preset; name = [] }
parse_name u (b ∷ rest) = elim (u.decode (b ∷ rest)) [
  | none ↦ invalid_result
  | some name ↦
      if is_valid_preset_name u name
      then record { state = last_loaded; name = name }
      else invalid_result
]

-- parsePresetResponse.
unfoldable pub parse_preset_response : Unicode → List ℕ → PresetResult
unfolding parse_name index_of
parse_preset_response u response = elim (index_of b'\n' response) [
  | none ↦ invalid_result
  | some newline ↦
      if not (suc newline == length response)
        || ltb maximum_name_bytes newline
        || any (is_byte b'\r') response
      then invalid_result
      else parse_name u (take newline response)
]
