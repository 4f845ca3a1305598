-- ===== src/EasyEffects/Tests.antt =====
-- src/easyeffects-status/protocol.cpp: responses on small inputs.
use nagi_shell.Prelude.{ℕ, ◌≡◌, refl, some, List, [], ◌∷◌, ◌++◌}
use nagi_shell.Notifications.Text.{literal}
use nagi_shell.EasyEffects.Protocol.{
  Unicode, another, last_loaded, parse_preset_response, is_valid_preset_name, preset_state_name,
}
use nagi_shell.EasyEffects.Protocol.Responses.{Names, parse_preset_response-Names}

-- The characters of ASCII that can be seen.
abbrev ascii : Unicode
ascii = record {
  to_ucs4 = λ name. name;
  to_utf8 = λ name. name;
  decode = λ bytes. some bytes;
  category = λ scalar. another;
}

abbrev response : List ℕ
response = literal "Bass" ++ b'\n' ∷ []

response-loaded : (parse_preset_response ascii response).state ≡ last_loaded
unfolding parse_preset_response is_valid_preset_name
response-loaded = refl

parse_preset_response-Names_example :
    Names ascii response (parse_preset_response ascii response).name
parse_preset_response-Names_example = parse_preset_response-Names ascii response response-loaded

-- The names of the states that the helper sends.
last_loaded-named : preset_state_name last_loaded ≡ literal "lastLoaded"
unfolding preset_state_name
last_loaded-named = refl
