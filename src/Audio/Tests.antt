-- ===== src/Audio/Tests.antt =====
-- src/pipewire-audio/protocol.cpp: commands on small inputs.
use nagi_shell.Prelude.{ℕ, ◌≤◌, ◌<◌, ◌≡◌, refl, false, Option, some, List, length, arith}
use nagi_shell.Prelude.Int.{pos}
use nagi_shell.Prelude.Result.{ok}
use nagi_shell.Notifications.Text.{literal}
use nagi_shell.Json.{Json, between, object, Fields}
use nagi_shell.Audio.Protocol.{
  output, maximum_command_bytes, parse_command, parse_object, is_volume,
}
use nagi_shell.Audio.Protocol.Schema.{
  Request, volume_request, InRange, Accepts, to_command, to_fields,
}
use nagi_shell.Audio.Protocol.Acceptance.{parse_command-Accepts}
use nagi_shell.Audio.Protocol.RoundTrip.{parse_object-to_fields}

-- Half the volume, in a gesture that goes on.
abbrev half_volume : Request
half_volume = volume_request output 5 40 7 (between (pos 0) 1) false

half_volume-InRange : InRange half_volume
unfolding is_volume
half_volume-InRange = ((omega arith, omega arith), omega arith, (omega arith, omega arith), refl)

parse_object-to_fields_example : parse_object (to_fields half_volume) ≡ ok (to_command half_volume)
parse_object-to_fields_example = parse_object-to_fields half_volume half_volume-InRange

-- A parser that reads one document.
abbrev read_half_volume : List ℕ → Option Json
read_half_volume line = some (object (to_fields half_volume))

half_volume-parsed : parse_command read_half_volume (literal "{...}") ≡ ok (to_command half_volume)
unfolding parse_command
half_volume-parsed = parse_object-to_fields half_volume half_volume-InRange

parse_command-Accepts_example :
    (0 < length (literal "{...}"))
    × (length (literal "{...}") ≤ maximum_command_bytes)
    × ((o : Fields) × (read_half_volume (literal "{...}") ≡ some (object o))
        × Accepts o (to_command half_volume))
parse_command-Accepts_example =
    parse_command-Accepts read_half_volume (literal "{...}") (to_command half_volume)
      half_volume-parsed
