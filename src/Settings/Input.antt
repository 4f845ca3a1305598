-- ===== src/Settings/Input.antt =====
-- src/settings/main.cpp: the arguments and the standard input.
pub mod Reading
use nagi_shell.Prelude.{
  ℕ, zero, suc, ◌+◌, ◌-◌, min, Bool, true, false, Option, none, some, List, [], ◌∷◌, ◌++◌, ◌==◌,
  ltb, if◌then◌else◌, length, take,
}
use nagi_shell.Settings.Disk.{Bytes, drop}
use nagi_shell.Settings.Operations.{maximum_settings_bytes}

-- What the loop has read, put before what it reads later.
abbrev pub put_before : Bytes → Option Bytes → Option Bytes
put_before got none = none
put_before got (some later) = some (got ++ later)

-- The loop of readStandardInput, for a number of bytes that are missing. Each read takes from the input at
-- most as many as its result says; 0 is a failure, and nothing is read at the end of the input.
unfoldable pub read_loop : List ℕ → ℕ → Bytes → Option Bytes
read_loop results zero input = some []
read_loop [] (suc n) input = none
read_loop (k ∷ results) (suc n) input =
    let got = take (min k (suc n)) input in
    let later = read_loop results (suc n - length got) (drop (length got) input) in
    if length got == 0 then none else put_before got later

-- readStandardInput.
unfoldable pub read_standard_input : List ℕ → ℕ → Bytes → Option Bytes
unfolding read_loop
read_standard_input results byte_count input =
    if ltb maximum_settings_bytes byte_count then none else read_loop results byte_count input

-- parseSize; std::stoull gives the number and how many characters it consumed, or throws.
unfoldable pub parse_size : (Bytes → Option (ℕ × ℕ)) → Bytes → Option ℕ
parse_size stoull text = elim (stoull text) [
  | none ↦ none
  | some (parsed, consumed) ↦
      if consumed == length text
      then if ltb maximum_settings_bytes parsed then none else some parsed
      else none
]
