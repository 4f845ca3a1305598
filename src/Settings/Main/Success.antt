-- ===== src/Settings/Main/Success.antt =====
-- src/settings/main.cpp: what the program has done where it exits with the status 0.
use nagi_shell.Prelude.{ℕ, ◌≡◌, ◌≤◌, ◌⊎◌, true, some, List, ◌∷◌, length}
use nagi_shell.Notifications.Text.{literal}
use nagi_shell.Settings.Disk.{Bytes, Disk}
use nagi_shell.Settings.Input.Reading.{Reads}
use nagi_shell.Settings.Operations.Success.{Performs}
use nagi_shell.Settings.Main.{Attempt, no_entry, entry, made, exists, Result, Invocation}
use nagi_shell.Settings.Main.Inspection.{Inspected}

-- What the rounds find: a directory of the user's own, whose mode was changed; or none, and one was made;
-- or none, but another process made one meanwhile, and the next rounds find it.
pub data Ensured : List Attempt → Type 0 where
  own :
      {a : Attempt} {later : List Attempt}
      → a.status ≡ entry true true
      → a.changes_mode ≡ true
      → Ensured (a ∷ later)
  fresh :
      {a : Attempt} {later : List Attempt}
      → a.status ≡ no_entry
      → a.makes ≡ made
      → Ensured (a ∷ later)
  raced :
      {a : Attempt} {later : List Attempt}
      → a.status ≡ no_entry
      → a.makes ≡ exists
      → Ensured later
      → Ensured (a ∷ later)

-- The directory's path is absolute, and the directory is there and open.
abbrev pub Ready : Invocation → Type 0
Ready v = ((path : Bytes) × (v.directory ≡ b'/' ∷ path)) × Ensured v.attempts × (v.opens ≡ true)

-- The payload: the byte count is the whole of its argument, at most 32768, and as many bytes are the
-- first of the standard input.
abbrev pub Accepted : Invocation → Bytes → Type 0
Accepted v content =
    (text : Bytes) × ((count : ℕ) × ((v.byte_count ≡ some text)
        × (v.stoull text ≡ some (count, length text))
        × (count ≤ 32768)
        × Reads count v.input content))

abbrev pub Succeeded : Invocation → Disk → Result → Type 0
Succeeded v d r =
    Ready v
    × (((v.operation ≡ literal "inspect") × Inspected d r)
        ⊎ ((content : Bytes) × Accepted v content
            × Performs content d.entries r.disk.entries v.operation))
