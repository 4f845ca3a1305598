-- ===== src/Kwin/Observer/Commands.antt =====
-- src/kwin-virtual-desktops/main.cpp: readCommands, consumeCommands and handleCommand.
use nagi_shell.Prelude.{
  ℕ, Bool, true, false, ◌&&◌, ◌||◌, Option, some, List, [], ◌∷◌, ◌++◌, ◌==◌, ltb, list_eq,
  if◌then◌else◌, length,
}
use nagi_shell.Notifications.Text.{literal}
use nagi_shell.Bytes.{Bytes, split_lines}
use nagi_shell.Bytes.Lines.{join}
use nagi_shell.Json.{Json, object, Fields, value, has_exact_keys, string_of}
use nagi_shell.Kwin.Snapshot.{Codec}
use nagi_shell.Kwin.Observer.{Session, WorkspaceConsensusObserver, shutdown}

abbrev pub maximum_command_length : ℕ
maximum_command_length = 4096

-- The only command.
abbrev pub is_shutdown_object : Fields → Bool
is_shutdown_object o =
    has_exact_keys o (literal "op" ∷ [])
    && list_eq (string_of (value (literal "op") o)) (literal "shutdown")

abbrev pub is_shutdown_document : Option Json → Bool
is_shutdown_document (some (object o)) = is_shutdown_object o
is_shutdown_document _ = false

unfoldable pub is_shutdown : Codec → Bytes → Bool
is_shutdown c frame = is_shutdown_document (c.from_json frame)

-- handleCommand.
unfoldable pub handle_frame :
    Session → Bytes → WorkspaceConsensusObserver → WorkspaceConsensusObserver
unfolding is_shutdown
handle_frame w frame s = if is_shutdown w.codec frame then shutdown w true s else s

-- One round of consumeCommands that finds a newline.
unfoldable pub take_line : Session → Bytes → WorkspaceConsensusObserver → WorkspaceConsensusObserver
unfolding handle_frame
take_line w line s =
    if s.discarding_command
    then record s { discarding_command = false }
    else if length line == 0 || ltb maximum_command_length (length line)
    then s
    else handle_frame w line s

-- The round that finds none.
unfoldable pub keep_rest : Bytes → WorkspaceConsensusObserver → WorkspaceConsensusObserver
keep_rest rest s =
    if s.shutting_down
    then record s { command_buffer = rest }
    else if s.discarding_command
    then record s { command_buffer = [] }
    else if ltb maximum_command_length (length rest)
    then record s { command_buffer = []; discarding_command = true }
    else record s { command_buffer = rest }

-- The loop of consumeCommands, over the lines of the buffer and what is left behind the last.
unfoldable pub consume_lines :
    Session → List Bytes → Bytes → WorkspaceConsensusObserver → WorkspaceConsensusObserver
unfolding take_line keep_rest
consume_lines w [] rest s = keep_rest rest s
consume_lines w (line ∷ lines) rest s =
    let later = consume_lines w lines rest (take_line w line s) in
    if s.shutting_down then record s { command_buffer = join (line ∷ lines) rest } else later

-- readCommands, of the bytes that were read.
unfoldable pub read_bytes :
    Session → Bytes → WorkspaceConsensusObserver → WorkspaceConsensusObserver
unfolding consume_lines
read_bytes w bytes s =
    let found = split_lines (s.command_buffer ++ bytes) in
    if s.shutting_down then s else consume_lines w found.lines found.rest s
