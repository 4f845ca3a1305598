-- ===== src/Bytes/Tests.antt =====
-- A buffer of two lines and the start of a third.
use nagi_shell.Prelude.{◌≡◌, ◌++◌}
use nagi_shell.Notifications.Text.{literal}
use nagi_shell.Bytes.{Bytes, split_lines}
use nagi_shell.Bytes.Lines.{join, Plain, extend, split_lines_lem, split_lines-append}

abbrev buffer : Bytes
buffer = literal "track\nset-volume\nun"

split_lines_lem_example :
    (join (split_lines buffer).lines (split_lines buffer).rest ≡ buffer)
    × Plain (split_lines buffer)
split_lines_lem_example = split_lines_lem buffer

split_lines-append_example :
    split_lines (buffer ++ literal "track\n") ≡ extend (split_lines buffer) (literal "track\n")
split_lines-append_example = split_lines-append buffer (literal "track\n")
