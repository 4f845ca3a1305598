-- ===== src/Settings/Tests.antt =====
-- src/settings/main.cpp: operations on small directories.
use nagi_shell.Prelude.{ℕ, ◌≡◌, ◌≤◌, refl, true, false, some, List, [], ◌∷◌, ◌++◌, take, arith}
use nagi_shell.Notifications.Text.{literal}
use nagi_shell.Settings.Disk.{
  Bytes, settings, last_good, legacy, migration_backup, version2_backup, invalid_backup, Entries,
  missing, regular, Disk, put,
}
use nagi_shell.Settings.Files.{read_file, write_atomic}
use nagi_shell.Settings.Files.Atomic.{Wrote, write_atomic-Wrote}
use nagi_shell.Settings.Input.{read_loop, read_standard_input}
use nagi_shell.Settings.Input.Reading.{Reads, read_standard_input-Reads, read_standard_input-All}
use nagi_shell.Settings.Main.{Invocation, no_entry, entry, made, exists}
use nagi_shell.Settings.Operations.Bundles.{Either, write_bundle-Either}
use nagi_shell.Settings.Operations.{write_bundle, migrate, rewrite, perform_operation}
use nagi_shell.Settings.Operations.Backups.{Holds}
use nagi_shell.Settings.Operations.Preservation.{
  rewrite-keeps, rewrite-moves, migrate-moves, perform_operation-Holds,
}

-- Only the legacy file is there.
abbrev old_entries : Entries
old_entries legacy = regular (7 ∷ 8 ∷ 9 ∷ [])
old_entries _ = missing

-- The settings are there.
abbrev new_entries : Entries
new_entries settings = regular (4 ∷ 5 ∷ [])
new_entries last_good = regular (4 ∷ [])
new_entries _ = missing

-- Every call succeeds; reads and writes move two bytes at most.
abbrev twelve : List ℕ
twelve = 2 ∷ 2 ∷ 2 ∷ 2 ∷ 2 ∷ 2 ∷ 2 ∷ 2 ∷ 2 ∷ 2 ∷ 2 ∷ 2 ∷ []

abbrev disk_of : Entries → Disk
disk_of entries = record {
  entries = entries;
  staged = [];
  results = twelve ++ twelve ++ twelve ++ twelve;
}

-- The disk fails in the middle of the second file.
abbrev failing_disk : Disk
failing_disk = record { entries = old_entries; staged = []; results = twelve ++ 2 ∷ 2 ∷ 0 ∷ twelve }

abbrev text : Bytes
text = 1 ∷ 2 ∷ 3 ∷ []

migrate-done : (migrate true text (disk_of old_entries)).0 ≡ true
unfolding migrate put
migrate-done = refl

rewrite-done : (rewrite true false version2_backup text (disk_of new_entries)).0 ≡ true
unfolding rewrite put
rewrite-done = refl

migrate-moves_example :
    let e = (migrate true text (disk_of old_entries)).1.entries in
    (e legacy ≡ missing)
    × (e migration_backup ≡ regular (7 ∷ 8 ∷ 9 ∷ []))
    × (e settings ≡ regular text)
    × (e last_good ≡ regular text)
migrate-moves_example =
    migrate-moves true text (7 ∷ 8 ∷ 9 ∷ []) (disk_of old_entries) refl migrate-done

rewrite-moves_example :
    let e = (rewrite true false version2_backup text (disk_of new_entries)).1.entries in
    (e version2_backup ≡ regular (4 ∷ 5 ∷ []))
    × (e settings ≡ regular text)
    × (e last_good ≡ regular text)
rewrite-moves_example =
    rewrite-moves true false version2_backup text (4 ∷ 5 ∷ []) (disk_of new_entries) refl refl refl
      rewrite-done

rewrite-keeps_example :
    Holds settings invalid_backup
      (4 ∷ 5 ∷ [])
      (rewrite true true invalid_backup text (disk_of new_entries)).1.entries
rewrite-keeps_example =
    rewrite-keeps true true invalid_backup text (4 ∷ 5 ∷ []) (disk_of new_entries) refl refl refl

perform_operation-Holds_example :
    Holds legacy migration_backup
      (7 ∷ 8 ∷ 9 ∷ [])
      (perform_operation true (literal "migrate") text failing_disk).1.entries
perform_operation-Holds_example =
    perform_operation-Holds true (literal "migrate") text (7 ∷ 8 ∷ 9 ∷ []) failing_disk refl

write_atomic-Wrote_example :
    Wrote settings text new_entries
      (write_atomic true false settings text (disk_of new_entries)).1.entries
write_atomic-Wrote_example = write_atomic-Wrote true false settings text (disk_of new_entries)

read_three : read_standard_input (2 ∷ 2 ∷ []) 3 (text ++ text) ≡ some text
unfolding read_standard_input read_loop
read_three = refl

read_standard_input-Reads_example : Reads 3 (text ++ text) text × (3 ≤ 32768)
read_standard_input-Reads_example =
    read_standard_input-Reads (2 ∷ 2 ∷ []) 3 (text ++ text) text read_three

read_standard_input-All_example :
    read_standard_input twelve 3 (text ++ text) ≡ some (take 3 (text ++ text))
read_standard_input-All_example =
    read_standard_input-All twelve 3 (text ++ text) (omega arith) (omega arith) (omega arith)
      (omega arith)

abbrev writing : Invocation
writing = record {
  operation = literal "write";
  directory = literal "/home/user/.config/nagi-shell";
  byte_count = some (literal "3");
  attempts =
      record { status = no_entry; changes_mode = true; makes = exists }
      ∷ record { status = entry true true; changes_mode = true; makes = made }
      ∷ [];
  opens = true;
  stoull = λ t. some (3, 1);
  reads = twelve;
  input = text ++ text;
  renames = true;
}

-- The second file cannot be written, once the first one is.
abbrev half_written : Disk
half_written = record {
  entries = new_entries;
  staged = [];
  results = twelve ++ 2 ∷ 2 ∷ 2 ∷ 2 ∷ 0 ∷ twelve ++ twelve;
}

write_bundle-Either_example :
    Either (4 ∷ 5 ∷ []) text settings (write_bundle true false text half_written).1
    × Either (4 ∷ []) text last_good (write_bundle true false text half_written).1
unfolding read_file
write_bundle-Either_example =
    write_bundle-Either true false text (4 ∷ 5 ∷ []) (4 ∷ []) half_written refl refl

-- The first file is put back.
half_written-restored :
    (write_bundle true false text half_written).1.entries settings ≡ regular (4 ∷ 5 ∷ [])
unfolding write_bundle put
half_written-restored = refl
