-- ===== src/Settings/Files.antt =====
-- src/settings/main.cpp: reading a file and replacing one.
pub mod Atomic
use nagi_shell.Prelude.{
  ℕ, Bool, true, false, not, ◌&&◌, ◌||◌, Option, none, some, List, [], ◌∷◌, ◌==◌, ltb,
  if◌then◌else◌, length,
}
use nagi_shell.Settings.Disk.{
  Bytes, Name, Entry, missing, unsafe, regular, PathKind, missing_kind, regular_kind, unsafe_kind,
  Disk, put, call, Transfer, transfer,
}

abbrev pub kind_of : Entry → PathKind
kind_of missing = missing_kind
kind_of unsafe = unsafe_kind
kind_of (regular content) = regular_kind

-- pathKind; a failure of fstatat for another reason than ENOENT is unsafe.
unfoldable pub path_kind : Name → Disk → PathKind × Disk
unfolding call
path_kind name d =
    let (found, d') = call d in (if found then kind_of (d.entries name) else unsafe_kind, d')

abbrev pub is_missing : PathKind → Bool
is_missing missing_kind = true
is_missing _ = false

abbrev pub is_unsafe : PathKind → Bool
is_unsafe unsafe_kind = true
is_unsafe _ = false

-- The loop of reads.
abbrev pub read_content : Bytes → Disk → Option Bytes × Disk
read_content content d =
    let t = transfer d.results content in
    (if t.done then some t.moved else none, record d { results = t.left })

-- From the call of openat on.
unfoldable pub read_opened : ℕ → Bytes → Disk → Option Bytes × Disk
unfolding call transfer
read_opened maximum content d =
    let (opened, d1) = call d in
    let (stated, d2) = call d1 in
    if not opened
    then (none, d1)
    else if not stated || ltb maximum (length content)
    then (none, d2)
    else read_content content d2

unfoldable pub read_entry : ℕ → Entry → Disk → Option Bytes × Disk
unfolding read_opened
read_entry maximum (regular content) d = read_opened maximum content d
read_entry maximum _ d = (none, d)

-- readFile.
unfoldable pub read_file : Name → ℕ → Disk → Option Bytes × Disk
unfolding call read_entry
read_file name maximum d =
    let (found, d') = call d in if found then read_entry maximum (d.entries name) d' else (none, d')

-- unlinkat of the staging file, which is tried whether or not there is one.
abbrev pub without_newest : List Bytes → List Bytes
without_newest [] = []
without_newest (content ∷ rest) = rest

unfoldable pub unlink_staged : Bool → Disk → Bool × Disk
unfolding call
unlink_staged created d =
    let (done, d') = call d in
    (done, record d' { staged = if done && created then without_newest d'.staged else d'.staged })

-- writeAll, fchmod and fsync on the new staging file.
unfoldable pub fill_staged : Bytes → Disk → Bool × Disk
unfolding call transfer
fill_staged content d =
    let t = transfer d.results content in
    let d1 = record d { staged = t.moved ∷ d.staged; results = t.left } in
    let (changed, d2) = call d1 in
    let (synced, d3) = call d2 in
    if not t.done then (false, d1) else if not changed then (false, d2) else (synced, d3)

-- The staging file: whether it is complete, and whether it was created.
unfoldable pub stage : Bytes → Disk → Bool × Bool × Disk
unfolding call fill_staged
stage content d =
    let (created, d1) = call d in
    let (complete, d2) = fill_staged content d1 in
    if created then (complete, true, d2) else (false, false, d1)

abbrev pub newest : List Bytes → Bytes
newest [] = []
newest (content ∷ rest) = content

-- The staging file takes the name, with its content.
abbrev pub installed : Name → Disk → Disk
installed name d = record d {
  entries = put name (regular (newest d.staged)) d.entries;
  staged = without_newest d.staged;
}

-- linkat, and unlinkat of the staging file.
unfoldable pub link_staged : Name → Disk → Bool × Disk
unfolding call unlink_staged
link_staged name d =
    let (linked, d1) = call d in
    let d2 = record d1 { entries = put name (regular (newest d1.staged)) d1.entries } in
    if linked && is_missing (kind_of (d.entries name)) then unlink_staged true d2 else (false, d1)

-- installNoReplace; `renames` is whether the kernel has renameat2 (otherwise errno is ENOSYS or EINVAL).
unfoldable pub install_no_replace : Bool → Name → Disk → Bool × Disk
unfolding call link_staged
install_no_replace renames name d =
    let (renamed, d1) = call d in
    if not renames
    then link_staged name d1
    else if renamed && is_missing (kind_of (d.entries name))
    then (true, installed name d1)
    else (false, d1)

unfoldable pub install : Bool → Bool → Name → Disk → Bool × Disk
unfolding call install_no_replace
install renames no_replace name d =
    let (renamed, d1) = call d in
    if no_replace
    then install_no_replace renames name d
    else if renamed
    then (true, installed name d1)
    else (false, d1)

-- From the staging file on.
unfoldable pub replace_file : Bool → Bool → Name → Bytes → Disk → Bool × Disk
unfolding call stage install unlink_staged
replace_file renames no_replace name content d =
    let (complete, created, d1) = stage content d in
    let (done, d2) = install renames no_replace name d1 in
    if not complete
    then (false, (unlink_staged created d1).1)
    else if not done
    then (false, (unlink_staged true d2).1)
    else call d2

-- writeAtomic.
unfoldable pub write_atomic : Bool → Bool → Name → Bytes → Disk → Bool × Disk
unfolding path_kind replace_file
write_atomic renames no_replace name content d =
    let (kind, d') = path_kind name d in
    if is_unsafe kind || no_replace && not (is_missing kind)
    then (false, d')
    else replace_file renames no_replace name content d'
