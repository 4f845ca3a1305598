-- ===== src/Settings/Disk.antt =====
-- src/settings/main.cpp: the configuration directory, and the system calls on it. Each call takes its
-- result from a sequence: 0 is a failure, a number above 0 is success, and for read and write the
-- number of bytes that were moved at most. When the sequence is at its end, every call fails.
pub mod Transfers
use nagi_shell.Prelude.{
  ℕ, zero, suc, Bool, true, false, not, List, [], ◌∷◌, ◌++◌, ◌==◌, if◌then◌else◌, take,
}

abbrev pub Bytes : Type 0
Bytes = List ℕ

-- The names that the program knows.
pub data Name : Type 0 where
  settings last_good legacy migration_backup version2_backup invalid_backup : Name

abbrev pub index : Name → ℕ
index settings = 0
index last_good = 1
index legacy = 2
index migration_backup = 3
index version2_backup = 4
index invalid_backup = 5

-- What a name stands for; `unsafe` is no regular file, or one of another user.
pub data Entry : Type 0 where
  missing unsafe : Entry
  regular : Bytes → Entry

pub data PathKind : Type 0 where
  missing_kind regular_kind unsafe_kind : PathKind

abbrev pub Entries : Type 0
Entries = Name → Entry

-- The staging files have fresh names; `staged` holds the contents of those that are there, the newest
-- first.
pub record Disk : Type 0 where
  pub entries : Entries
  pub staged : List Bytes
  pub results : List ℕ

unfoldable pub put : Name → Entry → Entries → Entries
put name e entries n = if index n == index name then e else entries n

-- The result of one call.
abbrev pub succeeds : List ℕ → Bool
succeeds [] = false
succeeds (zero ∷ rest) = false
succeeds (suc k ∷ rest) = true

abbrev pub rest_of : List ℕ → List ℕ
rest_of [] = []
rest_of (k ∷ rest) = rest

unfoldable pub call : Disk → Bool × Disk
call d = (succeeds d.results, record d { results = rest_of d.results })

abbrev pub drop : ℕ → Bytes → Bytes
drop zero bytes = bytes
drop (suc n) [] = []
drop (suc n) (b ∷ rest) = drop n rest

-- The outcome of a loop of reads or writes: whether all was moved, what was moved, and the results
-- that are left.
pub record Transfer : Type 0 where
  pub done : Bool
  pub moved : Bytes
  pub left : List ℕ

-- The loops of readFile and of writeAll.
unfoldable pub transfer : List ℕ → Bytes → Transfer
transfer results [] = record { done = true; moved = []; left = results }
transfer [] (b ∷ rest) = record { done = false; moved = []; left = [] }
transfer (zero ∷ results) (b ∷ rest) = record { done = false; moved = []; left = results }
transfer (suc k ∷ results) (b ∷ rest) =
    let t = transfer results (drop (suc k) (b ∷ rest)) in
    record t { moved = take (suc k) (b ∷ rest) ++ t.moved }
