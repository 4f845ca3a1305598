-- ===== src/Bytes.antt =====
-- QByteArray as the helpers use it on their input: the position of a byte, and the lines of a buffer.
pub mod Lines
pub mod Leads
mod Tests
use nagi_shell.Prelude.{ℕ, suc, Bool, Option, none, some, List, [], ◌∷◌, ◌==◌, if◌then◌else◌}

abbrev pub Bytes : Type 0
Bytes = List ℕ

-- QByteArray::indexOf; -1 is `none`.
unfoldable pub index_of : ℕ → Bytes → Option ℕ
index_of c [] = none
index_of c (b ∷ rest) =
    let later = index_of c rest in
    if b == c then some 0 else elim later [ none ↦ none | some i ↦ some (suc i) ]

-- The lines that a buffer holds, and what is left behind the last newline.
pub record Split : Type 0 where
  pub lines : List Bytes
  pub rest : Bytes

abbrev pub prepend : ℕ → List Bytes → Bytes → Split
prepend c [] rest = record { lines = []; rest = c ∷ rest }
prepend c (line ∷ lines) rest = record { lines = (c ∷ line) ∷ lines; rest = rest }

-- The loop `while ((newline = buffer.indexOf('\n')) >= 0)` that takes one line after another.
unfoldable pub split_lines : Bytes → Split
split_lines [] = record { lines = []; rest = [] }
split_lines (c ∷ bytes) =
    let s = split_lines bytes in
    if c == b'\n' then record s { lines = [] ∷ s.lines } else prepend c s.lines s.rest

-- line.endsWith('\r') and line.chop(1).
unfoldable pub chop_return : Bytes → Bytes
chop_return [] = []
chop_return (c ∷ []) = if c == b'\r' then [] else c ∷ []
chop_return (c ∷ d ∷ rest) = c ∷ chop_return (d ∷ rest)
