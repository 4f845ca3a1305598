-- ===== src/Bytes/Leads.antt =====
-- A buffer that starts with a part of a line.
use nagi_shell.Prelude.{ℕ, ◌≡◌, refl, Bool, false, ◌||◌, List, [], ◌∷◌, ◌++◌, ◌==◌, arith}
use nagi_shell.Bytes.{Bytes, Split, prepend, split_lines}
use nagi_shell.Bytes.Lines.{has_newline}

-- An unfinished line goes before the first line of what follows.
abbrev pub lead : Bytes → List Bytes → Bytes → Split
lead p [] rest = record { lines = []; rest = p ++ rest }
lead p (line ∷ lines) rest = record { lines = (p ++ line) ∷ lines; rest = rest }

prepend-lead :
    (c : ℕ) (p : Bytes) (lines : List Bytes) (rest : Bytes)
    → prepend c (lead p lines rest).lines (lead p lines rest).rest ≡ lead (c ∷ p) lines rest
prepend-lead c p [] rest = refl
prepend-lead c p (line ∷ lines) rest = refl

lead-[] :
    (lines : List Bytes) (rest : Bytes) → record { lines = lines; rest = rest } ≡ lead [] lines rest
lead-[] [] rest = refl
lead-[] (line ∷ lines) rest = refl

pub split_lines-lead :
    (p x : Bytes)
    → has_newline p ≡ false
    → split_lines (p ++ x) ≡ lead p (split_lines x).lines (split_lines x).rest
unfolding split_lines
split_lines-lead [] x e = lead-[] (split_lines x).lines (split_lines x).rest
split_lines-lead (c ∷ p) x e =
    rw
      (
        head (c == b'\n') (has_newline p) e,
        split_lines-lead p x (tail (c == b'\n') (has_newline p) e),
      )
      (prepend-lead c p (split_lines x).lines (split_lines x).rest)
  where
    head : (a b : Bool) → (a || b) ≡ false → a ≡ false
    head a b h = ground arith

    tail : (a b : Bool) → (a || b) ≡ false → b ≡ false
    tail a b h = ground arith
