-- ===== src/Bytes/Lines.antt =====
-- The lines of a buffer and the rest are the buffer, and they do not depend on where it was cut.
use nagi_shell.Prelude.{
  ℕ, ◌≡◌, refl, ap, ◌∙◌, Bool, false, List, [], ◌∷◌, ◌++◌, ◌==◌, any, arith, ==_iff, All, if_ind,
  Bool-cases, inl, inr,
}
use nagi_shell.Bytes.{Bytes, Split, prepend, split_lines}

-- Each line with its newline, one after another, and the rest.
abbrev pub join : List Bytes → Bytes → Bytes
join [] rest = rest
join (line ∷ lines) rest = line ++ b'\n' ∷ join lines rest

join-prepend :
    (c : ℕ) (lines : List Bytes) (rest : Bytes)
    → join (prepend c lines rest).lines (prepend c lines rest).rest ≡ c ∷ join lines rest
join-prepend c [] rest = refl
join-prepend c (line ∷ lines) rest = refl

join-split_lines : (bytes : Bytes) → join (split_lines bytes).lines (split_lines bytes).rest ≡ bytes
unfolding split_lines
join-split_lines [] = refl
join-split_lines (c ∷ bytes) = elim (Bool-cases (c == b'\n')) [
  | inl e ↦ rw (e, (==_iff c b'\n').0 e) (ap (λ t. b'\n' ∷ t) (join-split_lines bytes))
  | inr e ↦ rw e (
      join-prepend c (split_lines bytes).lines (split_lines bytes).rest
      ∙ ap (λ t. c ∷ t) (join-split_lines bytes))
]

abbrev pub extend : Split → Bytes → Split
extend s ys =
    let t = split_lines (s.rest ++ ys) in record { lines = s.lines ++ t.lines; rest = t.rest }

prepend-extend :
    (c : ℕ) (lines : List Bytes) (rest ys : Bytes)
    → (c == b'\n') ≡ false
    → let t = split_lines (rest ++ ys) in
      prepend c (lines ++ t.lines) t.rest ≡ extend (prepend c lines rest) ys
unfolding split_lines
prepend-extend c [] rest ys e = rw e refl
prepend-extend c (line ∷ lines) rest ys e = refl

-- The lines of a buffer that is continued are those that it had, and those of its rest, continued.
pub split_lines-append : (xs ys : Bytes) → split_lines (xs ++ ys) ≡ extend (split_lines xs) ys
unfolding split_lines
split_lines-append [] ys = refl
split_lines-append (c ∷ xs) ys = elim (Bool-cases (c == b'\n')) [
  | inl e ↦ rw (e, split_lines-append xs ys) refl
  | inr e ↦
      rw (e, split_lines-append xs ys)
        (prepend-extend c (split_lines xs).lines (split_lines xs).rest ys e)
]

-- No line and no rest holds a newline.
abbrev pub has_newline : Bytes → Bool
has_newline bytes = any (λ b. b == b'\n') bytes

abbrev pub Plain : Split → Type 0
Plain s = All (λ line. has_newline line ≡ false) s.lines × (has_newline s.rest ≡ false)

prepend-Plain :
    (c : ℕ) (lines : List Bytes) (rest : Bytes)
    → (c == b'\n') ≡ false
    → Plain (record { lines = lines; rest = rest })
    → Plain (prepend c lines rest)
prepend-Plain c [] rest e h = (tt, ground (arith, e, h.1))
prepend-Plain c (line ∷ lines) rest e h = ((ground (arith, e, h.0.0), h.0.1), h.1)

split_lines-Plain : (bytes : Bytes) → Plain (split_lines bytes)
unfolding split_lines
split_lines-Plain [] = (tt, refl)
split_lines-Plain (c ∷ bytes) =
    let h = split_lines-Plain bytes in
    if_ind Plain (c == b'\n') (λ _. ((refl, h.0), h.1))
      λ e. prepend-Plain c (split_lines bytes).lines (split_lines bytes).rest e h

-- The lines of a buffer, each with its newline, and then the rest are the buffer; no line and no rest
-- holds a newline.
pub split_lines_lem :
    (bytes : Bytes)
    → (join (split_lines bytes).lines (split_lines bytes).rest ≡ bytes) × Plain (split_lines bytes)
split_lines_lem bytes = (join-split_lines bytes, split_lines-Plain bytes)
