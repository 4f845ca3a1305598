-- ===== src/Notifications/Text/Bounds.antt =====
-- Normalised text is within its byte limit and free of control characters and lone surrogates.
use nagi_shell.Prelude.{
  ℕ, zero, suc, ◌+◌, ◌-◌, ◌*◌, ◌/◌, ◌%◌, ◌≤◌, ◌<◌, ◌≡◌, refl, ◌⊎◌, inl, inr, Bool, true, false, [],
  ◌∷◌, ◌++◌, ltb, leb, subst, length, arith, Bool-cases,
}
use nagi_shell.Notifications.Text.{
  QString, is_control, is_surrogate, surrogate_to_ucs4, append_code_point, utf8_length, decode_unit,
  skip_line_feed, sanitize, normalize_loop, bounded_normalized,
}

-- A character that is no control character; a line feed is allowed, since it may stand for a carriage
-- return, and a tab where white space is preserved.
abbrev pub Allowed : Bool → ℕ → Type 0
Allowed preserve c =
    ((0x20 ≤ c) × (c < 0x7f)) ⊎ (0xa0 ≤ c) ⊎ (c ≡ b'\n') ⊎ ((preserve ≡ true) × (c ≡ b'\t'))

-- Well-formed UTF-16 of allowed characters, with the number of bytes that it takes in UTF-8: one, two or
-- three for a code unit that is no surrogate, four for a high surrogate with a low one behind it.
pub data Encodes (preserve : Bool) : QString → ℕ → Type 0 where
  end : Encodes preserve [] 0
  one :
      {rest : QString} {size : ℕ}
      → (c : ℕ) → Allowed preserve c
      → c < 0x80
      → Encodes preserve rest size
      → Encodes preserve (c ∷ rest) (1 + size)
  two :
      {rest : QString} {size : ℕ}
      → (c : ℕ) → Allowed preserve c
      → 0x80 ≤ c
      → c < 0x800
      → Encodes preserve rest size
      → Encodes preserve (c ∷ rest) (2 + size)
  three :
      {rest : QString} {size : ℕ}
      → (c : ℕ) → 0x800 ≤ c
      → c < 0x10000
      → ((c < 0xd800) ⊎ (0xe000 ≤ c))
      → Encodes preserve rest size
      → Encodes preserve (c ∷ rest) (3 + size)
  four :
      {rest : QString} {size : ℕ}
      → (high low : ℕ) → 0xd800 ≤ high
      → high < 0xdc00
      → 0xdc00 ≤ low
      → low < 0xe000
      → Encodes preserve rest size
      → Encodes preserve (high ∷ low ∷ rest) (4 + size)

append_code_point-unit : (c : ℕ) → c < 0x10000 → append_code_point c ≡ c ∷ []
unfolding append_code_point
append_code_point-unit c h = ground arith

append_code_point-pair :
    (c : ℕ)
    → 0x10000 ≤ c
    → append_code_point c ≡ (0xd800 + (c - 0x10000) / 0x400) ∷ (0xdc00 + (c - 0x10000) % 0x400) ∷ []
unfolding append_code_point
append_code_point-pair c h = ground arith

-- A scalar value that is appended takes as many bytes as the code counts.
append_code_point-Encodes :
    (preserve : Bool) (c : ℕ) (rest : QString) (size : ℕ)
    → Allowed preserve c
    → is_surrogate c ≡ false
    → c < 0x110000
    → Encodes preserve rest size
    → Encodes preserve (append_code_point c ++ rest) (utf8_length c + size)
unfolding utf8_length is_surrogate
append_code_point-Encodes preserve c rest size allowed scalar range e =
    elim (Bool-cases (leb c 0xffff)) [
      | inl unit ↦ rw (append_code_point-unit c (ground arith)) (elim (Bool-cases (leb c 0x7f)) [
        | inl h ↦ rw h (one c allowed (ground arith) e)
        | inr h ↦ elim (Bool-cases (leb c 0x7ff)) [
          | inl k ↦ rw (h, k) (two c allowed (ground arith) (ground arith) e)
          | inr k ↦ rw (h, k, unit) (three c (ground arith) (ground arith) (ground arith) e)
        ]
      ])
      | inr pair ↦ rw (append_code_point-pair c (ground arith)) (
          subst
            (λ n.
              Encodes preserve
                ((0xd800 + (c - 0x10000) / 0x400) ∷ (0xdc00 + (c - 0x10000) % 0x400) ∷ rest)
                (n + size))
            {x = 4} (ground arith)
            (four (0xd800 + (c - 0x10000) / 0x400) (0xdc00 + (c - 0x10000) % 0x400) (omega arith)
              (ground arith) (omega arith) (omega arith) e))
    ]

-- The code units of a QString are numbers of 16 bits.
abbrev pub IsUnits : QString → Type 0
IsUnits [] = Unit
IsUnits (c ∷ rest) = (c < 0x10000) × IsUnits rest

decode_unit-scalar :
    (unit : ℕ) (rest : QString)
    → unit < 0x10000
    → IsUnits rest
    → (is_surrogate (decode_unit unit rest).0 ≡ false)
      × ((decode_unit unit rest).0 < 0x110000)
      × IsUnits (decode_unit unit rest).1
unfolding decode_unit surrogate_to_ucs4
decode_unit-scalar unit [] h k = (ground arith, ground arith, tt)
decode_unit-scalar unit (next ∷ rest) h k = (ground arith, ground arith, ground arith)

skip_line_feed-IsUnits : (rest : QString) → IsUnits rest → IsUnits (skip_line_feed rest)
unfolding skip_line_feed
skip_line_feed-IsUnits [] k = tt
skip_line_feed-IsUnits (c ∷ rest) k = ground arith

is_control_line_feed : is_surrogate b'\n' ≡ false
unfolding is_surrogate
is_control_line_feed = refl

sanitize-Allowed :
    (preserve : Bool) (c : ℕ) (rest : QString)
    → is_surrogate c ≡ false
    → c < 0x110000
    → IsUnits rest
    → Allowed preserve (sanitize preserve c rest).0
      × (is_surrogate (sanitize preserve c rest).0 ≡ false)
      × ((sanitize preserve c rest).0 < 0x110000)
      × IsUnits (sanitize preserve c rest).1
unfolding sanitize is_surrogate is_control
sanitize-Allowed preserve c rest s h k =
    let skipped = skip_line_feed-IsUnits rest k in
    (ground arith, ground arith, ground arith, ground arith)

-- The loop's fuel is the length of the text, and each round consumes a code unit at least.
length-skip_line_feed : (rest : QString) → length (skip_line_feed rest) ≤ length rest
unfolding skip_line_feed
length-skip_line_feed [] = omega arith
length-skip_line_feed (c ∷ rest) = ground arith

length-decode_unit : (unit : ℕ) (rest : QString) → length (decode_unit unit rest).1 ≤ length rest
unfolding decode_unit
length-decode_unit unit [] = omega arith
length-decode_unit unit (next ∷ rest) = ground arith

-- What a round leaves of the text behind its first code unit.
abbrev pub left_of : Bool → ℕ → QString → QString
left_of preserve unit rest =
    let decoded = decode_unit unit rest in (sanitize preserve decoded.0 decoded.1).1

pub length-left_of :
    (preserve : Bool) (unit : ℕ) (rest : QString)
    → length (left_of preserve unit rest) ≤ length rest
unfolding sanitize
length-left_of preserve unit rest =
    ground (arith, length-decode_unit unit rest, length-skip_line_feed (decode_unit unit rest).1)

-- A round consumes two code units at most: a pair of surrogates, or a carriage return with its line feed.
length-skip_line_feed-lower : (rest : QString) → length rest ≤ 1 + length (skip_line_feed rest)
unfolding skip_line_feed
length-skip_line_feed-lower [] = omega arith
length-skip_line_feed-lower (c ∷ rest) = ground arith

decode_unit-consumes :
    (unit : ℕ) (rest : QString)
    → ((decode_unit unit rest).1 ≡ rest)
      ⊎ ((length rest ≤ 1 + length (decode_unit unit rest).1)
          × (0x10000 ≤ (decode_unit unit rest).0))
unfolding decode_unit surrogate_to_ucs4
decode_unit-consumes unit [] = inl refl
decode_unit-consumes unit (next ∷ rest) = ground arith

length-left_of-lower :
    (preserve : Bool) (unit : ℕ) (rest : QString)
    → length rest ≤ 1 + length (left_of preserve unit rest)
unfolding sanitize
length-left_of-lower preserve unit rest =
    ground
      (arith, decode_unit-consumes unit rest, length-skip_line_feed-lower (decode_unit unit rest).1)

length-append_code_point :
    (c : ℕ) (rest : QString) → 1 + length rest ≤ length (append_code_point c ++ rest)
unfolding append_code_point
length-append_code_point c rest = ground arith

utf8_length-le : (c : ℕ) → utf8_length c ≤ 4
unfolding utf8_length
utf8_length-le c = ground arith

-- The limit leaves no room for every further character, or the whole text was read: of two code units
-- that are read, one is written at least.
abbrev pub CutOnly : ℕ → ℕ → QString → QString → Type 0
CutOnly room size text output = (room < size + 4) ⊎ (length text ≤ 2 * length output)

normalize_loop-Encodes :
    (fuel : ℕ) (preserve : Bool) (room : ℕ) (text : QString)
    → length text ≤ fuel
    → IsUnits text
    → let output = normalize_loop fuel preserve room text in
      (size : ℕ) × (size ≤ room) × Encodes preserve output size × CutOnly room size text output
unfolding normalize_loop
normalize_loop-Encodes zero preserve room text l k = (0, omega arith, end, inr (omega (arith, l)))
normalize_loop-Encodes (suc fuel) preserve room [] l k = (0, omega arith, end, inr (omega arith))
normalize_loop-Encodes (suc fuel) preserve room (unit ∷ rest) l k =
    let decoded = decode_unit unit rest in
    let (scalar, range, units) = decode_unit-scalar unit rest k.0 k.1 in
    let (allowed, plain, within, left) =
      sanitize-Allowed preserve decoded.0 decoded.1 scalar range units in
    let c = (sanitize preserve decoded.0 decoded.1).0 in
    let later = left_of preserve unit rest in
    let shorter = length-left_of preserve unit rest in
    let longer = length-left_of-lower preserve unit rest in
    let (size, fits, encodes, cut) =
      normalize_loop-Encodes fuel preserve (room - utf8_length c) later (omega (arith, l, shorter))
        left in
    let written =
      length-append_code_point c (normalize_loop fuel preserve (room - utf8_length c) later) in
    elim (Bool-cases (ltb room (utf8_length c))) [
      | inl full ↦ (0, omega arith, rw full end, inl (ground (arith, full, utf8_length-le c)))
      | inr more ↦ (
        utf8_length c + size,
        ground arith,
        rw more (append_code_point-Encodes preserve c _ size allowed plain within encodes),
        rw more (ground (arith, cut, written, longer, more)),
      )
    ]

-- A normalised text is well-formed UTF-16, without control characters other than line feeds and, where
-- white space is preserved, tabs; and its encoding in UTF-8 takes at most the bytes that were allowed. It
-- is cut only where fewer than four bytes are left of these: elsewhere it has at least half as many
-- code units as the text, of which a carriage return may take a line feed with it.
pub bounded_normalized-Encodes :
    (value : QString) (max_bytes : ℕ) (preserve : Bool)
    → IsUnits value
    → let output = bounded_normalized value max_bytes preserve in
      (size : ℕ) × (size ≤ max_bytes)
      × Encodes preserve output size
      × CutOnly max_bytes size value output
unfolding bounded_normalized
bounded_normalized-Encodes value max_bytes preserve k =
    normalize_loop-Encodes (length value) preserve max_bytes value (omega arith) k
