-- ===== src/Notifications/Text.antt =====
-- src/notifications/notification_text.cpp: bounded, control-free text for notifications. A QString is
-- the list of its UTF-16 code units; QXmlStreamReader is a parameter, by the tokens that it returns.
pub mod Bounds
use Prim.Native.Char.{code}
use Prim.Native.String.{String}
use nagi_shell.Prelude.{
  ℕ, zero, suc, ◌+◌, ◌-◌, ◌*◌, ◌/◌, ◌%◌, Bool, true, false, ◌&&◌, ◌||◌, not, List, [], ◌∷◌, ◌++◌,
  ltb, leb, ◌==◌, if◌then◌else◌, length, take, any,
}

abbrev pub QString : Type 0
QString = List ℕ

-- The code units of an ASCII literal.
abbrev pub literal : String → QString
literal String.[] = []
literal (String.◌∷◌ c s) = code c ∷ literal s

abbrev pub max_markup_code_units : ℕ
max_markup_code_units = 65536

abbrev replacement : ℕ
replacement = 0xfffd

unfoldable pub is_control : ℕ → Bool
is_control c = c == 0 || leb c 0x1f || leb 0x7f c && leb c 0x9f

-- QChar::isHighSurrogate, isLowSurrogate and isSurrogate.
unfoldable pub is_high_surrogate : ℕ → Bool
is_high_surrogate c = leb 0xd800 c && leb c 0xdbff

unfoldable pub is_low_surrogate : ℕ → Bool
is_low_surrogate c = leb 0xdc00 c && leb c 0xdfff

unfoldable pub is_surrogate : ℕ → Bool
is_surrogate c = leb 0xd800 c && leb c 0xdfff

-- QChar::surrogateToUcs4 of a high and a low surrogate.
unfoldable pub surrogate_to_ucs4 : ℕ → ℕ → ℕ
surrogate_to_ucs4 high low = 0x10000 + (high - 0xd800) * 0x400 + (low - 0xdc00)

-- What appendCodePoint appends: one code unit, or the two surrogates of QChar.
unfoldable pub append_code_point : ℕ → QString
append_code_point c =
    if leb c 0xffff
    then c ∷ []
    else (0xd800 + (c - 0x10000) / 0x400) ∷ (0xdc00 + (c - 0x10000) % 0x400) ∷ []

unfoldable pub utf8_length : ℕ → ℕ
utf8_length c = if leb c 0x7f then 1 else if leb c 0x7ff then 2 else if leb c 0xffff then 3 else 4

-- The decoding of one round: the code point at the head, and what is left behind it.
unfoldable pub decode_unit : ℕ → QString → ℕ × QString
unfolding is_high_surrogate is_low_surrogate is_surrogate
decode_unit unit [] = (if is_surrogate unit then replacement else unit, [])
decode_unit unit (next ∷ rest) =
    if is_high_surrogate unit && is_low_surrogate next
    then (surrogate_to_ucs4 unit next, rest)
    else (if is_surrogate unit then replacement else unit, next ∷ rest)

-- A line feed behind a carriage return is consumed with it.
unfoldable pub skip_line_feed : QString → QString
skip_line_feed [] = []
skip_line_feed (c ∷ rest) = if c == b'\n' then rest else c ∷ rest

-- What the round makes of a code point: a new line, a replacement, or itself.
unfoldable pub sanitize : Bool → ℕ → QString → ℕ × QString
unfolding skip_line_feed is_control
sanitize preserve c rest =
    if c == b'\r'
    then (b'\n', skip_line_feed rest)
    else if is_control c && not (preserve && (c == b'\t' || c == b'\n'))
    then (replacement, rest)
    else (c, rest)

-- The loop; `room` is `maxUtf8Bytes - bytes`. Each round consumes one unit at least, so the length of
-- the text is fuel enough.
unfoldable pub normalize_loop : ℕ → Bool → ℕ → QString → QString
normalize_loop zero preserve room text = []
normalize_loop (suc fuel) preserve room [] = []
normalize_loop (suc fuel) preserve room (unit ∷ rest) =
    let decoded = decode_unit unit rest in
    let (c, left) = sanitize preserve decoded.0 decoded.1 in
    let output = append_code_point c ++ normalize_loop fuel preserve (room - utf8_length c) left in
    if ltb room (utf8_length c) then [] else output

-- boundedNormalized.
unfoldable pub bounded_normalized : QString → ℕ → Bool → QString
unfolding normalize_loop
bounded_normalized value max_utf8_bytes preserve =
    normalize_loop (length value) preserve max_utf8_bytes value

strip_loop : Bool → QString → QString
strip_loop in_tag [] = []
strip_loop true (c ∷ rest) = strip_loop (not (c == b'>')) rest
strip_loop false (c ∷ rest) =
    let inside = strip_loop true rest in
    let outside = c ∷ strip_loop false rest in if c == b'<' then inside else outside

unfoldable pub strip_tag_spans : QString → QString
unfolding strip_loop
strip_tag_spans value = strip_loop false (take max_markup_code_units value)

-- The tokens of QXmlStreamReader that the code tells apart; a start element comes with its name and
-- the value of its `alt` attribute.
pub data XmlToken : Type 0 where
  dtd entity_reference processing_instruction other : XmlToken
  characters : QString → XmlToken
  start_element : QString → QString → XmlToken

pub record XmlRun : Type 0 where
  pub tokens : List XmlToken
  pub has_error : Bool

-- QString::compare with "img", Qt::CaseInsensitive.
is_img : QString → Bool
is_img (i ∷ m ∷ g ∷ []) =
    (i == b'i' || i == b'I') && (m == b'm' || m == b'M') && (g == b'g' || g == b'G')
is_img _ = false

unfoldable pub markup_step : XmlToken → QString
unfolding is_img
markup_step (characters text) = text
markup_step (start_element name alt) = if is_img name then alt else []
markup_step _ = []

unfoldable pub is_unsafe : XmlToken → Bool
is_unsafe dtd = true
is_unsafe entity_reference = true
is_unsafe processing_instruction = true
is_unsafe _ = false

-- The text that the loop has gathered, if no unsafe token stopped it.
unfoldable pub gather : List XmlToken → QString
unfolding markup_step
gather [] = []
gather (token ∷ rest) = markup_step token ++ gather rest

unfoldable pub extract_markup_text : (QString → XmlRun) → QString → QString
unfolding is_unsafe gather strip_tag_spans
extract_markup_text read_xml value =
    let source = take max_markup_code_units value in
    let run = read_xml (literal "<nagi-root>" ++ source ++ literal "</nagi-root>") in
    if any is_unsafe run.tokens || run.has_error then strip_tag_spans source else gather run.tokens

unfoldable pub is_forbidden_key_character : ℕ → Bool
unfolding is_control
is_forbidden_key_character c = is_control c || c == b'/' || c == b'\\' || c == b':'

unfoldable pub contains_forbidden_key_character : QString → Bool
unfolding is_forbidden_key_character
contains_forbidden_key_character = any is_forbidden_key_character

unfoldable pub normalize_plain_text : QString → ℕ → Bool → QString
unfolding bounded_normalized
normalize_plain_text value max_utf8_bytes preserve =
    bounded_normalized value max_utf8_bytes preserve

unfoldable pub normalize_body : (QString → XmlRun) → QString → QString
unfolding bounded_normalized extract_markup_text
normalize_body read_xml value = bounded_normalized (extract_markup_text read_xml value) 4096 true

unfoldable pub normalize_desktop_entry : QString → QString
unfolding bounded_normalized contains_forbidden_key_character
normalize_desktop_entry [] = []
normalize_desktop_entry (c ∷ rest) =
    if contains_forbidden_key_character (c ∷ rest)
    then []
    else bounded_normalized (c ∷ rest) 512 false

unfoldable pub normalize_icon_name : QString → QString
unfolding bounded_normalized contains_forbidden_key_character
normalize_icon_name [] = []
normalize_icon_name (c ∷ rest) =
    if c == b'.' || contains_forbidden_key_character (c ∷ rest)
    then []
    else bounded_normalized (c ∷ rest) 512 false
