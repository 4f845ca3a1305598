-- ===== src/Json.antt =====
-- QJsonValue, QJsonArray and QJsonObject as the helpers read them. The parser and the printer of Qt are
-- parameters of what uses them.
use nagi_shell.Prelude.{
  ℕ, suc, Bool, true, false, ◌&&◌, ◌||◌, List, [], ◌∷◌, list_eq, all, if◌then◌else◌, ◌==◌, length,
}
use nagi_shell.Prelude.Int.{ℤ}
use nagi_shell.Notifications.Text.{QString}

-- A double by what the code asks of it: whether it is finite and integral, and how it compares with
-- integers. `between n k` lies strictly between n and n + 1; `k` tells such values apart.
pub data Double : Type 0 where
  integral : ℤ → Double
  between : ℤ → ℕ → Double
  not_finite : Double

mutual
  pub data Json : Type 0 where
    undefined null : Json
    bool : Bool → Json
    double : Double → Json
    string : QString → Json
    array : Items → Json
    object : Fields → Json

  pub data Items : Type 0 where
    nil : Items
    cons : Json → Items → Items

  pub data Fields : Type 0 where
    end : Fields
    field : QString → Json → Fields → Fields

-- QJsonArray as a sequence of values.
abbrev pub to_list : Items → List Json
to_list nil = []
to_list (cons j rest) = j ∷ to_list rest

abbrev pub of_list : List Json → Items
of_list [] = nil
of_list (j ∷ rest) = cons j (of_list rest)

-- QJsonObject::size, value (undefined where the key is missing) and contains.
abbrev pub size : Fields → ℕ
size end = 0
size (field k v rest) = suc (size rest)

unfoldable pub value : QString → Fields → Json
value key end = undefined
value key (field k v rest) = if list_eq k key then v else value key rest

unfoldable pub contains : Fields → QString → Bool
contains end key = false
contains (field k v rest) key = list_eq k key || contains rest key

-- hasExactKeys of the snapshot and of the audio protocol.
unfoldable pub has_exact_keys : Fields → List QString → Bool
unfolding contains
has_exact_keys fields keys = size fields == length keys && all (contains fields) keys

abbrev pub is_string : Json → Bool
is_string (string s) = true
is_string _ = false

abbrev pub is_bool : Json → Bool
is_bool (bool b) = true
is_bool _ = false

-- QJsonValue::toString and toBool, with Qt's defaults.
abbrev pub string_of : Json → QString
string_of (string s) = s
string_of _ = []

abbrev pub bool_of : Json → Bool
bool_of (bool b) = b
bool_of _ = false
