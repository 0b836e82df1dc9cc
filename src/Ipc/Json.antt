-- ===== src/Ipc/Json.antt =====
-- `QJsonObject` and `QJsonValue` of Qt: an object is a list of members in which `value` finds the
-- first of a key.
use q_browser.Base.{
  ℕ, suc, Bool, true, false, ◌||◌, Option, none, some, List, [], ◌∷◌, if◌then◌else◌,
}
use q_browser.Base.Int.{ℤ}
use q_browser.Base.Text.{Text, text_eq}

-- A number is `none` where it is not finite or has a fraction.
mutual
  pub data JsonValue : Type 0 where
    null : JsonValue
    boolean : Bool → JsonValue
    double : Option ℤ → JsonValue
    text : Text → JsonValue
    array : JsonArray → JsonValue
    object : JsonObject → JsonValue

  pub data JsonArray : Type 0 where
    no_elements : JsonArray
    element : JsonValue → JsonArray → JsonArray

  pub data JsonObject : Type 0 where
    no_members : JsonObject
    member : Text → JsonValue → JsonObject → JsonObject

unfoldable pub size : JsonObject → ℕ
size no_members = 0
size (member k v o) = suc (size o)

-- `none` is the undefined value.
unfoldable pub value : JsonObject → Text → Option JsonValue
value no_members key = none
value (member k v o) key = if text_eq k key then some v else value o key

abbrev pub is_some {ℓ} : {A : Type ℓ} → Option A → Bool
is_some none = false
is_some (some a) = true

abbrev pub contains_key : JsonObject → Text → Bool
contains_key o key = is_some (value o key)

abbrev pub is_string : Option JsonValue → Bool
is_string (some (text t)) = true
is_string _ = false

abbrev pub to_string : Option JsonValue → Text
to_string (some (text t)) = t
to_string _ = []

abbrev pub is_bool : Option JsonValue → Bool
is_bool (some (boolean b)) = true
is_bool _ = false

abbrev pub to_bool : Option JsonValue → Bool
to_bool (some (boolean b)) = b
to_bool _ = false

abbrev pub is_object : Option JsonValue → Bool
is_object (some (object o)) = true
is_object _ = false

abbrev pub to_object : Option JsonValue → JsonObject
to_object (some (object o)) = o
to_object _ = no_members

-- `QSet<QString>::contains`
unfoldable pub in_set : List Text → Text → Bool
in_set [] key = false
in_set (k ∷ ks) key = text_eq k key || in_set ks key
