-- ===== src/Common/Canonical.antt =====
-- packages/common/src/runtime/hash.ts: the canonical text of a JSON value, and its hash.
pub mod Order
pub mod Keys
pub mod Normal
use Prim.Native.Char.{code}
use Prim.Native.String
use Prim.Native.String.{◌++◌}
use firemig.Prelude.{
  ℕ, ◌+◌, ◌-◌, ◌/◌, ◌%◌, String, Bool, true, false, ◌&&◌, ◌||◌, List, [], ◌∷◌, ltb, ◌==◌,
  if◌then◌else◌,
}
use firemig.Prelude.Integers.{ℤ, pos, negsuc}
use firemig.Platform.Decimal.{decimal}
use firemig.Common.Json.{
  Json, null, boolean, number, text, array, object, Items, nil, cons, Fields, end, field, Number,
  integer, fraction,
}

-- A JavaScript text is a sequence of 16-bit units, and `sort()` compares those.
abbrev pub surrogates : ℕ → List ℕ → List ℕ
surrogates c rest = (55296 + (c - 65536) / 1024) ∷ (56320 + (c - 65536) % 1024) ∷ rest

unfoldable pub units : String → List ℕ
units String.[] = []
units (String.◌∷◌ c rest) =
    let tail = units rest in if ltb (code c) 65536 then code c ∷ tail else surrogates (code c) tail

unfoldable pub before : List ℕ → List ℕ → Bool
before [] [] = false
before [] (_ ∷ _) = true
before (_ ∷ _) [] = false
before (a ∷ p) (b ∷ q) = ltb a b || (a == b && before p q)

-- `JSON.stringify` of a text.
abbrev escape_digit : ℕ → String
escape_digit d =
    if ltb d 10
    then decimal d
    else if d == 10
    then "a"
    else if d == 11
    then "b"
    else if d == 12
    then "c"
    else if d == 13
    then "d"
    else if d == 14
    then "e"
    else "f"

abbrev escaped : ℕ → String → String
escaped c plain =
    if c == b'"'
    then "\\\""
    else if c == b'\\'
    then "\\\\"
    else if c == 8
    then "\\b"
    else if c == 12
    then "\\f"
    else if c == b'\n'
    then "\\n"
    else if c == b'\r'
    then "\\r"
    else if c == b'\t'
    then "\\t"
    else if ltb c 32
    then "\\u00" ++ escape_digit (c / 16) ++ escape_digit (c % 16)
    else plain

unfoldable pub escape : String → String
escape String.[] = ""
escape (String.◌∷◌ c rest) = escaped (code c) (String.◌∷◌ c "") ++ escape rest

abbrev pub quote : String → String
quote s = "\"" ++ escape s ++ "\""

-- `JSON.stringify` of a number; an integer is below 10^21.
abbrev pub number_text : Number → String
number_text (integer (pos n)) = decimal n
number_text (integer (negsuc n)) = "-" ++ decimal (n + 1)
number_text (fraction s) = s

-- `parts.join(",")`
unfoldable pub joined : List String → String
joined [] = ""
joined (part ∷ []) = part
joined (part ∷ next ∷ rest) = part ++ "," ++ joined (next ∷ rest)

abbrev pub Member : Type 0
Member = String × String

abbrev pub member_texts : List Member → List String
member_texts [] = []
member_texts ((key, value) ∷ rest) = (quote key ++ ":" ++ value) ∷ member_texts rest

-- `keys.sort()`, with the text of the value beside each key.
unfoldable pub insert_key : Member → List Member → List Member
insert_key new [] = new ∷ []
insert_key new (held ∷ rest) =
    let later = held ∷ insert_key new rest in
    if before (units new.0) (units held.0) then new ∷ held ∷ rest else later

unfoldable pub sort_keys : List Member → List Member
sort_keys [] = []
sort_keys (new ∷ rest) = insert_key new (sort_keys rest)

abbrev pub array_text : List String → String
array_text parts = "[" ++ joined parts ++ "]"

abbrev pub object_text : List Member → String
object_text members = "{" ++ joined (member_texts members) ++ "}"

abbrev pub boolean_text : Bool → String
boolean_text true = "true"
boolean_text false = "false"

unfoldable mutual
  unfolding sort_keys

  pub canonical_json : Json → String
  canonical_json null = "null"
  canonical_json (boolean b) = boolean_text b
  canonical_json (number n) = number_text n
  canonical_json (text s) = quote s
  canonical_json (array items) = array_text (canonical_items items)
  canonical_json (object fields) = object_text (sort_keys (canonical_fields fields))

  pub canonical_items : Items → List String
  canonical_items nil = []
  canonical_items (cons value rest) = canonical_json value ∷ canonical_items rest

  pub canonical_fields : Fields → List Member
  canonical_fields end = []
  canonical_fields (field key value rest) = (key, canonical_json value) ∷ canonical_fields rest

-- SHA-256 of a text, in hexadecimal digits, is a parameter.
unfoldable pub request_hash : (String → String) → Json → String
request_hash sha256 value = sha256 (canonical_json value)
