-- ===== src/Common/Canonical/Order.antt =====
-- packages/common/src/runtime/hash.ts: values up to the order of fields, and their plain text.
use firemig.Prelude.{◌≢◌, String, List, [], ◌∷◌, if◌then◌else◌}
use firemig.Common.Json.{
  Json, null, boolean, number, text, array, object, Items, nil, cons, Fields, end, field,
}
use firemig.Common.Canonical.{
  units, before, Member, quote, number_text, boolean_text, array_text, object_text,
}

-- `JSON.stringify`: the fields in the order that they have.
unfoldable mutual
  pub plain_json : Json → String
  plain_json null = "null"
  plain_json (boolean b) = boolean_text b
  plain_json (number n) = number_text n
  plain_json (text s) = quote s
  plain_json (array items) = array_text (plain_items items)
  plain_json (object fields) = object_text (plain_fields fields)

  pub plain_items : Items → List String
  plain_items nil = []
  plain_items (cons value rest) = plain_json value ∷ plain_items rest

  pub plain_fields : Fields → List Member
  plain_fields end = []
  plain_fields (field key value rest) = (key, plain_json value) ∷ plain_fields rest

-- The value with the fields of every object in ascending order.
unfoldable pub insert_field : String → Json → Fields → Fields
insert_field key value end = field key value end
insert_field key value (field name held rest) =
    let later = field name held (insert_field key value rest) in
    if before (units key) (units name) then field key value (field name held rest) else later

unfoldable mutual
  unfolding insert_field

  pub normal : Json → Json
  normal (array items) = array (normal_items items)
  normal (object fields) = object (normal_fields fields)
  normal null = null
  normal (boolean b) = boolean b
  normal (number n) = number n
  normal (text s) = text s

  pub normal_items : Items → Items
  normal_items nil = nil
  normal_items (cons value rest) = cons (normal value) (normal_items rest)

  pub normal_fields : Fields → Fields
  normal_fields end = end
  normal_fields (field key value rest) = insert_field key (normal value) (normal_fields rest)

-- The same value but for the order of fields, at any depth.
mutual
  pub data SameJson : Json → Json → Type 0 where
    same : (v : Json) → SameJson v v
    same_array : {a b : Items} → SameItems a b → SameJson (array a) (array b)
    same_object : {a b : Fields} → SameFields a b → SameJson (object a) (object b)

  pub data SameItems : Items → Items → Type 0 where
    same_nil : SameItems nil nil
    same_cons :
        {v w : Json} {a b : Items} → SameJson v w → SameItems a b → SameItems (cons v a) (cons w b)

  pub data SameFields : Fields → Fields → Type 0 where
    same_end : SameFields end end
    same_field :
        (key : String) {v w : Json} {a b : Fields}
        → SameJson v w
        → SameFields a b
        → SameFields (field key v a) (field key w b)
    swapped :
        (j k : String) (v w : Json) (rest : Fields)
        → units j ≢ units k
        → SameFields (field j v (field k w rest)) (field k w (field j v rest))
    same_trans : {a b c : Fields} → SameFields a b → SameFields b c → SameFields a c
