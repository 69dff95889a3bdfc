-- ===== src/Common/Canonical/Normal.antt =====
-- packages/common/src/runtime/hash.ts: values that differ in the order of their fields only.
use firemig.Prelude.{◌≡◌, ◌≢◌, refl, sym, ap, ◌∙◌, String, true, false, ◌∷◌, inl, inr, Bool-cases}
use firemig.Common.Json.{
  Json, null, boolean, number, text, array, object, Items, nil, cons, Fields, end, field,
}
use firemig.Common.Canonical.{
  units, before, insert_key, sort_keys, array_text, object_text, canonical_json, canonical_items,
  canonical_fields, request_hash,
}
use firemig.Common.Canonical.Keys.{before_asym, before_trans, before_total}
use firemig.Common.Canonical.Order.{
  plain_json, plain_items, plain_fields, insert_field, normal, normal_items, normal_fields,
  SameJson, SameItems, SameFields, same, same_array, same_object, same_nil, same_cons, same_end,
  same_field, swapped, same_trans,
}

plain-insert_field :
    (key : String) (value : Json) (fields : Fields)
    → plain_fields (insert_field key value fields)
      ≡ insert_key (key, plain_json value) (plain_fields fields)
unfolding plain_fields insert_field insert_key
plain-insert_field key value end = refl
plain-insert_field key value (field name held rest) =
    elim (Bool-cases (before (units key) (units name))) [
      | inl first ↦ rw first refl
      | inr later ↦
          rw later (ap (λ l. (name, plain_json held) ∷ l) (plain-insert_field key value rest))
    ]

-- Two insertions at keys that differ may be exchanged.
exchange :
    (j k : String) (v w : Json) (fields : Fields)
    → before (units j) (units k) ≡ true
    → insert_field j v (insert_field k w fields) ≡ insert_field k w (insert_field j v fields)
unfolding insert_field
exchange j k v w end first =
    let after : before (units k) (units j) ≡ false = before_asym (units j) (units k) first in
    rw (first, after) refl
exchange j k v w (field name held rest) first =
    let after : before (units k) (units j) ≡ false = before_asym (units j) (units k) first in
    elim (Bool-cases (before (units k) (units name))) [
      | inl k_first ↦
          let j_first : before (units j) (units name) ≡ true =
            before_trans (units j) (units k) (units name) first k_first in
          rw (k_first, j_first) (rw (first, after) (rw k_first refl))
      | inr k_later ↦ elim (Bool-cases (before (units j) (units name))) [
        | inl j_first ↦ rw (k_later, j_first) (rw (after, k_later) refl)
        | inr j_later ↦
            rw (k_later, j_later) (rw k_later (ap (field name held) (exchange j k v w rest first)))
      ]
    ]

insert_field_comm :
    (j k : String) (v w : Json) (fields : Fields)
    → units j ≢ units k
    → insert_field j v (insert_field k w fields) ≡ insert_field k w (insert_field j v fields)
insert_field_comm j k v w fields differ = elim (Bool-cases (before (units j) (units k))) [
  | inl first ↦ exchange j k v w fields first
  | inr later ↦ sym (exchange k j w v fields (before_total (units j) (units k) differ later))
]

mutual
  unfolding normal

  normal_agree : {v w : Json} → SameJson v w → normal v ≡ normal w
  normal_agree (same v) = refl
  normal_agree (same_array h) = ap array (normal_items_agree h)
  normal_agree (same_object h) = ap object (normal_fields_agree h)

  normal_items_agree : {a b : Items} → SameItems a b → normal_items a ≡ normal_items b
  normal_items_agree same_nil = refl
  normal_items_agree (same_cons h rest) =
      let e = normal_agree h in let es = normal_items_agree rest in cc

  normal_fields_agree : {a b : Fields} → SameFields a b → normal_fields a ≡ normal_fields b
  normal_fields_agree same_end = refl
  normal_fields_agree (same_field key h rest) =
      let e = normal_agree h in let es = normal_fields_agree rest in cc
  normal_fields_agree (swapped j k v w rest differ) =
      insert_field_comm j k (normal v) (normal w) (normal_fields rest) differ
  normal_fields_agree (same_trans h k) = normal_fields_agree h ∙ normal_fields_agree k

mutual
  unfolding canonical_json normal plain_json sort_keys

  canonical_plain : (v : Json) → canonical_json v ≡ plain_json (normal v)
  canonical_plain null = refl
  canonical_plain (boolean b) = refl
  canonical_plain (number n) = refl
  canonical_plain (text s) = refl
  canonical_plain (array items) = ap array_text (canonical_plain_items items)
  canonical_plain (object fields) = ap object_text (canonical_plain_fields fields)

  canonical_plain_items : (a : Items) → canonical_items a ≡ plain_items (normal_items a)
  canonical_plain_items nil = refl
  canonical_plain_items (cons v rest) =
      let e = canonical_plain v in let es = canonical_plain_items rest in cc

  canonical_plain_fields :
      (a : Fields) → sort_keys (canonical_fields a) ≡ plain_fields (normal_fields a)
  canonical_plain_fields end = refl
  canonical_plain_fields (field key v rest) =
      let e = canonical_plain v in
      let es = canonical_plain_fields rest in
      rw (e, es) (sym (plain-insert_field key (normal v) (normal_fields rest)))

-- No object holds two keys of the same units.
abbrev pub Absent : String → Fields → Type 0
Absent key end = Unit
Absent key (field name v rest) = (units key ≢ units name) × Absent key rest

abbrev mutual
  pub Proper : Json → Type 0
  Proper (array items) = ProperItems items
  Proper (object fields) = ProperFields fields
  Proper _ = Unit

  pub ProperItems : Items → Type 0
  ProperItems nil = Unit
  ProperItems (cons v rest) = Proper v × ProperItems rest

  pub ProperFields : Fields → Type 0
  ProperFields end = Unit
  ProperFields (field key v rest) = Proper v × Absent key rest × ProperFields rest

mutual
  same_items : (a : Items) → SameItems a a
  same_items nil = same_nil
  same_items (cons v rest) = same_cons (same v) (same_items rest)

  same_fields : (a : Fields) → SameFields a a
  same_fields end = same_end
  same_fields (field key v rest) = same_field key (same v) (same_fields rest)

-- A field moves to its place by exchanges with fields of other keys.
moved :
    (key : String) (v : Json) (fields : Fields)
    → Absent key fields
    → SameFields (field key v fields) (insert_field key v fields)
unfolding insert_field
moved key v end absent = same_fields (field key v end)
moved key v (field name held rest) absent = elim (Bool-cases (before (units key) (units name))) [
  | inl first ↦ rw first (same_fields (field key v (field name held rest)))
  | inr later ↦ rw later (
      same_trans (swapped key name v held rest absent.0)
        (same_field name (same held) (moved key v rest absent.1)))
]

insert-Absent :
    (key name : String) (v : Json) (fields : Fields)
    → units key ≢ units name
    → Absent key fields
    → Absent key (insert_field name v fields)
unfolding insert_field
insert-Absent key name v end differ absent = (differ, tt)
insert-Absent key name v (field other held rest) differ absent =
    elim (Bool-cases (before (units name) (units other))) [
      | inl first ↦ rw first (differ, absent)
      | inr later ↦ rw later (absent.0, insert-Absent key name v rest differ absent.1)
    ]

normal-Absent :
    (key : String) (fields : Fields) → Absent key fields → Absent key (normal_fields fields)
unfolding normal_fields
normal-Absent key end absent = tt
normal-Absent key (field name v rest) absent =
    insert-Absent key name (normal v) (normal_fields rest) absent.0
      (normal-Absent key rest absent.1)

mutual
  unfolding normal

  normal-SameJson : (v : Json) → Proper v → SameJson v (normal v)
  normal-SameJson null proper = same null
  normal-SameJson (boolean b) proper = same (boolean b)
  normal-SameJson (number n) proper = same (number n)
  normal-SameJson (text s) proper = same (text s)
  normal-SameJson (array items) proper = same_array (normal-SameItems items proper)
  normal-SameJson (object fields) proper = same_object (normal-SameFields fields proper)

  normal-SameItems : (a : Items) → ProperItems a → SameItems a (normal_items a)
  normal-SameItems nil proper = same_nil
  normal-SameItems (cons v rest) proper =
      same_cons (normal-SameJson v proper.0) (normal-SameItems rest proper.1)

  normal-SameFields : (a : Fields) → ProperFields a → SameFields a (normal_fields a)
  normal-SameFields end proper = same_end
  normal-SameFields (field key v rest) proper =
      same_trans (same_field key (normal-SameJson v proper.0) (normal-SameFields rest proper.2))
        (moved key (normal v) (normal_fields rest) (normal-Absent key rest proper.1))

-- The canonical text of a value in which no object holds a key twice is the plain JSON text of a
-- value that differs from it in the order of fields only, at any depth; and another value that
-- differs from it so has that same canonical text, and the same hash.
pub canonical_json-SameJson :
    (sha256 : String → String) (v w : Json)
    → Proper v
    → SameJson v w
    → SameJson v (normal v)
      × (canonical_json v ≡ plain_json (normal v))
      × (canonical_json w ≡ canonical_json v)
      × (request_hash sha256 w ≡ request_hash sha256 v)
unfolding request_hash
canonical_json-SameJson sha256 v w proper h =
    let e : canonical_json w ≡ canonical_json v =
      canonical_plain w ∙ ap plain_json (sym (normal_agree h)) ∙ sym (canonical_plain v) in
    (normal-SameJson v proper, canonical_plain v, e, ap sha256 e)
