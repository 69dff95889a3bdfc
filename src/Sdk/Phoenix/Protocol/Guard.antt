-- ===== src/Sdk/Phoenix/Protocol/Guard.antt =====
-- `isPhoenixMessage` of packages/sdk/src/phoenix/protocol.ts: a guard of the type `PhoenixMessage`.
use firemig.Prelude.{◌≡◌, ◌↔◌, refl, sym, String, Option, none, some}
use firemig.Common.Json.{
  Json, null, boolean, number, text, array, object, Items, nil, cons, as_text,
}
use firemig.Sdk.Phoenix.Protocol.{PhoenixMessage, nullable_text, message_of, five, phoenix_message}

-- The values of the type: a tuple of two texts or nulls, two texts, and any value.
abbrev nullable : Option String → Json
nullable none = null
nullable (some s) = text s

abbrev pub tuple_of : PhoenixMessage → Json
tuple_of m = array (
    cons (nullable m.join_ref)
      (cons (nullable m.ref) (cons (text m.topic) (cons (text m.event) (cons m.payload nil)))))

nullable_of : (v : Json) (o : Option String) → nullable_text v ≡ some o → v ≡ nullable o
nullable_of (text s) o h = let e : some s ≡ o = cc in rw (sym e) refl
nullable_of null o h = let e : none ≡ o = cc in rw (sym e) refl
nullable_of (boolean b) o h = absurd (cc)
nullable_of (number n) o h = absurd (cc)
nullable_of (array a) o h = absurd (cc)
nullable_of (object a) o h = absurd (cc)

text_of : (v : Json) (s : String) → as_text (some v) ≡ some s → v ≡ text s
text_of (text t) s h = cc
text_of null s h = absurd (cc)
text_of (boolean b) s h = absurd (cc)
text_of (number n) s h = absurd (cc)
text_of (array a) s h = absurd (cc)
text_of (object a) s h = absurd (cc)

nullable_text-nullable : (o : Option String) → nullable_text (nullable o) ≡ some o
nullable_text-nullable none = refl
nullable_text-nullable (some s) = refl

message_parts :
    (a b : Option (Option String)) (c d : Option String) (payload : Json) (m : PhoenixMessage)
    → message_of a b c d payload ≡ some m
    → (a ≡ some m.join_ref)
      × (b ≡ some m.ref)
      × (c ≡ some m.topic)
      × (d ≡ some m.event)
      × (payload ≡ m.payload)
message_parts (some a) (some b) (some c) (some d) payload m h =
    let e : record { join_ref = a; ref = b; topic = c; event = d; payload = payload } ≡ m = cc in
    rw (sym e) (refl, refl, refl, refl, refl)
message_parts none b c d payload m h = absurd (cc)
message_parts (some a) none c d payload m h = absurd (cc)
message_parts (some a) (some b) none d payload m h = absurd (cc)
message_parts (some a) (some b) (some c) none payload m h = absurd (cc)

five_parts : (items : Items) (m : PhoenixMessage) → five items ≡ some m → array items ≡ tuple_of m
five_parts (cons a (cons b (cons c (cons d (cons e nil))))) m h =
    let (p, q, r, s, t) =
      message_parts (nullable_text a) (nullable_text b) (as_text (some c)) (as_text (some d)) e m
        h in
    rw
      (
        nullable_of a m.join_ref p,
        nullable_of b m.ref q,
        text_of c m.topic r,
        text_of d m.event s,
        t,
      )
      refl
five_parts nil m h = absurd (cc)
five_parts (cons a nil) m h = absurd (cc)
five_parts (cons a (cons b nil)) m h = absurd (cc)
five_parts (cons a (cons b (cons c nil))) m h = absurd (cc)
five_parts (cons a (cons b (cons c (cons d nil)))) m h = absurd (cc)
five_parts (cons a (cons b (cons c (cons d (cons e (cons f rest)))))) m h = absurd (cc)

guarded : (v : Json) (m : PhoenixMessage) → phoenix_message v ≡ some m → v ≡ tuple_of m
unfolding phoenix_message
guarded (array items) m h = five_parts items m h
guarded null m h = absurd (cc)
guarded (boolean b) m h = absurd (cc)
guarded (number n) m h = absurd (cc)
guarded (text s) m h = absurd (cc)
guarded (object a) m h = absurd (cc)

-- A decoded value passes the guard as a message exactly when it is the tuple of that message: five
-- elements, of which the first two are texts or null and the next two texts.
pub phoenix_message_iff :
    (v : Json) (m : PhoenixMessage) → (phoenix_message v ≡ some m) ↔ (v ≡ tuple_of m)
unfolding phoenix_message
phoenix_message_iff v m = (
  guarded v m,
  λ e. rw e (rw (nullable_text-nullable m.join_ref, nullable_text-nullable m.ref) refl),
)
