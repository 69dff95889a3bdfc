-- ===== src/Demo/Utf8.antt =====
-- `chunk.toString("utf8")` of packages/demo/src/tcp.ts: a decoder of one chunk of bytes, which gives
-- U+FFFD for what is no character.
use firemig.Prelude.{
  ℕ, ◌+◌, ◌-◌, ◌*◌, ◌≡◌, refl, ap, sym, ◌∙◌, ◌&&◌, List, [], ◌∷◌, ◌++◌, ltb, leb, ◌==◌,
  if◌then◌else◌,
}
use mathlib.Core.List.{append_assoc}

-- Between two characters, or within one: how many bytes are missing, the bits so far, and the range
-- of the next byte.
pub data Decoder : Type 0 where
  between : Decoder
  within : ℕ → ℕ → ℕ → ℕ → Decoder

abbrev pub Decoded : Type 0
Decoded = List ℕ × Decoder

abbrev replacement : ℕ
replacement = 65533

-- The first byte of a character.
unfoldable pub first_byte : ℕ → Decoded
first_byte b =
    if ltb b 128
    then (b ∷ [], between)
    else if ltb b 194
    then (replacement ∷ [], between)
    else if ltb b 224
    then ([], within 1 (b - 192) 128 191)
    else if ltb b 240
    then ([], within 2 (b - 224) (if b == 224 then 160 else 128) (if b == 237 then 159 else 191))
    else if ltb b 245
    then ([], within 3 (b - 240) (if b == 240 then 144 else 128) (if b == 244 then 143 else 191))
    else (replacement ∷ [], between)

-- A byte out of range ends a character early, and may begin the next one.
unfoldable pub next_byte : Decoder → ℕ → Decoded
unfolding first_byte
next_byte between b = first_byte b
next_byte (within missing bits low high) b =
    let (out, state) = first_byte b in
    let more = bits * 64 + (b - 128) in
    if leb low b && leb b high
    then (if leb missing 1 then (more ∷ [], between) else ([], within (missing - 1) more 128 191))
    else (replacement ∷ out, state)

abbrev last_out : Decoder → List ℕ
last_out between = []
last_out (within missing bits low high) = replacement ∷ []

unfoldable pub decode_from : Decoder → List ℕ → List ℕ
unfolding next_byte
decode_from state [] = last_out state
decode_from state (b ∷ rest) = let (out, next) = next_byte state b in out ++ decode_from next rest

unfoldable pub decode_utf8 : List ℕ → List ℕ
unfolding decode_from
decode_utf8 bytes = decode_from between bytes

-- Where the decoder stands behind the bytes.
unfoldable pub state_behind : Decoder → List ℕ → Decoder
unfolding next_byte
state_behind state [] = state
state_behind state (b ∷ rest) = state_behind (next_byte state b).1 rest

-- The bytes end between two characters.
abbrev pub IsWhole : List ℕ → Type 0
IsWhole bytes = state_behind between bytes ≡ between

decode_from-append :
    (state : Decoder) (bytes more : List ℕ)
    → state_behind state bytes ≡ between
    → decode_from state (bytes ++ more) ≡ decode_from state bytes ++ decode_from between more
unfolding decode_from state_behind
decode_from-append state [] more whole = rw whole refl
decode_from-append state (b ∷ rest) more whole =
    ap (λ (later : List ℕ). (next_byte state b).0 ++ later)
      (decode_from-append (next_byte state b).1 rest more whole)
    ∙ sym (append_assoc (next_byte state b).0 _ _)

pub decode_utf8-append :
    (bytes more : List ℕ)
    → IsWhole bytes
    → decode_utf8 (bytes ++ more) ≡ decode_utf8 bytes ++ decode_utf8 more
unfolding decode_utf8
decode_utf8-append bytes more whole = decode_from-append between bytes more whole
