-- ===== src/Demo/Tcp/Chunks.antt =====
-- packages/demo/src/tcp.ts: where the connection cuts its text into chunks does not matter.
use mathlib.Core.List.{append-nil, append_assoc}
use firemig.Prelude.{
  concat, ℕ, zero, suc, ◌≤◌, ◌<◌, ◌≡◌, refl, ◌∙◌, sym, ap, inl, inr, Option, none, some, List, [],
  ◌∷◌, ◌++◌, length, length-append, ◌==◌, arith, Option-cases, Bool-cases, ◌⊎◌, false, true,
}
use firemig.Prelude.Integers.{ℤ}
use firemig.Common.Json.{Json}
use firemig.Demo.Tcp.{Text, Collected, RawTcpCollector, take_line, handle_line, drain, consume}

-- A first line comes from the first character, or from the line behind it.
taken :
    (c : ℕ) (s line rest : Text)
    → take_line (c ∷ s) ≡ some (line, rest)
    → ((c == b'\n') ≡ true) × (line ≡ []) × (rest ≡ s)
      ⊎ ((c == b'\n') ≡ false)
        × ((later : Text) × (take_line s ≡ some (later, rest)) × (line ≡ c ∷ later))
unfolding take_line
taken c s line rest h = elim (Bool-cases (c == b'\n')) [
  | inl feed ↦
      let q : ◌≡◌ {A = Option (Text × Text)} (some ([], s)) (some (line, rest)) =
        rw (feed, take_line) at h in
      inl (feed, cc, cc)
  | inr other ↦ elim (Option-cases (take_line s)) [
    | inl no_more ↦
        let q : ◌≡◌ {A = Option (Text × Text)} none (some (line, rest)) =
          rw (other, no_more, take_line) at h in
        absurd (cc)
    | inr ((l, r), found) ↦
        let q : ◌≡◌ {A = Option (Text × Text)} (some (c ∷ l, r)) (some (line, rest)) =
          rw (other, found, take_line) at h in
        let same : r ≡ rest = cc in inr (other, (l, found ∙ ap (λ x. some (l, x)) same, cc))
  ]
]

take_line-append :
    (s t line rest : Text)
    → take_line s ≡ some (line, rest)
    → take_line (s ++ t) ≡ some (line, rest ++ t)
unfolding take_line
take_line-append [] t line rest h = absurd (cc)
take_line-append (c ∷ s) t line rest h = elim (taken c s line rest h) [
  | inl (feed, empty, same) ↦ rw (feed, empty, same) refl
  | inr (other, (later, found, whole)) ↦
      rw (other, take_line-append s t later rest found, whole) refl
]

take_line-length : (s line rest : Text) → take_line s ≡ some (line, rest) → length rest < length s
unfolding take_line
take_line-length [] line rest h = absurd (cc)
take_line-length (c ∷ s) line rest h = elim (taken c s line rest h) [
  | inl (feed, empty, same) ↦ rw same (omega arith)
  | inr (other, (later, found, whole)) ↦ omega (arith, take_line-length s later rest found)
]

no_line : take_line [] ≡ none
unfolding take_line
no_line = refl

module _ (parse_json : Text → Option Json) (now : ℕ → ℤ) where
  abbrev drained : ℕ → Text → Collected → Text × Collected
  drained = drain parse_json now

  drain_none : (f : ℕ) (s : Text) (c : Collected) → take_line s ≡ none → drained f s c ≡ (s, c)
  unfolding drain
  drain_none zero s c h = refl
  drain_none (suc f) s c h = rw (drain, h) refl

  drain_some :
      (f : ℕ) (s line rest : Text) (c : Collected)
      → take_line s ≡ some (line, rest)
      → drained (suc f) s c ≡ drained f rest (handle_line parse_json now line c)
  unfolding drain
  drain_some f s line rest c h = rw (drain, h) refl

  drain-enough :
      (f g : ℕ) (s : Text) (c : Collected)
      → length s ≤ f
      → length s ≤ g
      → drained f s c ≡ drained g s c
  drain-enough f g [] c h k = drain_none f [] c no_line ∙ sym (drain_none g [] c no_line)
  drain-enough zero g (x ∷ s) c h k = absurd (omega (arith, h))
  drain-enough (suc f) zero (x ∷ s) c h k = absurd (omega (arith, k))
  drain-enough (suc f) (suc g) (x ∷ s) c h k = elim (Option-cases (take_line (x ∷ s))) [
    | inl none_left ↦
        drain_none (suc f) (x ∷ s) c none_left ∙ sym (drain_none (suc g) (x ∷ s) c none_left)
    | inr ((line, rest), found) ↦
        let shorter = take_line-length (x ∷ s) line rest found in
        drain_some f (x ∷ s) line rest c found
        ∙ drain-enough f g rest (handle_line parse_json now line c) (omega (arith, shorter, h))
            (omega (arith, shorter, k))
        ∙ sym (drain_some g (x ∷ s) line rest c found)
  ]

  -- What is left is no longer than the buffer, and holds no line.
  drain-rest :
      (f : ℕ) (s : Text) (c : Collected)
      → length s ≤ f
      → (length (drained f s c).0 ≤ length s) × (take_line (drained f s c).0 ≡ none)
  drain-rest f [] c h = rw (drain_none f [] c no_line) (omega arith, no_line)
  drain-rest zero (x ∷ s) c h = absurd (omega (arith, h))
  drain-rest (suc f) (x ∷ s) c h = elim (Option-cases (take_line (x ∷ s))) [
    | inl none_left ↦ rw (drain_none (suc f) (x ∷ s) c none_left) (omega arith, none_left)
    | inr ((line, rest), found) ↦
        let shorter = take_line-length (x ∷ s) line rest found in
        let (smaller, nothing) =
          drain-rest f rest (handle_line parse_json now line c) (omega (arith, shorter, h)) in
        rw (drain_some f (x ∷ s) line rest c found) (omega (arith, shorter, smaller), nothing)
  ]

  -- Text that comes later is drained behind what the first left.
  drain-append :
      (f g : ℕ) (s t : Text) (c : Collected)
      → length s ≤ f
      → length (s ++ t) ≤ g
      → drained g (s ++ t) c ≡ drained g ((drained f s c).0 ++ t) (drained f s c).1
  drain-append f g [] t c h k = rw (drain_none f [] c no_line) refl
  drain-append zero g (x ∷ s) t c h k = absurd (omega (arith, h))
  drain-append (suc f) zero (x ∷ s) t c h k = absurd (omega (arith, k))
  drain-append (suc f) (suc g) (x ∷ s) t c h k = elim (Option-cases (take_line (x ∷ s))) [
    | inl none_left ↦ rw (drain_none (suc f) (x ∷ s) c none_left) refl
    | inr ((line, rest), found) ↦
        let handled = handle_line parse_json now line c in
        let shorter = take_line-length (x ∷ s) line rest found in
        let fits : length rest ≤ f = omega (arith, shorter, h) in
        let (smaller, nothing) = drain-rest f rest handled fits in
        let left = drained f rest handled in
        rw (drain_some f (x ∷ s) line rest c found) (
          drain_some g ((x ∷ s) ++ t) line (rest ++ t) c
            (take_line-append (x ∷ s) t line rest found)
          ∙ drain-append f g rest t handled fits
              (omega (arith, shorter, k, length-append rest t, length-append s t))
          ∙ drain-enough g (suc g) (left.0 ++ t) left.1
              (omega (arith, shorter, smaller, k, length-append left.0 t, length-append s t))
              (omega (arith, shorter, smaller, k, length-append left.0 t, length-append s t)))
  ]

  consume-whole :
      (first second : Text) (k : RawTcpCollector)
      → consume parse_json now second (consume parse_json now first k)
        ≡ consume parse_json now (first ++ second) k
  unfolding consume
  consume-whole first second k =
      let buffer = k.buffer ++ first in
      let left = drained (length buffer) buffer k.collected in
      let (smaller, nothing) = drain-rest (length buffer) buffer k.collected (omega arith) in
      let all : Text = buffer ++ second in
      let apart : drained (length all) all k.collected
          ≡ drained (length (left.0 ++ second)) (left.0 ++ second) left.1 =
        drain-append (length buffer) (length all) buffer second k.collected (omega arith)
          (omega arith)
        ∙ drain-enough (length all) (length (left.0 ++ second)) (left.0 ++ second) left.1
            (omega (arith, smaller, length-append left.0 second, length-append buffer second))
            (omega arith) in
      ap (λ (d : Text × Collected). record k { buffer = d.0; collected = d.1 })
        (sym apart
          ∙ ap (λ (w : Text). drained (length w) w k.collected)
              (append_assoc k.buffer first second))

  -- Behind a chunk the buffer holds no whole line.
  consume-rest :
      (chunk : Text) (k : RawTcpCollector)
      → take_line (consume parse_json now chunk k).buffer ≡ none
  unfolding consume
  consume-rest chunk k =
      (drain-rest (length (k.buffer ++ chunk)) (k.buffer ++ chunk) k.collected (omega arith)).1

  consume_nothing :
      (k : RawTcpCollector) → take_line k.buffer ≡ none → consume parse_json now [] k ≡ k
  unfolding consume
  consume_nothing k partial =
      rw (append-nil k.buffer) (rw (drain_none (length k.buffer) k.buffer k.collected partial) refl)

-- The texts of chunks that all come at the same clock.
unfoldable pub consume_all :
    (Text → Option Json) → (ℕ → ℤ) → List Text → RawTcpCollector → RawTcpCollector
consume_all parse_json now [] c = c
consume_all parse_json now (chunk ∷ rest) c =
    consume_all parse_json now rest (consume parse_json now chunk c)

pub consume_all-concat :
    (parse_json : Text → Option Json) (now : ℕ → ℤ) (chunks : List Text) (k : RawTcpCollector)
    → take_line k.buffer ≡ none
    → consume_all parse_json now chunks k ≡ consume parse_json now (concat chunks) k
unfolding consume_all
consume_all-concat parse_json now [] k partial = sym (consume_nothing parse_json now k partial)
consume_all-concat parse_json now (chunk ∷ rest) k partial =
    consume_all-concat parse_json now rest (consume parse_json now chunk k)
      (consume-rest parse_json now chunk k)
    ∙ consume-whole parse_json now chunk (concat rest) k
