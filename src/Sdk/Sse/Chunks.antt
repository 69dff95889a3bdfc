-- ===== src/Sdk/Sse/Chunks.antt =====
-- packages/sdk/src/sse.ts: where a stream is cut into chunks does not matter.
use mathlib.Core.List.{append-nil, append_assoc}
use firemig.Prelude.{
  concat, ℕ, zero, suc, ◌-◌, ◌≤◌, ◌<◌, ◌≡◌, refl, ◌∙◌, sym, ap, inl, inr, Option, none, some, List,
  [], ◌∷◌, ◌++◌, length, length-append, ◌==◌, arith, Option-cases, Bool-cases,
}
use firemig.Sdk.Sse.{
  Text, SseEvent, behind_boundary, split_block, blocks, events_of, last_event, read_chunks,
  strip_mark, parse_sse, parse_sse_block, normalize,
}

-- A boundary that is there stays there when more text comes.
behind_boundary-append :
    (s t rest : Text) → behind_boundary s ≡ some rest → behind_boundary (s ++ t) ≡ some (rest ++ t)
unfolding behind_boundary
behind_boundary-append [] t rest h = cc
behind_boundary-append (c ∷ []) t rest h = cc
behind_boundary-append (c ∷ d ∷ []) t rest h = ground arith
behind_boundary-append (c ∷ d ∷ e ∷ []) t rest h = ground arith
behind_boundary-append (c ∷ d ∷ e ∷ f ∷ s) t rest h = ground arith

-- Where there is a boundary further on, none comes up at the front.
no_boundary-append :
    (c : ℕ) (s t block rest : Text)
    → behind_boundary (c ∷ s) ≡ none
    → split_block s ≡ some (block, rest)
    → behind_boundary ((c ∷ s) ++ t) ≡ none
unfolding behind_boundary split_block
no_boundary-append c [] t block rest h k = cc
no_boundary-append c (d ∷ []) t block rest h k = ground arith
no_boundary-append c (d ∷ e ∷ []) t block rest h k = ground arith
no_boundary-append c (d ∷ e ∷ f ∷ s) t block rest h k = ground arith

split_block-append :
    (s t block rest : Text)
    → split_block s ≡ some (block, rest)
    → split_block (s ++ t) ≡ some (block, rest ++ t)
unfolding split_block
split_block-append [] t block rest h = cc
split_block-append (c ∷ s) t block rest h = elim (Option-cases (behind_boundary (c ∷ s))) [
  | inr (behind, e) ↦
      let q : ◌≡◌ {A = Option (Text × Text)} (some ([], behind)) (some (block, rest)) =
        rw (e, split_block) at h in
      rw (behind_boundary-append (c ∷ s) t behind e, split_block) (ground arith)
  | inl absent ↦ elim (Option-cases (split_block s)) [
    | inl no_more ↦
        let q : ◌≡◌ {A = Option (Text × Text)} none (some (block, rest)) =
          rw (absent, no_more, split_block) at h in
        absurd (cc)
    | inr ((b, r), found) ↦
        let q : ◌≡◌ {A = Option (Text × Text)} (some (c ∷ b, r)) (some (block, rest)) =
          rw (absent, found, split_block) at h in
        rw
          (no_boundary-append c s t b r absent found, split_block-append s t b r found, split_block)
          (ground arith)
  ]
]

-- A block is shorter than the text that it was taken from.
behind_boundary-length : (s rest : Text) → behind_boundary s ≡ some rest → length rest < length s
unfolding behind_boundary
behind_boundary-length [] rest h = absurd (cc)
behind_boundary-length (c ∷ []) rest h = absurd (cc)
behind_boundary-length (c ∷ d ∷ []) rest h = ground arith
behind_boundary-length (c ∷ d ∷ e ∷ []) rest h = ground arith
behind_boundary-length (c ∷ d ∷ e ∷ f ∷ s) rest h = ground arith

split_block-length :
    (s block rest : Text) → split_block s ≡ some (block, rest) → length rest < length s
unfolding split_block
split_block-length [] block rest h = absurd (cc)
split_block-length (c ∷ s) block rest h = elim (Option-cases (behind_boundary (c ∷ s))) [
  | inr (behind, e) ↦
      let q : ◌≡◌ {A = Option (Text × Text)} (some ([], behind)) (some (block, rest)) =
        rw (e, split_block) at h in
      let same : behind ≡ rest = cc in rw (← same) (behind_boundary-length (c ∷ s) behind e)
  | inl absent ↦ elim (Option-cases (split_block s)) [
    | inl no_more ↦
        let q : ◌≡◌ {A = Option (Text × Text)} none (some (block, rest)) =
          rw (absent, no_more, split_block) at h in
        absurd (cc)
    | inr ((b, r), found) ↦
        let q : ◌≡◌ {A = Option (Text × Text)} (some (c ∷ b, r)) (some (block, rest)) =
          rw (absent, found, split_block) at h in
        let same : r ≡ rest = cc in rw (← same) (omega (arith, split_block-length s b r found))
  ]
]

-- Fuel above the length makes no difference.
blocks_fuel : (f g : ℕ) (s : Text) → length s ≤ f → length s ≤ g → blocks f s ≡ blocks g s
unfolding blocks split_block
blocks_fuel zero zero s h k = refl
blocks_fuel zero (suc g) [] h k = refl
blocks_fuel zero (suc g) (c ∷ s) h k = absurd (omega arith)
blocks_fuel (suc f) zero [] h k = refl
blocks_fuel (suc f) zero (c ∷ s) h k = absurd (omega arith)
blocks_fuel (suc f) (suc g) s h k = elim (Option-cases (split_block s)) [
  | inl none_left ↦ rw (none_left, blocks) refl
  | inr ((block, rest), found) ↦
      let shorter = split_block-length s block rest found in
      rw (found, blocks_fuel f g rest (omega arith) (omega arith), blocks) refl
]

-- What is left holds no boundary.
blocks_left : (f : ℕ) (s : Text) → length s ≤ f → split_block (blocks f s).1 ≡ none
unfolding blocks split_block
blocks_left zero [] h = refl
blocks_left zero (c ∷ s) h = absurd (omega arith)
blocks_left (suc f) s h = elim (Option-cases (split_block s)) [
  | inl none_left ↦ rw (none_left, blocks) none_left
  | inr ((block, rest), found) ↦
      let shorter = split_block-length s block rest found in
      rw (found, blocks) (blocks_left f rest (omega arith))
]

blocks-zero : (s : Text) → blocks zero s ≡ ([], s)
unfolding blocks
blocks-zero s = refl

blocks-none : (f : ℕ) (s : Text) → split_block s ≡ none → blocks (suc f) s ≡ ([], s)
unfolding blocks
blocks-none f s h = rw (h, blocks) refl

blocks-some :
    (f : ℕ) (s block rest : Text)
    → split_block s ≡ some (block, rest)
    → blocks (suc f) s ≡ (block ∷ (blocks f rest).0, (blocks f rest).1)
unfolding blocks
blocks-some f s block rest h = rw (h, blocks) refl

-- The blocks of what was left with the text behind it, after those that were found.
abbrev behind : ℕ → List Text × Text → Text → List Text × Text
behind k found t = let r = blocks k (found.1 ++ t) in (found.0 ++ r.0, r.1)

blocks-append :
    (f g k : ℕ) (s t : Text)
    → length s ≤ f
    → length (s ++ t) ≤ g
    → length ((blocks f s).1 ++ t) ≤ k
    → blocks g (s ++ t) ≡ behind k (blocks f s) t
blocks-append zero g k s t h p q =
    let e = blocks-zero s in rw e (blocks_fuel g k (s ++ t) p (rw e at q))
blocks-append (suc f) g k s t h p q = elim (Option-cases (split_block s)) [
  | inl none_left ↦
      let e = blocks-none f s none_left in rw e (blocks_fuel g k (s ++ t) p (rw e at q))
  | inr ((block, rest), found) ↦
      let shorter = split_block-length s block rest found in
      let e = blocks-some f s block rest found in
      let q' : length ((blocks f rest).1 ++ t) ≤ k = rw e at q in
      let positive : g ≡ suc (g - 1) = omega (arith, length-append s t) in
      rw
        (
          e,
          positive,
          blocks-some (g - 1) (s ++ t) block (rest ++ t) (split_block-append s t block rest found),
        )
        (ap (λ r. (block ∷ r.0, r.1))
          (blocks-append f (g - 1) k rest t (omega arith)
            (omega (arith, length-append s t, length-append rest t)) q'))
]

events_of-append : (xs ys : List Text) → events_of (xs ++ ys) ≡ events_of xs ++ events_of ys
unfolding events_of
events_of-append [] ys = refl
events_of-append (x ∷ xs) ys = elim (Option-cases (parse_sse_block (normalize x))) [
  | inl nothing ↦ rw (nothing, events_of) (events_of-append xs ys)
  | inr (event, e) ↦ rw (e, events_of) (ap (λ l. event ∷ l) (events_of-append xs ys))
]

-- The events of a whole text.
abbrev whole_events : Text → List SseEvent
whole_events s = let r = blocks (length s) s in events_of r.0 ++ last_event r.1

whole_left : (s : Text) → split_block s ≡ none → whole_events s ≡ last_event s
unfolding blocks split_block events_of
whole_left [] h = refl
whole_left (c ∷ s) h = rw (blocks-none (length s) (c ∷ s) h) refl

whole-append :
    (s t : Text)
    → let r = blocks (length s) s in
      whole_events (s ++ t) ≡ events_of r.0 ++ whole_events (r.1 ++ t)
whole-append s t =
    let r = blocks (length s) s in
    let e =
      blocks-append (length s) (length (s ++ t)) (length (r.1 ++ t)) s t (omega arith) (omega arith)
        (omega arith) in
    let later = blocks (length (r.1 ++ t)) (r.1 ++ t) in
    rw
      (
        e,
        events_of-append r.0 later.0,
        append_assoc (events_of r.0) (events_of later.0) (last_event later.1),
      )
      refl

read_chunks-whole :
    (buffer : Text) (chunks : List Text)
    → split_block buffer ≡ none
    → read_chunks buffer chunks ≡ whole_events (buffer ++ concat chunks)
unfolding read_chunks
read_chunks-whole buffer [] h = rw (append-nil buffer) (sym (whole_left buffer h))
read_chunks-whole buffer (chunk ∷ rest) h =
    let s = buffer ++ chunk in
    let r = blocks (length s) s in
    ap (λ l. events_of r.0 ++ l)
      (read_chunks-whole r.1 rest (blocks_left (length s) s (omega arith)))
    ∙ sym (whole-append s (concat rest))
    ∙ ap whole_events (append_assoc buffer chunk (concat rest))

joined_chunks :
    (first : Text) (rest : List Text)
    → read_chunks [] (first ∷ rest) ≡ read_chunks [] ((first ++ concat rest) ∷ [])
unfolding split_block
joined_chunks first rest =
    read_chunks-whole [] (first ∷ rest) refl
    ∙ ap whole_events (sym (append-nil (first ++ concat rest)))
    ∙ sym (read_chunks-whole [] ((first ++ concat rest) ∷ []) refl)

-- A stream gives the same events however it is cut into chunks: those of its whole text, read at
-- once, as long as the first chunk is not empty.
pub parse_sse-chunks :
    (c : ℕ) (first : Text) (rest : List Text)
    → parse_sse ((c ∷ first) ∷ rest) ≡ parse_sse ((c ∷ first ++ concat rest) ∷ [])
unfolding parse_sse strip_mark
parse_sse-chunks c first rest = elim (Bool-cases (c == 65279)) [
  | inl mark ↦ rw (mark, parse_sse, strip_mark) (joined_chunks first rest)
  | inr plain ↦ rw (plain, parse_sse, strip_mark) (joined_chunks (c ∷ first) rest)
]
