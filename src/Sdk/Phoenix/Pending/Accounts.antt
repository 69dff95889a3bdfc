-- ===== src/Sdk/Phoenix/Pending/Accounts.antt =====
-- packages/sdk/src/phoenix/pending.ts: each promise is pending or settled, and that only once.
use firemig.Prelude.{
  ℕ, ◌+◌, ◌<◌, ◌≡◌, subst, String, none, some, List, [], ◌∷◌, ◌++◌, ◌==◌, ==_iff, eq_iff, ltb,
  if◌then◌else◌, arith, All, inl, inr, Option-cases, Bool-cases,
}
use firemig.Prelude.Entries.{lookup, erase, Distinct}
use firemig.Platform.Decimal.{decimal}
use firemig.Platform.Decimal.Values.{decimal_injective}
use firemig.Sdk.Phoenix.Pending.{
  PendingReply, AbortListener, Settlement, PendingReplies, find_listener, drop_listener,
}

abbrev pub one_if : ℕ → ℕ → ℕ
one_if p q = if q == p then 1 else 0

-- How often a promise is pending, and how often it was settled.
abbrev pub pending_count : ℕ → List (String × PendingReply) → ℕ
pending_count p [] = 0
pending_count p ((ref, reply) ∷ rest) = one_if p reply.promise + pending_count p rest

abbrev pub settled_count : ℕ → List (ℕ × Settlement) → ℕ
settled_count p [] = 0
settled_count p ((promise, outcome) ∷ rest) = one_if p promise + settled_count p rest

abbrev pub tally : ℕ → PendingReplies → ℕ
tally p replies = pending_count p replies.entries + settled_count p replies.settled

-- A ref that was handed out before `next`.
abbrev pub Issued : ℕ → String → Type 0
Issued next key = (k : ℕ) × (key ≡ decimal k) × (k < next)

-- What an abort listener would reject is its own promise.
abbrev pub Linked : List (String × PendingReply) → AbortListener → Type 0
Linked entries l =
    (reply : PendingReply) → lookup l.at_ref entries ≡ some reply → reply.promise ≡ l.of_promise

-- What was settled before is still there, under what was settled since.
abbrev pub Kept : List (ℕ × Settlement) → List (ℕ × Settlement) → Type 0
Kept history settled = (since : List (ℕ × Settlement)) × (settled ≡ since ++ history)

-- `next` refs were handed out, and `history` had been settled.
pub record Sound (history : List (ℕ × Settlement)) (next : ℕ) (replies : PendingReplies)
    : Type 0 where
  pub distinct : Distinct replies.entries
  pub issued :
      (key : String) (reply : PendingReply)
      → lookup key replies.entries ≡ some reply
      → Issued next key
  pub linked : All (λ l. Linked replies.entries l × Issued next l.at_ref) replies.listeners
  pub kept : Kept history replies.settled

-- Each of the promises below `made` is pending or settled, once, and there are no others.
abbrev pub Counted : ℕ → PendingReplies → Type 0
Counted made replies = (p : ℕ) → tally p replies ≡ (if ltb p made then 1 else 0)

pub fresh :
    {history : List (ℕ × Settlement)} (next : ℕ) (replies : PendingReplies)
    → Sound history next replies
    → lookup (decimal next) replies.entries ≡ none
fresh next replies s = elim (Option-cases (lookup (decimal next) replies.entries)) [
  | inl absent ↦ absent
  | inr (reply, there) ↦
      let (k, e, below) = s.issued (decimal next) reply there in
      absurd (omega (arith, decimal_injective next k e))
]

pub pending-append :
    (p : ℕ) (xs ys : List (String × PendingReply))
    → pending_count p (xs ++ ys) ≡ pending_count p xs + pending_count p ys
pending-append p [] ys = omega arith
pending-append p ((ref, reply) ∷ rest) ys = omega (arith, pending-append p rest ys)

pub pending-erase :
    (p : ℕ) (key : String) (reply : PendingReply) (entries : List (String × PendingReply))
    → lookup key entries ≡ some reply
    → pending_count p entries ≡ one_if p reply.promise + pending_count p (erase key entries)
unfolding lookup erase
pending-erase p key reply [] h = cc
pending-erase p key reply ((name, held) ∷ rest) h =
    ground (arith, eq_iff name key, pending-erase p key reply rest)

-- What holds of all listeners holds of those that are left.
pub All-drop :
    (P : AbortListener → Type 0) (promise : ℕ) (listeners : List AbortListener)
    → All P listeners
    → All P (drop_listener promise listeners)
unfolding drop_listener
All-drop P promise [] h = tt
All-drop P promise (l ∷ rest) h = elim (Bool-cases (l.of_promise == promise)) [
  | inl same ↦ rw same (All-drop P promise rest h.1)
  | inr other ↦ rw other (h.0, All-drop P promise rest h.1)
]

pub find-All :
    (P : AbortListener → Type 0) (promise : ℕ) (listeners : List AbortListener) (l : AbortListener)
    → All P listeners
    → find_listener promise listeners ≡ some l
    → P l × (l.of_promise ≡ promise)
unfolding find_listener
find-All P promise [] l h e = absurd (cc)
find-All P promise (m ∷ rest) l h e = elim (Bool-cases (m.of_promise == promise)) [
  | inl same ↦
      let q : some m ≡ some l = rw same at e in
      let r : m ≡ l = cc in subst (λ x. P x × (x.of_promise ≡ promise)) r (h.0, (==_iff _ _).0 same)
  | inr other ↦
      let q : find_listener promise rest ≡ some l = rw other at e in find-All P promise rest l h.1 q
]
