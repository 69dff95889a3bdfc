-- ===== src/Sdk/Phoenix/Session/Refinement.antt =====
-- packages/sdk/src/phoenix: a client as a family of promises, each with one state of its own.
use firemig.Prelude.{
  ℕ, ◌≡◌, refl, String, Bool, true, false, Option, none, some, List, [], ◌∷◌, ◌++◌, ◌==◌, ◌||◌, ◌≤◌,
  ltb, if◌then◌else◌, arith, inl, inr, Option-cases, Bool-cases,
}
use firemig.Common.Json.{Json}
use firemig.Sdk.Phoenix.Pending.{PendingReply, Settlement}
use firemig.Sdk.Phoenix.Pending.Accounts.{Counted, pending_count, settled_count}
use firemig.Sdk.Phoenix.Socket.{PhoenixSocket}
use firemig.Sdk.Phoenix.Session.{new_client, Step, Reach}
use firemig.Sdk.Phoenix.Session.Accounts.{Accounts}
use firemig.Sdk.Phoenix.Session.Settled.{reached-Accounts, Step-Accounts}

-- What the first call of `resolve` or `reject` gave; later calls change nothing.
unfoldable pub outcome_of : ℕ → List (ℕ × Settlement) → Option Settlement
outcome_of p [] = none
outcome_of p ((promise, outcome) ∷ rest) = elim (outcome_of p rest) [
  | some first ↦ some first
  | none ↦ if promise == p then some outcome else none
]

unfoldable pub is_waiting : ℕ → List (String × PendingReply) → Bool
is_waiting p [] = false
is_waiting p ((ref, reply) ∷ rest) = (reply.promise == p) || is_waiting p rest

pub data Status : Type 0 where
  unmade : Status
  waiting : Status
  settled_as : Settlement → Status

abbrev pub status_of : Option Settlement → Bool → Status
status_of (some outcome) waits = settled_as outcome
status_of none true = waiting
status_of none false = unmade

abbrev pub promise_status : ℕ → PhoenixSocket → Status
promise_status p client =
    status_of (outcome_of p client.pending.settled) (is_waiting p client.pending.entries)

-- What one event may do to a promise.
pub data Moves : Status → Status → Type 0 where
  stays : (s : Status) → Moves s s
  makes : Moves unmade waiting
  fails_at_once : (outcome : Settlement) → Moves unmade (settled_as outcome)
  settles : (outcome : Settlement) → Moves waiting (settled_as outcome)

outcome-kept :
    (p : ℕ) (since old : List (ℕ × Settlement)) (outcome : Settlement)
    → outcome_of p old ≡ some outcome
    → outcome_of p (since ++ old) ≡ some outcome
unfolding outcome_of
outcome-kept p [] old outcome h = h
outcome-kept p ((promise, later) ∷ rest) old outcome h =
    simp (outcome-kept p rest old outcome h) refl

count-no_outcome :
    (p : ℕ) (settled : List (ℕ × Settlement))
    → outcome_of p settled ≡ none
    → settled_count p settled ≡ 0
unfolding outcome_of
count-no_outcome p [] h = refl
count-no_outcome p ((promise, outcome) ∷ rest) h = elim (Option-cases (outcome_of p rest)) [
  | inr (first, there) ↦ absurd (ground (arith, there, h))
  | inl absent ↦ elim (Bool-cases (promise == p)) [
    | inl same ↦ absurd (ground (arith, absent, same, h))
    | inr other ↦ ground (arith, other, count-no_outcome p rest absent)
  ]
]

count-is_waiting :
    (p : ℕ) (entries : List (String × PendingReply))
    → is_waiting p entries ≡ ltb 0 (pending_count p entries)
unfolding is_waiting
count-is_waiting p [] = refl
count-is_waiting p ((ref, reply) ∷ rest) = ground (arith, count-is_waiting p rest)

-- A promise that waits is still waiting until it is settled.
still_waits :
    (p : ℕ) (client after : PhoenixSocket)
    → Counted client.next_promise client.pending
    → Counted after.next_promise after.pending
    → client.next_promise ≤ after.next_promise
    → is_waiting p client.pending.entries ≡ true
    → outcome_of p after.pending.settled ≡ none
    → is_waiting p after.pending.entries ≡ true
still_waits p client after counted counted_after made waits unsettled = ground (
  arith,
  counted p,
  counted_after p,
  count-is_waiting p client.pending.entries,
  count-is_waiting p after.pending.entries,
  count-no_outcome p after.pending.settled unsettled,
)

-- Counted anew from a state of the client.
from_here :
    (client : PhoenixSocket)
    → Accounts [] 0 client
    → Accounts client.pending.settled client.next_promise client
from_here client a = record {
  sound = record {
    distinct = a.sound.distinct;
    issued = a.sound.issued;
    linked = a.sound.linked;
    kept = ([], refl);
  };
  counted = a.counted;
  made = omega arith;
}

one_move :
    (before later : Option Settlement) (was now : Bool)
    → ((outcome : Settlement) → before ≡ some outcome → later ≡ some outcome)
    → (was ≡ true → later ≡ none → now ≡ true)
    → Moves (status_of before was) (status_of later now)
one_move (some outcome) later was now keeps waits =
    let q : later ≡ some outcome = keeps outcome refl in rw q (stays (settled_as outcome))
one_move none (some outcome) true now keeps waits = settles outcome
one_move none (some outcome) false now keeps waits = fails_at_once outcome
one_move none none true now keeps waits =
    let q : now ≡ true = waits refl refl in rw q (stays waiting)
one_move none none false true keeps waits = makes
one_move none none false false keeps waits = stays unmade

move_between :
    (p : ℕ) (client after : PhoenixSocket)
    → Accounts [] 0 client
    → Accounts client.pending.settled client.next_promise after
    → Moves (promise_status p client) (promise_status p after)
move_between p client after a b =
    let (since, e) = b.sound.kept in
    one_move (outcome_of p client.pending.settled) (outcome_of p after.pending.settled) _ _
      (λ outcome there. rw e (outcome-kept p since client.pending.settled outcome there))
      (still_waits p client after a.counted b.counted b.made)

-- Whatever happens next to a client that came to its state from its start, each promise stays as it
-- is, or makes one move of its own: it is made and waits, it is made and fails at once, or it waited
-- and is settled. In particular the outcome of a settled promise never changes, and a promise that
-- waits is not forgotten.
pub refines_promises :
    (parse_json : String → Option Json) {client after : PhoenixSocket} (p : ℕ)
    → Reach parse_json new_client client
    → Step parse_json client after
    → Moves (promise_status p client) (promise_status p after)
refines_promises parse_json {client} {after} p run step =
    let a = reached-Accounts parse_json run in
    move_between p client after a (Step-Accounts parse_json step (from_here client a))
