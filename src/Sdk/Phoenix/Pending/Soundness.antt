-- ===== src/Sdk/Phoenix/Pending/Soundness.antt =====
-- packages/sdk/src/phoenix/pending.ts: refs and abort listeners stay with their own promises.
use firemig.Prelude.{
  ℕ, ◌+◌, ◌≤◌, ◌≡◌, refl, subst, ap, String, false, Option, none, some, List, [], ◌∷◌, ◌===◌,
  eq_iff, arith, All, All-map, All-append, inl, inr, Option-cases, Bool-cases,
}
use firemig.Prelude.Entries.{
  lookup, erase, lookup-insert, lookup-erase, insert-Distinct, erase-Distinct,
}
use firemig.Platform.Decimal.{decimal}
use firemig.Platform.Decimal.Values.{decimal_injective}
use firemig.Sdk.Phoenix.Protocol.{SocketError}
use firemig.Sdk.Phoenix.Pending.{
  PendingReply, Settlement, PendingReplies, settle_promise, drop_listener, remove_abort_listener,
  add, discard, reject_each, reject_all, listen,
}
use firemig.Sdk.Phoenix.Pending.Accounts.{Sound, Issued, Linked, All-drop}

pub Sound-more :
    {history : List (ℕ × Settlement)} (next more : ℕ) (replies : PendingReplies)
    → next ≤ more
    → Sound history next replies
    → Sound history more replies
Sound-more next more replies h s = record {
  distinct = s.distinct;
  issued = λ key reply e. let (k, q, below) = s.issued key reply e in (k, q, omega arith);
  linked =
      All-map _ _ (λ l b. let (k, q, below) = b.1 in (b.0, (k, q, omega arith))) replies.listeners
        s.linked;
  kept = s.kept;
}

pub Sound-settle :
    {history : List (ℕ × Settlement)} (next promise : ℕ) (outcome : Settlement)
    (replies : PendingReplies)
    → Sound history next replies
    → Sound history next (settle_promise promise outcome replies)
unfolding settle_promise
Sound-settle next promise outcome replies s = record {
  distinct = s.distinct;
  issued = s.issued;
  linked = s.linked;
  kept =
      let (since, e) = s.kept in ((promise, outcome) ∷ since, ap (λ l. (promise, outcome) ∷ l) e);
}

-- Erasing an entry leaves the entries that are found where they were.
lookup_of_erase :
    {history : List (ℕ × Settlement)} (key name : String) (reply : PendingReply)
    (replies : PendingReplies) {next : ℕ}
    → Sound history next replies
    → lookup name (erase key replies.entries) ≡ some reply
    → lookup name replies.entries ≡ some reply
lookup_of_erase key name reply replies s e =
    ground (arith, eq_iff key name, lookup-erase key name replies.entries s.distinct)

pub Sound-erase :
    {history : List (ℕ × Settlement)} (next : ℕ) (key : String) (replies : PendingReplies)
    → Sound history next replies
    → Sound history next (record replies { entries = erase key replies.entries })
Sound-erase next key replies s = record {
  distinct = erase-Distinct key replies.entries s.distinct;
  issued = λ name reply e. s.issued name reply (lookup_of_erase key name reply replies s e);
  linked =
      All-map _ _
        (λ l b. (λ reply e. b.0 reply (lookup_of_erase key l.at_ref reply replies s e), b.1))
        replies.listeners s.linked;
  kept = s.kept;
}

pub Sound-drop :
    {history : List (ℕ × Settlement)} (next promise : ℕ) (replies : PendingReplies)
    → Sound history next replies
    → Sound history next (record replies { listeners = drop_listener promise replies.listeners })
Sound-drop next promise replies s = record {
  distinct = s.distinct;
  issued = s.issued;
  linked = All-drop _ promise replies.listeners s.linked;
  kept = s.kept;
}

pub Sound-remove :
    {history : List (ℕ × Settlement)} (next : ℕ) (reply : PendingReply) (replies : PendingReplies)
    → Sound history next replies
    → Sound history next (remove_abort_listener reply replies)
unfolding remove_abort_listener
Sound-remove next reply replies s = elim (Option-cases reply.signal) [
  | inl e ↦ rw e s
  | inr (signal, e) ↦ rw e (Sound-drop next reply.promise replies s)
]

pub Sound-discard :
    {history : List (ℕ × Settlement)} (next : ℕ) (key : String) (reply : PendingReply)
    (replies : PendingReplies)
    → Sound history next replies
    → Sound history next (discard key reply replies)
unfolding discard
Sound-discard next key reply replies s =
    Sound-remove next reply (record replies { entries = erase key replies.entries })
      (Sound-erase next key replies s)

pub Sound-reject_each :
    {history : List (ℕ × Settlement)} (next : ℕ) (error : SocketError)
    (entries : List (String × PendingReply)) (replies : PendingReplies)
    → Sound history next replies
    → Sound history next (reject_each error entries replies)
unfolding reject_each
Sound-reject_each next error [] replies s = s
Sound-reject_each next error ((ref, reply) ∷ rest) replies s = Sound-reject_each next error rest _ (
    Sound-settle next reply.promise _ (remove_abort_listener reply replies)
      (Sound-remove next reply replies s))

-- A ref that is handed out now is none of the old ones.
module _ {history : List (ℕ × Settlement)} (next : ℕ) (replies : PendingReplies)
    (sound : Sound history next replies) where
  Issued-ne : (key : String) → Issued next key → (decimal next === key) ≡ false
  Issued-ne key i =
      let (k, q, below) = i in
      elim (Bool-cases (decimal next === key)) [
        | inl same ↦ absurd (
            omega (
              arith,
              decimal_injective next k
                  (let e : decimal next ≡ key = (eq_iff (decimal next) key).0 same in cc),
            ))
        | inr other ↦ other
      ]

  module _ (promise : ℕ) (signal : Option ℕ) where
    abbrev pub reply_here : PendingReply
    reply_here = record { promise = promise; signal = signal }

    Issued-here : Issued (next + 1) (decimal next)
    Issued-here = (next, refl, omega arith)

    lookup_old :
        (key : String)
        → Issued next key
        → lookup key (add (decimal next) promise signal replies).entries
          ≡ lookup key replies.entries
    unfolding add
    lookup_old key i =
        ground (arith, lookup-insert (decimal next) key reply_here replies.entries, Issued-ne key i)

    pub lookup_here :
        lookup (decimal next) (add (decimal next) promise signal replies).entries ≡ some reply_here
    unfolding add
    lookup_here = ground (
      arith,
      lookup-insert (decimal next) (decimal next) reply_here replies.entries,
      eq_iff (decimal next) (decimal next),
    )

    Issued-after :
        (key : String) (reply : PendingReply)
        → lookup key (add (decimal next) promise signal replies).entries ≡ some reply
        → Issued (next + 1) key
    unfolding add
    Issued-after key reply e = elim (Bool-cases (decimal next === key)) [
      | inl same ↦ subst (Issued (next + 1)) ((eq_iff (decimal next) key).0 same) Issued-here
      | inr other ↦
          let (k, q, below) =
            sound.issued key reply
              (ground (arith, lookup-insert (decimal next) key reply_here replies.entries)) in
          (k, q, omega arith)
    ]

    old_listeners :
        All
          (λ l.
            Linked (add (decimal next) promise signal replies).entries l
            × Issued (next + 1) l.at_ref)
          replies.listeners
    old_listeners =
        All-map _ _
          (λ l b.
            let (k, q, below) = b.1 in
            (λ reply e. b.0 reply (rw (lookup_old l.at_ref b.1) at e), (k, q, omega arith)))
          replies.listeners sound.linked

    listen-All :
        (s : Option ℕ)
        → All
            (λ l.
              Linked (add (decimal next) promise signal replies).entries l
              × Issued (next + 1) l.at_ref)
            (listen s (decimal next) promise replies.listeners)
    listen-All none = old_listeners
    listen-All (some n) = All-append _ replies.listeners _ old_listeners (
      (λ reply e. let q : some reply_here ≡ some reply = rw lookup_here at e in cc, Issued-here),
      tt,
    )

    pub Sound-add : Sound history (next + 1) (add (decimal next) promise signal replies)
    unfolding add
    Sound-add = record {
      distinct = insert-Distinct (decimal next) reply_here replies.entries sound.distinct;
      issued = Issued-after;
      linked = listen-All signal;
      kept = sound.kept;
    }

pub Sound-reject_all :
    {history : List (ℕ × Settlement)} (next : ℕ) (error : SocketError) (replies : PendingReplies)
    → Sound history next replies
    → Sound history next (reject_all error replies)
unfolding reject_all lookup
Sound-reject_all next error replies s =
    let each = Sound-reject_each next error replies.entries replies s in
    record {
      distinct = tt;
      issued = λ key reply e. absurd (cc);
      linked =
          All-map _ _ (λ l b. (λ reply e. absurd (cc), b.1))
            (reject_each error replies.entries replies).listeners each.linked;
      kept = each.kept;
    }
