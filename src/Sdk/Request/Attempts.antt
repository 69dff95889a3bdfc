-- ===== src/Sdk/Request/Attempts.antt =====
-- packages/sdk/src/client/request.ts: how often a request is sent.
use firemig.Prelude.{
  ℕ, zero, suc, ◌+◌, ◌≤◌, ◌<◌, ◌≡◌, refl, String, Bool, true, false, Option, none, some,
  if◌then◌else◌, arith, inl, inr, ◌⊎◌, Bool-cases,
}
use firemig.Sdk.Request.{
  Network, Fetched, network_error, responded, Outcome, Round, stop, again, round, is_ok,
  attempt_from, send_request, ClientOptions, RequestOptions, Method, get_method, post_method,
  put_method, is_retryable, idempotency_key_of, or_default,
}

-- A request may be sent again if it changes nothing, or the caller gave it a key or called it
-- idempotent, for which it gets one.
abbrev pub repeatable : Option Method → Option Bool → Option String → Bool
repeatable none idempotent key = true
repeatable (some get_method) idempotent key = true
repeatable (some _) (some true) key = true
repeatable (some _) (some false) (some key) = true
repeatable (some _) none (some key) = true
repeatable (some _) (some false) none = false
repeatable (some _) none none = false

-- Whether an attempt was answered with success.
abbrev pub succeeded : Fetched → Bool
succeeded network_error = false
succeeded (responded status decoded) = is_ok status

Round-cases : (r : Round) → ((o : Outcome) × (r ≡ stop o)) ⊎ (r ≡ again)
Round-cases (stop o) = inl (o, refl)
Round-cases again = inr refl

-- There is another attempt only behind a failure that may be retried, and below the limit.
again_only :
    (max_retries attempt : ℕ) (retryable aborted : Bool) (answer : Fetched)
    → round max_retries retryable attempt answer aborted ≡ again
    → (attempt < max_retries) × (retryable ≡ true) × (succeeded answer ≡ false)
unfolding round
again_only max_retries attempt retryable aborted network_error h = ground arith
again_only max_retries attempt retryable aborted (responded status decoded) h = ground arith

module _ (network : Network) (max_retries : ℕ) (retryable : Bool) where
  -- The answers of so many attempts, from one on, were no successes.
  abbrev Failed : ℕ → ℕ → Type 0
  Failed attempt zero = Unit
  Failed attempt (suc n) = (succeeded (network.fetched attempt) ≡ false) × Failed (attempt + 1) n

  -- What is known of a run that began with an attempt: how often it tried again, all of them
  -- behind failures, and that only if the request may be retried.
  pub record Ends (attempt : ℕ) (result : Option (Outcome × ℕ)) : Type 0 where
    pub outcome : Outcome
    pub retries : ℕ
    pub result_is : result ≡ some (outcome, retries + 1)
    pub bounded : attempt + retries ≤ (if retryable then max_retries else attempt)
    pub failed : Failed attempt retries

  ended_here :
      (attempt : ℕ) (o : Outcome) {result : Option (Outcome × ℕ)}
      → attempt ≤ max_retries
      → result ≡ some (o, 1)
      → Ends attempt result
  ended_here attempt o below e = record {
    outcome = o;
    retries = 0;
    result_is = e;
    bounded = ground arith;
    failed = tt;
  }

  attempt_from-Ends :
      (fuel attempt : ℕ)
      → attempt ≤ max_retries
      → max_retries < attempt + fuel
      → Ends attempt (attempt_from network max_retries retryable fuel attempt)
  unfolding attempt_from
  attempt_from-Ends zero attempt below enough = absurd (omega arith)
  attempt_from-Ends (suc fuel) attempt below enough =
      elim (Round-cases
        (round max_retries retryable attempt (network.fetched attempt) (network.aborted attempt))) [
          | inl (o, e) ↦ ended_here attempt o below (rw (e, attempt_from) refl)
          | inr e ↦ elim (Bool-cases (network.sleep_rejects attempt)) [
            | inl woken ↦
                ended_here attempt Outcome.interrupted below (rw (e, woken, attempt_from) refl)
            | inr slept ↦
                let (early, safe, failed) =
                  again_only max_retries attempt retryable (network.aborted attempt)
                    (network.fetched attempt) e in
                let later = attempt_from-Ends fuel (attempt + 1) (omega arith) (omega arith) in
                let bound = later.bounded in
                record {
                  outcome = later.outcome;
                  retries = suc later.retries;
                  result_is = rw (e, slept, later.result_is, attempt_from) (ground arith);
                  bounded = ground arith;
                  failed = (failed, later.failed);
                }
          ]
        ]

retryable_cases :
    (uuid : String) (method : Option Method) (idempotent : Option Bool) (key : Option String)
    (options : RequestOptions)
    → options.method ≡ method
    → options.idempotent ≡ idempotent
    → options.idempotency_key ≡ key
    → is_retryable uuid options ≡ repeatable method idempotent key
unfolding is_retryable idempotency_key_of
retryable_cases uuid none idempotent key options m i k = rw m refl
retryable_cases uuid (some get_method) idempotent key options m i k = rw m refl
retryable_cases uuid (some post_method) (some true) key options m i k = rw (m, i) refl
retryable_cases uuid (some post_method) (some false) (some sent) options m i k = rw (m, i, k) refl
retryable_cases uuid (some post_method) (some false) none options m i k = rw (m, i, k) refl
retryable_cases uuid (some post_method) none (some sent) options m i k = rw (m, i, k) refl
retryable_cases uuid (some post_method) none none options m i k = rw (m, i, k) refl
retryable_cases uuid (some put_method) (some true) key options m i k = rw (m, i) refl
retryable_cases uuid (some put_method) (some false) (some sent) options m i k = rw (m, i, k) refl
retryable_cases uuid (some put_method) (some false) none options m i k = rw (m, i, k) refl
retryable_cases uuid (some put_method) none (some sent) options m i k = rw (m, i, k) refl
retryable_cases uuid (some put_method) none none options m i k = rw (m, i, k) refl

is_retryable-repeatable :
    (uuid : String) (options : RequestOptions)
    → is_retryable uuid options
      ≡ repeatable options.method options.idempotent options.idempotency_key
is_retryable-repeatable uuid options =
    retryable_cases uuid options.method options.idempotent options.idempotency_key options refl refl
      refl

-- With fuel for one attempt more than the retries, a request ends with an outcome. It is sent once
-- and then again at most as often as there are retries, and not again if it is a mutation that the
-- caller gave no idempotency key and did not call idempotent; and each time that it is sent again
-- the answer before was no success.
pub send_request-Ends :
    (network : Network) (client : ClientOptions) (random_uuid : String) (options : RequestOptions)
    → Ends network
        (or_default 3 client.max_retries)
        (repeatable options.method options.idempotent options.idempotency_key)
        0
        (send_request (or_default 3 client.max_retries + 1) network client random_uuid options)
unfolding send_request
send_request-Ends network client random_uuid options =
    rw (is_retryable-repeatable random_uuid options) (
      attempt_from-Ends network (or_default 3 client.max_retries)
        (repeatable options.method options.idempotent options.idempotency_key)
        (or_default 3 client.max_retries + 1) 0 (omega arith) (omega arith))
