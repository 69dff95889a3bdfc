-- ===== src/Sdk/Client/Keys.antt =====
-- packages/sdk/src/client.ts and client/sandbox.ts: retries of the SDK's operations.
use firemig.Prelude.{
  ℕ, zero, suc, ◌+◌, ◌≤◌, ◌<◌, ◌≡◌, refl, ap, String, true, false, Option, none, some, arith, inl,
  inr, Option-cases, leb,
}
use firemig.Prelude.Entries.{lookup, insert}
use firemig.Common.Json.{Json}
use firemig.Sdk.Request.{
  Network, network_error, responded, content, round, is_ok, attempt_from, send_request,
  ClientOptions, RequestOptions, is_retryable, idempotency_key_of, or_default, sent_request,
  build_headers, is_mutating, Method, post_method, put_method,
}
use firemig.Sdk.Client.{
  Operation, create_sandbox, get_sandbox, refresh, write_file, expose_port, migrate, get_migration,
  path_of, options_of, reading, mutating,
}

-- The key that the caller gave, of an operation that changes something.
abbrev pub key_of : String → Operation → Option String
key_of uuid (create_sandbox request key) = some (or_default uuid key)
key_of uuid (write_file id path body mode key) = some (or_default uuid key)
key_of uuid (expose_port id request key) = some (or_default uuid key)
key_of uuid (migrate id request key) = some (or_default uuid key)
key_of uuid (get_sandbox id) = none
key_of uuid (refresh id) = none
key_of uuid (get_migration id migration_id) = none

retryable_operation :
    (uuid : String) (operation : Operation) → is_retryable uuid (options_of operation) ≡ true
unfolding options_of is_retryable idempotency_key_of
retryable_operation uuid (create_sandbox request key) = refl
retryable_operation uuid (get_sandbox id) = refl
retryable_operation uuid (refresh id) = refl
retryable_operation uuid (write_file id path body mode key) = refl
retryable_operation uuid (expose_port id request key) = refl
retryable_operation uuid (migrate id request key) = refl
retryable_operation uuid (get_migration id migration_id) = refl

abbrev pub key_sent : ClientOptions → String → String → RequestOptions → Option String
key_sent client uuid path options =
    lookup "idempotency-key" (sent_request client uuid path options).headers

reading_key :
    (client : ClientOptions) (uuid path : String) → key_sent client uuid path reading ≡ none
unfolding sent_request build_headers idempotency_key_of lookup insert
reading_key client uuid path = elim (Option-cases client.token) [
  | inl absent ↦ rw absent refl
  | inr (token, e) ↦ rw e refl
]

mutating_key :
    (client : ClientOptions) (uuid path : String) (method : Method) (body : Json)
    (key : Option String)
    → is_mutating (some method) ≡ true
    → key_sent client uuid path (mutating method body key) ≡ some (or_default uuid key)
unfolding sent_request build_headers idempotency_key_of lookup insert
mutating_key client uuid path method body key changes = elim (Option-cases client.token) [
  | inl absent ↦ rw (changes, absent) refl
  | inr (token, e) ↦ rw (changes, e) refl
]

key_header :
    (client : ClientOptions) (uuid : String) (operation : Operation)
    → key_sent client uuid (path_of operation) (options_of operation) ≡ key_of uuid operation
unfolding options_of
key_header client uuid (create_sandbox request key) =
    mutating_key client uuid _ post_method request key refl
key_header client uuid (get_sandbox id) = reading_key client uuid _
key_header client uuid (refresh id) = reading_key client uuid _
key_header client uuid (write_file id path body mode key) =
    mutating_key client uuid _ put_method _ key refl
key_header client uuid (expose_port id request key) =
    mutating_key client uuid _ post_method request key refl
key_header client uuid (migrate id request key) =
    mutating_key client uuid _ post_method request key refl
key_header client uuid (get_migration id migration_id) = reading_key client uuid _

-- The network fails so many times from an attempt on, and answers the next one with a value.
abbrev pub Recovers : Network → ℕ → ℕ → Json → Type 0
Recovers network attempt zero value = network.fetched attempt ≡ responded 200 (some value)
Recovers network attempt (suc n) value =
    (network.fetched attempt ≡ network_error)
    × (network.aborted attempt ≡ false)
    × (network.sleep_rejects attempt ≡ false)
    × Recovers network (attempt + 1) n value

attempt_from-Recovers :
    (network : Network) (max_retries n fuel attempt : ℕ) (value : Json)
    → attempt + n ≤ max_retries
    → n < fuel
    → Recovers network attempt n value
    → attempt_from network max_retries true fuel attempt ≡ some (content value, n + 1)
unfolding attempt_from round is_ok
attempt_from-Recovers network max_retries n zero attempt value below enough r =
    absurd (omega (arith, enough))
attempt_from-Recovers network max_retries zero (suc fuel) attempt value below enough r =
    rw (attempt_from, r) refl
attempt_from-Recovers network max_retries (suc n) (suc fuel) attempt value below enough r =
    let later : attempt_from network max_retries true fuel (attempt + 1)
        ≡ some (content value, n + 1) =
      attempt_from-Recovers network max_retries n fuel (attempt + 1) value (omega (arith, below))
        (omega (arith, enough)) r.3 in
    let not_last : leb max_retries attempt ≡ false = ground (arith, below) in
    rw (attempt_from, r.0, r.1, not_last)
      (rw (r.2, later) (ap (λ m. some (content value, m)) (omega arith)))

-- Every operation of the SDK over HTTP outlives as many network failures as there are retries: where
-- the first attempts fail, as many as that or fewer, the signal is not aborted, and the next one is
-- answered with 200 and a value, it gives that value, and has been sent once for each failure and
-- once more. It sends an idempotency key exactly if it changes something: the caller's, or the one
-- that was made for it.
pub send_request-Recovers :
    (network : Network) (client : ClientOptions) (uuid : String) (operation : Operation) (n : ℕ)
    (value : Json)
    → n ≤ or_default 3 client.max_retries
    → Recovers network 0 n value
    → (send_request (or_default 3 client.max_retries + 1) network client uuid (options_of operation)
        ≡ some (content value, n + 1))
      × (key_sent client uuid (path_of operation) (options_of operation) ≡ key_of uuid operation)
unfolding send_request
send_request-Recovers network client uuid operation n value below recovers = (
  rw (retryable_operation uuid operation) (
      attempt_from-Recovers network (or_default 3 client.max_retries) n
        (or_default 3 client.max_retries + 1) 0 value (omega (arith, below)) (omega (arith, below))
        recovers),
  key_header client uuid operation,
)
