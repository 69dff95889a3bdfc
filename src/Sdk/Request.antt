-- ===== src/Sdk/Request.antt =====
-- packages/sdk/src/client/request.ts, options.ts and the requests of client.ts: one request with
pub mod Attempts
-- its retries. What `fetch` and the signal do at each attempt is a parameter.
use Prim.Native.String.{◌++◌}
use firemig.Prelude.{
  ℕ, zero, suc, ◌+◌, String, Bool, true, false, not, ◌&&◌, ◌||◌, Option, none, some, List, [], ◌∷◌,
  ltb, leb, ◌==◌, if◌then◌else◌,
}
use firemig.Prelude.Entries.{insert}
use firemig.Common.Json.{Json}
use firemig.Sdk.Errors.{ApiError, error_from_response}

pub data Method : Type 0 where
  get_method post_method put_method : Method

pub record RequestOptions : Type 0 where
  pub method : Option Method
  pub body : Option Json
  pub idempotent : Option Bool
  pub idempotency_key : Option String
  pub accept : Option String
  pub headers : Option (List (String × String))

pub record ClientOptions : Type 0 where
  pub base_url : String
  pub token : Option String
  pub max_retries : Option ℕ

-- `{ ...base, ...more }`
abbrev spread : List (String × String) → List (String × String) → List (String × String)
spread base [] = base
spread base ((name, value) ∷ more) = spread (insert name value base) more

abbrev pub or_default {ℓ} : {A : Type ℓ} → A → Option A → A
or_default fallback none = fallback
or_default fallback (some a) = a

abbrev optional : String → Option String → List (String × String)
optional name none = []
optional name (some value) = (name, value) ∷ []

abbrev bearer : Option String → Option String
bearer none = none
bearer (some token) = some ("Bearer " ++ token)

unfoldable pub build_headers :
    ClientOptions → RequestOptions → Option String → List (String × String)
unfolding insert
build_headers client options key =
    spread
      (spread
        (spread (("accept", or_default "application/json" options.accept) ∷ [])
          (optional "authorization" (bearer client.token)))
        (optional "idempotency-key" key))
      (or_default [] options.headers)

abbrev pub is_mutating : Option Method → Bool
is_mutating none = false
is_mutating (some get_method) = false
is_mutating (some _) = true

abbrev is_true : Option Bool → Bool
is_true (some true) = true
is_true _ = false

-- The key of a request; `random_uuid` is the key that an idempotent mutation without one gets.
unfoldable pub idempotency_key_of : String → RequestOptions → Option String
idempotency_key_of random_uuid options =
    if is_mutating options.method && is_true options.idempotent
    then some (or_default random_uuid options.idempotency_key)
    else options.idempotency_key

abbrev is_some {ℓ} : {A : Type ℓ} → Option A → Bool
is_some none = false
is_some (some _) = true

unfoldable pub is_retryable : String → RequestOptions → Bool
unfolding idempotency_key_of
is_retryable random_uuid options =
    not (is_mutating options.method) || is_some (idempotency_key_of random_uuid options)

abbrev with_content_type : Option Json → List (String × String) → List (String × String)
with_content_type none headers = headers
with_content_type (some _) headers = insert "content-type" "application/json" headers

pub record Sent : Type 0 where
  pub method : Method
  pub url : String
  pub headers : List (String × String)
  pub body : Option Json

-- What every attempt hands to `fetch`.
unfoldable pub sent_request : ClientOptions → String → String → RequestOptions → Sent
unfolding build_headers idempotency_key_of insert
sent_request client random_uuid path options = record {
  method = or_default get_method options.method;
  url = client.base_url ++ path;
  headers =
      with_content_type options.body
        (build_headers client options (idempotency_key_of random_uuid options));
  body = options.body;
}

-- `fetch` rejects, or answers with a status and what `response.json()` gives.
pub data Fetched : Type 0 where
  network_error : Fetched
  responded : ℕ → Option Json → Fetched

pub data Outcome : Type 0 where
  no_content undecodable network_failure interrupted : Outcome
  content : Json → Outcome
  api_failure : ApiError → Outcome

-- What an attempt does: it ends the request, or it is followed by another.
pub data Round : Type 0 where
  stop : Outcome → Round
  again : Round

unfoldable pub is_ok : ℕ → Bool
is_ok status = leb 200 status && ltb status 300

abbrev content_of : Option Json → Outcome
content_of none = undecodable
content_of (some value) = content value

unfoldable pub round : ℕ → Bool → ℕ → Fetched → Bool → Round
unfolding is_ok
round max_retries retryable attempt network_error aborted =
    if leb max_retries attempt || not retryable || aborted then stop network_failure else again
round max_retries retryable attempt (responded status decoded) aborted =
    if is_ok status
    then stop (if status == 204 then no_content else content_of decoded)
    else let error = error_from_response status decoded in
      if not error.body.retryable || leb max_retries attempt || not retryable
      then stop (api_failure error)
      else again

-- What happens at each attempt: the answer, an aborted signal, a sleep that the signal ends.
pub record Network : Type 0 where
  pub fetched : ℕ → Fetched
  pub aborted : ℕ → Bool
  pub sleep_rejects : ℕ → Bool

abbrev one_more : Option (Outcome × ℕ) → Option (Outcome × ℕ)
one_more none = none
one_more (some (outcome, sent)) = some (outcome, sent + 1)

-- The loop from an attempt on: the outcome and how often `fetch` was called, or `none` where the
-- fuel ran out.
module _ (network : Network) (max_retries : ℕ) (retryable : Bool) where
  unfoldable pub attempt_from : ℕ → ℕ → Option (Outcome × ℕ)
  unfolding round
  attempt_from zero attempt = none
  attempt_from (suc fuel) attempt =
      let rest = one_more (attempt_from fuel (attempt + 1)) in
      elim (round max_retries retryable attempt (network.fetched attempt)
        (network.aborted attempt)) [
          | stop outcome ↦ some (outcome, 1)
          | again ↦ if network.sleep_rejects attempt then some (interrupted, 1) else rest
        ]

-- `sendRequest` of `FiremigClient.request`, on fuel.
unfoldable pub send_request :
    ℕ → Network → ClientOptions → String → RequestOptions → Option (Outcome × ℕ)
unfolding attempt_from
send_request fuel network client random_uuid options =
    attempt_from network (or_default 3 client.max_retries) (is_retryable random_uuid options) fuel 0
