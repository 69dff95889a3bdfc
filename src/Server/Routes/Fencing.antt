-- ===== src/Server/Routes/Fencing.antt =====
-- packages/agent/src/server: what a request over HTTP can change.
use firemig.Prelude.{
  ℕ, ◌≡◌, refl, ap, sym, ◌∙◌, subst, inl, inr, String, Bool, true, false, Option, none, some,
  Bool-cases, if◌then◌else◌,
}
use firemig.Common.Json.{member}
use firemig.Exec.{Settled, fulfilled, rejected, Exec, lift, ◌>>=◌, Settled-cases}
use firemig.Platform.Decimal.{decimal}
use firemig.Platform.Paths.{is_safe_integer}
use firemig.Worker.Types.{WorkerCore}
use firemig.Worker.Core.Fencing.{IsStale}
use firemig.Worker.Service.{Request, serve, verify, fence_cleanup, transfer, snapshot_phase}
use firemig.Worker.Service.Stale.{fenced_by, stale_changes_nothing}
use firemig.Server.Requests.{bad_request_error, migration_id_of, required_string}
use firemig.Server.Requests.EpochHeader.{epoch_of_header-decimal}
use firemig.Server.Routes.{
  HttpRequest, handle, respond, is_authorized, response_of, with_status, success_status,
  handle_made,
}
use firemig.Server.Routes.Calls.{
  Route, request_of, settled_then, with_epoch, create_sandbox, get_sandbox, pause_sandbox,
  resume_sandbox, fence_sandbox, probe_migration, precopy_migration, pause_migration,
  resume_migration, run_command, write_files, expose_ports, prepare_migration, snapshot_migration,
  verify_migration, fence_and_cleanup, transfer_migration, load_migration, load_sandbox,
  rollback_migration, snapshot_sandbox, quarantine_sandbox, healthz, pull_artifacts,
  read_artifact_range,
}

-- The sandbox of a route whose epoch header fences it. A preparation and a rollback are not fenced
-- by it alone, and a creation has its epoch in its body.
abbrev pub fenced_route : Route → Option String
fenced_route (run_command id body) = some id
fenced_route (write_files id body) = some id
fenced_route (expose_ports id guest_port) = some id
fenced_route (probe_migration id) = some id
fenced_route (precopy_migration id) = some id
fenced_route (pause_migration id) = some id
fenced_route (resume_migration id) = some id
fenced_route (snapshot_migration id body) = some id
fenced_route (transfer_migration id body manifest) = some id
fenced_route (load_migration id manifest) = some id
fenced_route (load_sandbox id manifest) = some id
fenced_route (verify_migration id body) = some id
fenced_route (fence_and_cleanup id body) = some id
fenced_route (pause_sandbox id) = some id
fenced_route (resume_sandbox id) = some id
fenced_route (fence_sandbox id) = some id
fenced_route (snapshot_sandbox id migration_id) = some id
fenced_route (quarantine_sandbox id migration_id) = some id
fenced_route _ = none

-- A request that a route makes of the worker carries the epoch of the header.
abbrev Carries : String → ℕ → Option (Settled Request) → Type 0
Carries id epoch (some (fulfilled q)) = fenced_by q ≡ some (id, epoch)
Carries id epoch (some (rejected t)) = Unit
Carries id epoch none = ⊥

abbrev with_id : Option String → ℕ → Option (String × ℕ)
with_id none epoch = none
with_id (some id) epoch = some (id, epoch)

then-Carries :
    {A : Type 0} (id : String) (epoch : ℕ) (m : Settled A) (f : A → Settled Request)
    → ((a : A) → Carries id epoch (some (f a)))
    → Carries id epoch (some (settled_then m f))
then-Carries id epoch (fulfilled a) f h = h a
then-Carries id epoch (rejected t) f h = tt

module _ (id : String) (epoch : ℕ) where
  if-Carries :
      (safe : Bool) (f : ℕ → Settled Request)
      → Carries id epoch (some (f epoch))
      → Carries id epoch
          (some (settled_then (if safe then fulfilled epoch else rejected bad_request_error) f))
  if-Carries true f h = h
  if-Carries false f h = tt

  epoch-Carries :
      (f : ℕ → Settled Request)
      → Carries id epoch (some (f epoch))
      → Carries id epoch (some (with_epoch (some (decimal epoch)) f))
  epoch-Carries f h =
      subst (λ m. Carries id epoch (some (settled_then m f))) (sym (epoch_of_header-decimal epoch))
        (if-Carries (is_safe_integer epoch) f h)

  request_of-Carries :
      (route : Route)
      → fenced_route route ≡ some id
      → Carries id epoch (request_of route (some (decimal epoch)))
  unfolding request_of
  request_of-Carries (run_command i body) h = epoch-Carries _ (ap (λ o. with_id o epoch) h)
  request_of-Carries (write_files i body) h = epoch-Carries _ (ap (λ o. with_id o epoch) h)
  request_of-Carries (expose_ports i guest_port) h = epoch-Carries _ (ap (λ o. with_id o epoch) h)
  request_of-Carries (probe_migration i) h = epoch-Carries _ (ap (λ o. with_id o epoch) h)
  request_of-Carries (precopy_migration i) h = epoch-Carries _ (ap (λ o. with_id o epoch) h)
  request_of-Carries (pause_migration i) h = epoch-Carries _ (ap (λ o. with_id o epoch) h)
  request_of-Carries (resume_migration i) h = epoch-Carries _ (ap (λ o. with_id o epoch) h)
  request_of-Carries (snapshot_migration i body) h =
      then-Carries id epoch (migration_id_of body)
        (λ migration_id.
          with_epoch (some (decimal epoch))
            λ e. fulfilled (snapshot_phase i (record { migration_id = migration_id; epoch = e })))
        (λ migration_id. epoch-Carries _ (ap (λ o. with_id o epoch) h))
  request_of-Carries (transfer_migration i body manifest) h = epoch-Carries _ (
      then-Carries id epoch (migration_id_of body)
        (λ migration_id. settled_then (required_string (member "source" body)) λ source. fulfilled (
          transfer i epoch
            (record { migration_id = migration_id; source = source; manifest = manifest })))
        (λ migration_id.
          then-Carries id epoch (required_string (member "source" body))
            (λ source. fulfilled (
              transfer i epoch
                (record { migration_id = migration_id; source = source; manifest = manifest })))
            (λ source. ap (λ o. with_id o epoch) h)))
  request_of-Carries (load_migration i manifest) h = epoch-Carries _ (ap (λ o. with_id o epoch) h)
  request_of-Carries (load_sandbox i manifest) h = epoch-Carries _ (ap (λ o. with_id o epoch) h)
  request_of-Carries (verify_migration i body) h = epoch-Carries _ (
      then-Carries id epoch (migration_id_of body)
        (λ migration_id. fulfilled (verify i epoch migration_id))
        (λ migration_id. ap (λ o. with_id o epoch) h))
  request_of-Carries (fence_and_cleanup i body) h = epoch-Carries _ (
      then-Carries id epoch (migration_id_of body)
        (λ migration_id. fulfilled (fence_cleanup i epoch migration_id))
        (λ migration_id. ap (λ o. with_id o epoch) h))
  request_of-Carries (pause_sandbox i) h = epoch-Carries _ (ap (λ o. with_id o epoch) h)
  request_of-Carries (resume_sandbox i) h = epoch-Carries _ (ap (λ o. with_id o epoch) h)
  request_of-Carries (fence_sandbox i) h = epoch-Carries _ (ap (λ o. with_id o epoch) h)
  request_of-Carries (snapshot_sandbox i migration_id) h =
      epoch-Carries _ (ap (λ o. with_id o epoch) h)
  request_of-Carries (quarantine_sandbox i migration_id) h =
      epoch-Carries _ (ap (λ o. with_id o epoch) h)
  request_of-Carries healthz h = absurd (cc)
  request_of-Carries (create_sandbox body) h = absurd (cc)
  request_of-Carries (get_sandbox i) h = absurd (cc)
  request_of-Carries (prepare_migration i migration_id body) h = absurd (cc)
  request_of-Carries (rollback_migration i repair) h = absurd (cc)
  request_of-Carries (pull_artifacts i manifest base) h = absurd (cc)
  request_of-Carries (read_artifact_range i kind range) h = absurd (cc)

abbrev Unchanged : WorkerCore → Option (Settled Request) → Type 0
Unchanged core (some (fulfilled q)) = (serve q core).1 ≡ core
Unchanged core (some (rejected t)) = Unit
Unchanged core none = ⊥

stale-Unchanged :
    (core : WorkerCore) (id : String) (epoch : ℕ) (made : Option (Settled Request))
    → IsStale core id epoch
    → Carries id epoch made
    → Unchanged core made
stale-Unchanged core id epoch none stale c = c
stale-Unchanged core id epoch (some (rejected t)) stale c = tt
stale-Unchanged core id epoch (some (fulfilled q)) stale c =
    stale_changes_nothing q id epoch core c stale

after_response : (r : Settled ℕ × WorkerCore) → (response_of r).1 ≡ r.1
after_response (fulfilled status, core) = refl
after_response (rejected t, core) = refl

after_status :
    (status : ℕ) (m : Exec WorkerCore (Unit {0})) (core : WorkerCore)
    → (with_status status m core).1 ≡ (m core).1
unfolding ◌>>=◌
after_status status m core = elim (Settled-cases (m core)) [
  | inl (a, after, e) ↦ rw (e, ◌>>=◌) refl
  | inr (t, after, e) ↦ rw (e, ◌>>=◌) refl
]

Unchanged-core :
    (core : WorkerCore) (status : ℕ) (route : Route) (made : Option (Settled Request))
    → Unchanged core made
    → (handle_made route status made core).1 ≡ core
unfolding lift
Unchanged-core core status route none u = absurd u
Unchanged-core core status route (some (rejected t)) u = after_status status _ core
Unchanged-core core status route (some (fulfilled q)) u = after_status status (serve q) core ∙ u

-- A request over HTTP whose route is fenced by its epoch header, and whose header holds an epoch
-- behind the one that the worker has accepted for the sandbox of the route, changes nothing in the
-- worker, with any token and whatever else its body holds.
pub stale_header :
    (auth_token : Option String) (request : HttpRequest) (core : WorkerCore) (id : String)
    (epoch : ℕ)
    → fenced_route request.route ≡ some id
    → request.epoch_header ≡ some (decimal epoch)
    → IsStale core id epoch
    → (respond auth_token request core).1 ≡ core
unfolding respond handle
stale_header auth_token request core id epoch named header stale =
    elim (Bool-cases (is_authorized auth_token request)) [
      | inr refused ↦ rw (refused, respond) refl
      | inl allowed ↦
          rw (allowed, respond)
            (after_response (handle request.route request.epoch_header core)
              ∙ subst (λ h. (handle request.route h core).1 ≡ core) (sym header)
                  (Unchanged-core core (success_status request.route) request.route
                    (request_of request.route (some (decimal epoch)))
                    (stale-Unchanged core id epoch _ stale
                      (request_of-Carries id epoch request.route named))))
    ]
