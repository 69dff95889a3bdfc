-- ===== src/Worker/Lifecycle/QuarantineOutcome.antt =====
-- `quarantineSandbox` of packages/agent/src/worker/lifecycle/worker-lifecycle.ts, where it succeeds.
use firemig.Prelude.{ℕ, ◌≡◌, ◌≤◌, arith, subst, String, none, some, []}
use firemig.Common.Types.{FilePath}
use firemig.Exec.{fulfilled, Exec, pure, lift, ◌>>=◌, ◌>>◌}
use firemig.Exec.Keeps.{Keeps, keeps_rules}
use firemig.Exec.Returns.{Returns, Returns-bind, Returns-refuse, Returns-lift, Returns-pure}
use firemig.Platform.Host.{mkdir, rename}
use firemig.Platform.Paths.{dirname}
use firemig.Network.Allocator.{release_network, release_ports}
use firemig.Worker.Types.{SandboxRecord, WorkerCore}
use firemig.Worker.Core.{on_allocator, call, record_of, write_record, run_cleanup_plans}
use firemig.Worker.Core.Frame.{
  On, on_host-On, on_allocator-On, stop_relays-On, stop_processes-On, run_cleanup_plans-On,
}
use firemig.Worker.Lifecycle.{quarantine_live, quarantine_sandbox, quarantined_at, or_else_do}
use firemig.Worker.Lifecycle.Teardown.{
  kept, quarantined_record, Gone, on_host-Gone, on_allocator-Gone, write_record-Gone,
  run_cleanup_plans-Gone, stop_relays_lem, stop_processes_lem, Holds, on_epochs-Holds,
  write_record_lem,
}

module _ (id : String) where
  -- The part behind the relays.
  abbrev put_away : SandboxRecord → ℕ → String → Exec WorkerCore FilePath
  put_away r epoch migration_id = do
    run_cleanup_plans r.netns r.host_veth
    destination ← lift (r.paths.quarantine migration_id)
    call (mkdir (dirname destination))
    call (rename r.paths.physical_directory destination)
    write_record id (quarantined_record epoch destination)
    on_allocator (release_network id r.network_keys)
    on_allocator (release_ports id)
    pure destination

  put_away-Gone :
      (r : SandboxRecord) (epoch : ℕ) (migration_id : String)
      → Keeps (Gone id) (put_away r epoch migration_id)
  put_away-Gone r epoch migration_id =
      search
        (keeps_rules, run_cleanup_plans-Gone, on_host-Gone, write_record-Gone, on_allocator-Gone)
        depth 24

  put_away_lem :
      (r : SandboxRecord) (epoch : ℕ) (migration_id : String) (s t : WorkerCore) (path : FilePath)
      → Returns (put_away r epoch migration_id) s path t
      → On (Holds id r) s
      → (r.paths.quarantine migration_id ≡ fulfilled path)
        × On (Holds id (quarantined_record epoch path r)) t
  put_away_lem r epoch migration_id s t path h held =
      let (a1, s1, cleaned, h1) = Returns-bind _ _ s t path h in
      let held1 =
        kept (On (Holds id r)) _ s s1 a1 (run_cleanup_plans-On (Holds id r) _ _) cleaned held in
      let (found, s2, lifted, h2) = Returns-bind _ _ s1 t path h1 in
      let (is_found, same2) = Returns-lift _ s1 s2 found lifted in
      let held2 : On (Holds id r) s2 = rw same2 held1 in
      let (a3, s3, made, h3) = Returns-bind _ _ s2 t path h2 in
      let held3 = kept (On (Holds id r)) _ s2 s3 a3 (on_host-On (Holds id r) _) made held2 in
      let (a4, s4, moved, h4) = Returns-bind _ _ s3 t path h3 in
      let held4 = kept (On (Holds id r)) _ s3 s4 a4 (on_host-On (Holds id r) _) moved held3 in
      let (a5, s5, wrote, h5) = Returns-bind _ _ s4 t path h4 in
      let r5 = quarantined_record epoch found r in
      let held5 = write_record_lem id (quarantined_record epoch found) r s4 s5 a5 wrote held4 in
      let (a6, s6, released, h6) = Returns-bind _ _ s5 t path h5 in
      let held6 =
        kept (On (Holds id r5)) _ s5 s6 a6 (on_allocator-On (Holds id r5) _) released held5 in
      let (a7, s7, freed, h7) = Returns-bind _ _ s6 t path h6 in
      let held7 =
        kept (On (Holds id r5)) _ s6 s7 a7 (on_allocator-On (Holds id r5) _) freed held6 in
      let (told, same) = Returns-pure _ s7 t path h7 in rw (told, same) (is_found, held7)

record_of_lem :
    (id : String) (r found : SandboxRecord) (s t : WorkerCore)
    → s.sandboxes id ≡ some r
    → Returns (record_of id) s found t
    → (found ≡ r) × (t ≡ s)
unfolding record_of
record_of_lem id r found s t present h =
    let q : Returns (λ (w : WorkerCore). (fulfilled r, s)) s found t = rw present at h in (cc, cc)

-- What a quarantine leaves, if it succeeds.
abbrev pub Quarantines : String → ℕ → SandboxRecord → FilePath → WorkerCore → Type 0
Quarantines id epoch r path t =
    (t.processes id ≡ none)
    × (t.relays id ≡ [])
    × (t.sandboxes id ≡ some (quarantined_record epoch path r))
    × (r.info.epoch ≤ epoch)

quarantine_live_lem :
    (id : String) (epoch : ℕ) (migration_id : String) (r : SandboxRecord) (s t : WorkerCore)
    (path : FilePath)
    → s.sandboxes id ≡ some r
    → Returns (quarantine_live r id epoch migration_id) s path t
    → (r.paths.quarantine migration_id ≡ fulfilled path) × Quarantines id epoch r path t
unfolding quarantine_live
quarantine_live_lem id epoch migration_id r s t path present h =
    let held : On (Holds id r) s = record { holds = present } in
    let (a1, s1, accepted, h1) = Returns-bind _ _ s t path h in
    let held1 = kept (On (Holds id r)) _ s s1 a1 (on_epochs-Holds id r _) accepted held in
    let (ahead, h2) = Returns-refuse _ _ _ s1 t path h1 in
    let (a3, s3, stopped, h3) = Returns-bind _ _ s1 t path h2 in
    let held3 =
      kept (On (Holds id r)) _ s1 s3 a3 (stop_processes-On (Holds id r) id) stopped held1 in
    let (a4, s4, closed, h4) = Returns-bind _ _ s3 t path h3 in
    let held4 = kept (On (Holds id r)) _ s3 s4 a4 (stop_relays-On (Holds id r) id) closed held3 in
    let gone = stop_relays_lem id s3 s4 a4 (stop_processes_lem id s1 s3 a3 stopped) closed in
    let (processes, relays) =
      kept (Gone id) (put_away id r epoch migration_id) s4 t path
        (put_away-Gone id r epoch migration_id) h4 gone in
    let (where_to, there) = put_away_lem id r epoch migration_id s4 t path h4 held4 in
    (where_to, (processes, relays, there.holds, ground (arith, ahead)))

-- A quarantine that succeeds leaves no process and no relay of the sandbox, and its record in the
-- state Quarantined, at the epoch of the request and with the directory that it was moved to, which
-- is the one of the migration. Its epoch is not behind the one of the record. That is for a sandbox
-- that is there and not in quarantine yet.
pub quarantine_sandbox-Quarantines :
    (id : String) (epoch : ℕ) (migration_id : String) (r : SandboxRecord) (s t : WorkerCore)
    (path : FilePath)
    → s.sandboxes id ≡ some r
    → quarantined_at r ≡ none
    → Returns (quarantine_sandbox id epoch migration_id) s path t
    → (r.paths.quarantine migration_id ≡ fulfilled path) × Quarantines id epoch r path t
unfolding quarantine_sandbox
quarantine_sandbox-Quarantines id epoch migration_id r s t path present live h =
    let (r0, s0, found, h0) = Returns-bind _ _ s t path h in
    let (same, still) = record_of_lem id r r0 s s0 present found in
    let h1 : Returns (or_else_do (quarantined_at r) (quarantine_live r id epoch migration_id)) s
        path t =
      subst
        (λ x.
          Returns (or_else_do (quarantined_at x) (quarantine_live x id epoch migration_id)) s path
            t)
        same
        (subst
          (λ y.
            Returns (or_else_do (quarantined_at r0) (quarantine_live r0 id epoch migration_id)) y
              path t)
          still h0) in
    quarantine_live_lem id epoch migration_id r s t path present (rw live at h1)
