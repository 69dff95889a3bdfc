-- ===== src/Worker/Core/Resumes.antt =====
-- How often a resume was sent to Firecracker, and what sends none.
use firemig.Prelude.{
  ℕ, suc, ◌≡◌, refl, String, Bool, true, false, [], ◌∷◌, Option, if◌then◌else◌, arith,
}
use firemig.Common.Phases.{SandboxState}
use firemig.Exec.{Exec, within, modify}
use firemig.Exec.Keeps.{Keeps, keeps_rules}
use firemig.Platform.Host.{Host, Effect, Trace, ApiCall, api, vm_resumed, perform, call_firecracker}
use firemig.Platform.Epochs
use firemig.Platform.Epochs.{EpochStore, persist, restore, advance, accept}
use firemig.Worker.Types.{SandboxRecord, WorkerCore}
use firemig.Worker.Core.{
  on_host, on_epochs, record_of, write_record, stop_relays, run_plans, down_host_veth,
  fence_quietly, admit, mutable_record,
}

abbrev pub is_resume_call : ApiCall → Bool
is_resume_call vm_resumed = true
is_resume_call _ = false

abbrev pub is_resume : Effect → Bool
is_resume (api socket call) = is_resume_call call
is_resume _ = false

-- The resumes in a trace.
abbrev pub resumes : Trace → ℕ
resumes [] = 0
resumes (e ∷ rest) = if is_resume e then suc (resumes rest) else resumes rest

module _ (n : ℕ) where
  pub record HostIssued (h : Host) : Type 0 where
    pub count : resumes h.trace ≡ n

  pub record StoreIssued (s : EpochStore) : Type 0 where
    pub count : resumes s.host.trace ≡ n

  -- `n` resumes were sent so far.
  pub record Issued (core : WorkerCore) : Type 0 where
    pub count : resumes core.host.trace ≡ n

  perform-quiet : (e : Effect) → is_resume e ≡ false → Keeps HostIssued (perform e)
  unfolding perform
  perform-quiet e quiet = record { at = λ h k. record { count = rw quiet k.count } }

  quiet_api :
      (socket : _) (call : ApiCall)
      → is_resume_call call ≡ false
      → Keeps HostIssued (call_firecracker socket call)
  unfolding call_firecracker
  quiet_api socket call quiet = search (keeps_rules, perform-quiet) depth 12

  store_lift :
      {A : Type 0} (m : Exec Host A) → Keeps HostIssued m → Keeps StoreIssued (Epochs.on_host m)
  unfolding Epochs.on_host within
  store_lift m k = record {
    at = λ s h. record { count = (k.at s.host (record { count = h.count })).count };
  }

  store_modify :
      (f : EpochStore → EpochStore)
      → ((s : EpochStore) → (f s).host ≡ s.host)
      → Keeps StoreIssued (modify f)
  unfolding modify
  store_modify f same = record { at = λ s h. record { count = rw (same s) h.count } }

  core_lift : {A : Type 0} (m : Exec Host A) → Keeps HostIssued m → Keeps Issued (on_host m)
  unfolding on_host within
  core_lift m k = record {
    at = λ s h. record { count = (k.at s.host (record { count = h.count })).count };
  }

  core_epochs :
      {A : Type 0} (m : Exec EpochStore A) → Keeps StoreIssued m → Keeps Issued (on_epochs m)
  unfolding on_epochs within
  core_epochs m k = record {
    at = λ s h. record { count = (k.at _ (record { count = h.count })).count };
  }

  core_modify :
      (f : WorkerCore → WorkerCore)
      → ((s : WorkerCore) → (f s).host ≡ s.host)
      → Keeps Issued (modify f)
  unfolding modify
  core_modify f same = record { at = λ s h. record { count = rw (same s) h.count } }

  ruleset quiet_rules = (
    keeps_rules, perform-quiet, quiet_api, store_lift, store_modify, core_lift, core_epochs,
    core_modify,
  )

  restore_quiet : (id : String) (previous : ℕ) → Keeps StoreIssued (modify (restore id previous))
  restore_quiet id previous = store_modify _ λ s. ground arith

  accept_quiet : (id : String) (requested : ℕ) → Keeps StoreIssued (accept id requested)
  unfolding accept advance persist
  accept_quiet id requested = search (quiet_rules, restore_quiet) depth 40

  write_quiet : (id : String) (f : SandboxRecord → SandboxRecord) → Keeps Issued (write_record id f)
  unfolding write_record
  write_quiet id f = core_modify _ λ s. refl

  stop_quiet : (id : String) → Keeps Issued (stop_relays id)
  unfolding stop_relays
  stop_quiet id = search quiet_rules depth 30

  down_quiet : (r : SandboxRecord) → Keeps Issued (down_host_veth r)
  unfolding down_host_veth run_plans
  down_quiet r = search quiet_rules depth 30

  fence_quiet :
      (r : SandboxRecord) (id : String) (epoch : ℕ) → Keeps Issued (fence_quietly r id epoch)
  unfolding fence_quietly
  fence_quiet r id epoch = search (quiet_rules, write_quiet, stop_quiet, down_quiet) depth 30

  record_of_quiet : (id : String) → Keeps Issued (record_of id)
  unfolding record_of
  record_of_quiet id = record { at = λ s h. h }

  -- The tests before an operation send no resume.
  pub mutable_record-Issued :
      (id : String) (epoch : ℕ) (expected : Option SandboxState)
      → Keeps Issued (mutable_record id epoch expected)
  unfolding mutable_record admit
  mutable_record-Issued id epoch expected =
      search (quiet_rules, accept_quiet, fence_quiet, record_of_quiet) depth 40
