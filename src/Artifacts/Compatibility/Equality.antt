-- ===== src/Artifacts/Compatibility/Equality.antt =====
-- `compatibilityProblems` of packages/agent/src/artifacts/manifest.ts, against equality of fields.
use firemig.Prelude.{
  ◌≡◌, refl, subst, ◌↔◌, Bool, List, [], ◌∷◌, All, arith, ◌===◌, eq_iff, Bool-cases, inl, inr,
}
use firemig.Common.Types.{CompatibilityManifest, HugePages}
use firemig.Artifacts.Compatibility.{
  HostCompatibility, Check, checks, failed_checks, compatibility_problems, smt_text,
  huge_pages_text,
}

-- The fingerprint of a host, as a snapshot records it.
abbrev pub fingerprint : CompatibilityManifest → HostCompatibility
fingerprint m = record {
  firecracker_version = m.firecracker_version;
  firecracker_digest = m.firecracker_digest;
  snapshot_format_version = m.snapshot_format_version;
  host_kernel_version = m.host_kernel_version;
  architecture = m.cpu.architecture;
  cpu_vendor = m.cpu.vendor;
  cpu_model = m.cpu.model;
  cpu_family = m.cpu.family;
  cpu_stepping = m.cpu.stepping;
  guest_kernel_digest = m.guest_kernel_digest;
  cpu_template = m.cpu_template;
  smt = m.smt;
  huge_pages = m.huge_pages;
}

smt_text-injective : (a b : Bool) → smt_text a ≡ smt_text b → a ≡ b
smt_text-injective a b h = ground (arith, eq_iff "true" "false", eq_iff "false" "true", h)

huge_pages_text-injective : (a b : HugePages) → huge_pages_text a ≡ huge_pages_text b → a ≡ b
huge_pages_text-injective a b h = ground (arith, eq_iff "None" "2M", eq_iff "2M" "None", h)

abbrev Passes : Check → Type 0
Passes c = c.source ≡ c.destination

failed_checks_none : (cs : List Check) → failed_checks cs ≡ [] → All Passes cs
unfolding failed_checks
failed_checks_none [] h = tt
failed_checks_none (c ∷ rest) h = elim (Bool-cases (c.source === c.destination)) [
  | inl same ↦
      (ground (arith, same, eq_iff c.source c.destination), failed_checks_none rest (rw same at h))
  | inr other ↦ ground (arith, rw other at h)
]

failed_checks_empty : (cs : List Check) → All Passes cs → failed_checks cs ≡ []
unfolding failed_checks
failed_checks_empty [] h = refl
failed_checks_empty (c ∷ rest) (p, ps) =
    ground (arith, eq_iff c.source c.destination, failed_checks_empty rest ps, p)

-- A manifest and a host have no compatibility problem exactly when the fingerprint that the manifest
-- records is the host's, field by field.
pub no_problems_iff :
    (manifest : CompatibilityManifest) (host : HostCompatibility)
    → (compatibility_problems manifest host ≡ []) ↔ (fingerprint manifest ≡ host)
unfolding compatibility_problems checks
no_problems_iff manifest host = (
  λ h. same (failed_checks_none (checks manifest host) h),
  λ e. failed_checks_empty (checks manifest host) (
      subst (λ h. All Passes (checks manifest h)) e
        (
          refl,
          (
            refl,
            (
              refl,
              (refl, (refl, (refl, (refl, (refl, (refl, (refl, (refl, (refl, (refl, tt)))))))))),
            ),
          ),
        )),
)
  where
    same : All Passes (checks manifest host) → fingerprint manifest ≡ host
    same (a, (b, (c, (d, (e, (f, (g, (h, (i, (j, (k, (l, (m, _))))))))))))) =
        cc (
          a,
          b,
          c,
          d,
          e,
          f,
          g,
          h,
          i,
          j,
          k,
          smt_text-injective _ _ l,
          huge_pages_text-injective _ _ m,
        )
