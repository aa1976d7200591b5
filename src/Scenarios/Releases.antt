-- ===== src/Scenarios/Releases.antt =====
-- internal/release/release.go: two releases of one agent type.
use gh_agent_broker.Prelude.{
  String, ◌==◌, ◌≡◌, ◌≢◌, ◌↔◌, ℕ, refl, arith, true, List, [], ◌∷◌, ◌++◌, Option, Bool, false, some,
  ok, healthy, eq_iff,
}
use gh_agent_broker.Release.Registry.{
  State, verified, active, Provenance, Release, Registry, empty_registry, by_generation, by_active,
  resolve,
}
use gh_agent_broker.Release.Operations.{Patterns}
use gh_agent_broker.Release.Activation.{promote, rollback}
use gh_agent_broker.Release.Outcomes.{IsRow}
use gh_agent_broker.Release.Reconcile.{reconcile}
unfoldable use gh_agent_broker.Release.Reconcile.{
  reconcile, reconcile_each, reconcile_one, report_each, active_releases, active_rows,
  insert_by_type, is_reported,
}
use gh_agent_broker.Release.Reconciled.{resolve-reconcile}
use gh_agent_broker.Release.Trace.{Call, publishing, verifying, marking, promoting, run, IsOrderly}
use gh_agent_broker.Release.Orderly.{run-IsOrderly}
use gh_agent_broker.Release.Resolution.{
  IsLaunchable, resolve-run, IsPromotable, promote_iff, rollback_forward,
}
unfoldable use gh_agent_broker.Prelude.{lookup, contains}
unfoldable use gh_agent_broker.Release.Registry.{
  parse_time, scan, by_generation, by_active, by_digest, update_release, found_release,
  active_release, load, resolve, record_audit,
}
unfoldable use gh_agent_broker.Release.Operations.{
  digest_of, published, publish_checked, publish_candidate, present, check_fields,
  check_requirements, verify_checked, verify, mark_checked, mark_available,
}
unfoldable use gh_agent_broker.Release.Activation.{supersede, promote_checked, promote}
unfoldable use gh_agent_broker.Release.Trace.{step, run}

abbrev patterns : Patterns
patterns = record {
  agent_type = λ t. t == "worker";
  digest_pinned = λ r. true;
  digest_only = λ d. true;
  after_at = λ r. some r;
}

abbrev origin : Provenance
origin = record {
  source_revision = "4f1c";
  dependency_manifest_sha256 = "";
  platform = "linux/amd64";
  published_by = "ci";
  published_at = "";
}

-- Two releases, verified and available, the first one promoted.
abbrev calls : List Call
calls =
    publishing healthy 1 "worker" "sha256:aa" origin "ci"
    ∷ verifying healthy 2 1 (record { provenance_fields = "platform" ∷ []; platforms = [] })
        "checker"
    ∷ marking healthy 3 1 true "puller"
    ∷ promoting healthy 4 1 "operator"
    ∷ publishing healthy 5 "worker" "sha256:bb" origin "ci"
    ∷ verifying healthy 6 2 (record { provenance_fields = []; platforms = "linux/amd64" ∷ [] })
        "checker"
    ∷ marking healthy 7 2 true "puller"
    ∷ []

abbrev registry : Registry
registry = run patterns empty_registry calls

run-IsOrderly_example : IsOrderly registry
run-IsOrderly_example = run-IsOrderly patterns calls

abbrev row : ℕ → String → State → ℕ → ℕ → Release
row g digest s made changed = record {
  generation = g;
  agent_type = "worker";
  image_reference = digest;
  image_digest = digest;
  provenance = origin;
  state = s;
  available = true;
  created_at = made;
  updated_at = changed;
}

abbrev first : Release
first = row 1 "sha256:aa" active 1 4

abbrev second : Release
second = row 2 "sha256:bb" verified 5 7

resolved : resolve registry healthy "worker" ≡ ok first
unfolding run step digest_of published publish_checked publish_candidate present check_fields
    check_requirements verify_checked verify mark_checked mark_available supersede promote_checked
    promote parse_time scan by_generation by_active by_digest update_release found_release
    active_release load resolve record_audit lookup contains
resolved = refl

resolve-run_example : IsLaunchable registry "worker" first
resolve-run_example = resolve-run patterns calls healthy "worker" first resolved

abbrev actor : String
actor = "operator"

promote_iff_example :
    ((promote registry healthy 8 2 "operator").0 ≡ ok tt)
    ↔ ((actor ≢ "") × ((r : Release) × IsPromotable registry 2 r))
promote_iff_example = promote_iff registry 8 2 "operator"

second_found : IsRow registry 2 second
unfolding run step digest_of published publish_checked publish_candidate present check_fields
    check_requirements verify_checked verify mark_checked mark_available supersede promote_checked
    promote parse_time scan by_generation by_active by_digest update_release found_release
    active_release load resolve record_audit lookup contains
second_found = refl

first_held : by_active "worker" registry.releases ≡ some first
unfolding run step digest_of published publish_checked publish_candidate present check_fields
    check_requirements verify_checked verify mark_checked mark_available supersede promote_checked
    promote parse_time scan by_generation by_active by_digest update_release found_release
    active_release load resolve record_audit lookup contains
first_held = refl

named : actor ≢ ""
named = ground (arith, eq_iff actor "")

rollback_forward_example :
    ((rollback registry healthy 8 "worker" 2 "operator").0 ≡ ok tt)
    × IsRow (rollback registry healthy 8 "worker" 2 "operator").1 2 (row 2 "sha256:bb" active 5 8)
rollback_forward_example =
    rollback_forward registry 8 "worker" 2 "operator" second first run-IsOrderly_example named
      second_found refl refl refl first_held (omega arith)

-- The image of the active release was lost, and is there again at the next start.
abbrev lost_calls : List Call
lost_calls = calls ++ marking healthy 9 1 false "puller" ∷ []

abbrev lost : Registry
lost = run patterns empty_registry lost_calls

abbrev check : String → String → Option Bool
check reference digest = some (digest == "sha256:aa")

reconciled : (reconcile check lost healthy (λ g. healthy) 20 "broker").0 ≡ ok []
unfolding run step digest_of published publish_checked publish_candidate present check_fields
    check_requirements verify_checked verify mark_checked mark_available supersede promote_checked
    promote parse_time scan by_generation by_active by_digest update_release found_release
    active_release load resolve record_audit lookup contains reconcile reconcile_each reconcile_one
    report_each active_releases active_rows insert_by_type is_reported
reconciled = refl

resolved_again :
    resolve (reconcile check lost healthy (λ g. healthy) 20 "broker").1 healthy "worker"
    ≡ ok (record first { updated_at = 20 })
unfolding run step digest_of published publish_checked publish_candidate present check_fields
    check_requirements verify_checked verify mark_checked mark_available supersede promote_checked
    promote parse_time scan by_generation by_active by_digest update_release found_release
    active_release load resolve record_audit lookup contains reconcile reconcile_each reconcile_one
    report_each active_releases active_rows insert_by_type is_reported
resolved_again = refl

resolve-reconcile_example : check "sha256:aa" "sha256:aa" ≡ some true
resolve-reconcile_example =
    resolve-reconcile check lost healthy healthy (λ g. healthy) 20 "broker" [] "worker"
      (record first { updated_at = 20 }) (run-IsOrderly patterns lost_calls) reconciled
      resolved_again
