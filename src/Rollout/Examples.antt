-- ===== src/Rollout/Examples.antt =====
-- Runs of the planner on small fleets.
use staff_sre_platform_engin.Shared.{
  DateTime, naive, aware, key, top, ℕ, ◌*◌, pos, negsuc, String, true, Option, none, some, List, [],
  ◌∷◌, map, Result, ok, err, ◌≡◌, refl, if◌then◌else◌, str_eq, Json, int, str, bool, array, object,
  strip, is_semver, sort_by, text_lt,
}
use staff_sre_platform_engin.Rollout.Input.{
  InputError, no_timezone, start_out_of_range, not_earlier_rings, within_maintenance_window,
  hour_microseconds, parse_time,
}
use staff_sre_platform_engin.Rollout.Policy.{Policy, parse_policy, rings_path}
use staff_sre_platform_engin.Rollout.Decide.{
  ClusterDecision, Status, Reason, eligible, blocked, deferred, already_installed, outside_window,
}
use staff_sre_platform_engin.Rollout.Batches.{Batch}
use staff_sre_platform_engin.Rollout.Plan.{
  Plan, make_plan, clusters_of, decide_clusters, eligible_of, exit_code,
}
use staff_sre_platform_engin.Rollout.Complete.{IsSchedule}
use staff_sre_platform_engin.Rollout.Scheduled.{make_plan-IsSchedule}

-- 10:00 and 12:00 of one day, and a time with no timezone.
abbrev clock : String → Option DateTime
clock s =
    if str_eq s "2026-07-27T12:00:00+00:00"
    then some (aware (12 * hour_microseconds))
    else if str_eq s "2026-07-27T10:00:00+00:00"
    then some (aware (10 * hour_microseconds))
    else if str_eq s "2026-07-27T10:00:00"
    then some naive
    else none

abbrev noon : String
noon = "2026-07-27T12:00:00Z"

abbrev cluster : (id ring domain baseline : String) → (start : ℕ) → Json
cluster id ring domain baseline start = object (
    ("clusterId", str id)
    ∷ ("clusterClass", str "shared-standard")
    ∷ ("lifecycleState", str "Active")
    ∷ ("region", str "us-east-1")
    ∷ ("failureDomain", str domain)
    ∷ ("rolloutRing", str ring)
    ∷ ("kubernetesVersion", str "1.35.3")
    ∷ ("baselineVersion", str baseline)
    ∷ ("lastConformancePass", str "2026-07-27T10:00:00Z")
    ∷ (
      "maintenance",
      object (("startHourUtc", int (pos start)) ∷ ("durationHours", int (pos 4)) ∷ []),
    )
    ∷ [])

abbrev policy_with : Json → Json
policy_with predecessors = object (
    ("releaseId", str "r-32")
    ∷ ("candidateBaselineVersion", str "32.0.0")
    ∷ ("ringOrder", array (str "canary" ∷ str "production" ∷ []))
    ∷ ("supportedKubernetesMinors", array (str "1.35" ∷ []))
    ∷ ("supportedClusterClasses", array (str "shared-standard" ∷ []))
    ∷ ("eligibleLifecycleStates", array (str "Active" ∷ []))
    ∷ ("maximumBatchSize", int (pos 2))
    ∷ ("maximumClustersPerFailureDomainPerBatch", int (pos 1))
    ∷ ("maximumConformanceAgeHours", int (pos 24))
    ∷ ("requireMaintenanceWindow", bool true)
    ∷ ("requiredPredecessorRings", predecessors)
    ∷ [])

abbrev release : Json
release = policy_with (object (("production", array (str "canary" ∷ [])) ∷ []))

-- Two production clusters share a failure domain; one is installed already, and one is out of its window.
abbrev fleet : Json
fleet = array (
    cluster "p1" "production" "a" "31.0.0" 10
    ∷ cluster "p2" "production" "a" "31.0.0" 10
    ∷ cluster "c1" "canary" "a" "31.0.0" 22
    ∷ cluster "p3" "production" "b" "31.0.0" 11
    ∷ cluster "c2" "canary" "b" "32.0.0" 12
    ∷ cluster "c3" "canary" "b" "31.0.0" 9
    ∷ [])

abbrev batches_of : Result InputError Plan → List (String × ℕ × List String)
batches_of (err _) = []
batches_of (ok plan) =
    map (λ b. (b.ring, b.number, map (λ (d : ClusterDecision). d.cluster_id) b.members))
      plan.batches

planned :
    batches_of (make_plan clock fleet release noon)
    ≡ ("canary", 1, "c3" ∷ [])
      ∷ ("production", 1, "p1" ∷ "p3" ∷ [])
      ∷ ("production", 2, "p2" ∷ [])
      ∷ []
unfolding make_plan strip is_semver within_maintenance_window sort_by text_lt
planned = refl

exit_planned : exit_code (make_plan clock fleet release noon) ≡ 0
unfolding make_plan exit_code strip is_semver within_maintenance_window sort_by text_lt
exit_planned = refl

over_midnight : within_maintenance_window (2 * hour_microseconds) (pos 22) (pos 6) ≡ ok true
unfolding within_maintenance_window
over_midnight = refl

negative_start : within_maintenance_window 0 (negsuc 0) (pos 6) ≡ err start_out_of_range
unfolding within_maintenance_window
negative_start = refl

later_predecessor :
    parse_policy (policy_with (object (("canary", array (str "production" ∷ [])) ∷ [])))
    ≡ err (not_earlier_rings (key rings_path "canary"))
unfolding parse_policy strip is_semver
later_predecessor = refl

no_zone : make_plan clock fleet release "2026-07-27T10:00:00" ≡ err (no_timezone (top "--now"))
unfolding make_plan strip is_semver
no_zone = refl

abbrev release_policy : Policy
release_policy = record {
  release_id = "r-32";
  candidate_baseline_version = "32.0.0";
  ring_order = "canary" ∷ "production" ∷ [];
  supported_kubernetes_minors = "1.35" ∷ [];
  supported_cluster_classes = "shared-standard" ∷ [];
  eligible_lifecycle_states = "Active" ∷ [];
  maximum_batch_size = 2;
  maximum_per_failure_domain = 1;
  maximum_conformance_age_hours = 24;
  require_maintenance_window = true;
  required_predecessor_rings = ("production", "canary" ∷ []) ∷ [];
}

abbrev decided : (id ring domain : String) → Status → List Reason → ClusterDecision
decided id ring domain status reasons = record {
  cluster_id = id;
  ring = ring;
  failure_domain = domain;
  status = status;
  reasons = reasons;
}

abbrev fleet_decisions : List ClusterDecision
fleet_decisions =
    decided "p1" "production" "a" eligible []
    ∷ decided "p2" "production" "a" eligible []
    ∷ decided "c1" "canary" "a" deferred (outside_window ∷ [])
    ∷ decided "p3" "production" "b" eligible []
    ∷ decided "c2" "canary" "b" blocked (already_installed ∷ [])
    ∷ decided "c3" "canary" "b" eligible []
    ∷ []

make_plan-IsSchedule_example :
    (bs : List Batch) × (make_plan clock fleet release noon
      ≡ ok (record { policy = release_policy; decisions = fleet_decisions; batches = bs }))
    × IsSchedule ("canary" ∷ "production" ∷ []) 2 1 (eligible_of fleet_decisions) bs
unfolding clusters_of parse_policy decide_clusters parse_time strip is_semver
    within_maintenance_window
make_plan-IsSchedule_example = make_plan-IsSchedule clock fleet release noon refl refl refl refl
