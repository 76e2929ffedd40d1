-- ===== src/Rollout/Decide.antt =====
-- plan_rollout.py: `decide_cluster`.
use staff_sre_platform_engin.Shared.{
  DateTime, top, Place, key, index, ℕ, ◌-◌, ◌*◌, ltb, ℤ, String, Bool, not, ◌&&◌, Option, none,
  some, List, [], ◌∷◌, ◌++◌, if◌then◌else◌, Result, ok, err, ◌>>=◌, ◌>>◌, raise_if, Json, int, get,
  contains, str_eq, is_semver, version_minor,
}
use staff_sre_platform_engin.Rollout.Input.{
  InputError, unknown_ring, not_semver, not_a_version, in_future, not_an_integer, parse_time,
  require_object, require_string, hour_microseconds, within_maintenance_window,
}
use staff_sre_platform_engin.Rollout.Policy.{Policy}

pub data Status : Type 0 where
  eligible deferred blocked : Status

pub data Reason : Type 0 where
  unsupported_class ineligible_lifecycle unsupported_minor : String → Reason
  stale_conformance : (microseconds maximum_hours : ℕ) → Reason
  already_installed outside_window : Reason

pub record ClusterDecision : Type 0 where
  pub cluster_id : String
  pub ring : String
  pub failure_domain : String
  pub status : Status
  pub reasons : List Reason

-- What `decide_cluster` reads from a cluster before it decides.
pub record Cluster : Type 0 where
  pub cluster_id : String
  pub cluster_class : String
  pub lifecycle : String
  pub failure_domain : String
  pub ring : String
  pub kubernetes_minor : String
  pub baseline : String
  pub age : ℕ
  pub in_window : Bool

unfoldable pub require_int : Json → Place → Result InputError ℤ
require_int (int n) path = ok n
require_int _ path = err (not_an_integer path)

unfoldable pub require_minor : String → Place → Result InputError String
require_minor version path = elim (version_minor version) [
  | none ↦ err (not_a_version path)
  | some minor ↦ ok minor
]

unfoldable pub read_cluster :
    (String → Option DateTime) → Json → ℕ → Policy → ℕ → Result InputError Cluster
unfolding require_object require_string require_int require_minor parse_time
read_cluster from_iso raw_cluster i policy now = do
  let path = index (top "clusters") i
  cluster ← require_object raw_cluster path
  cluster_id ← require_string cluster "clusterId" path
  cluster_class ← require_string cluster "clusterClass" path
  lifecycle ← require_string cluster "lifecycleState" path
  region ← require_string cluster "region" path
  failure_domain ← require_string cluster "failureDomain" path
  ring ← require_string cluster "rolloutRing" path
  kubernetes_version ← require_string cluster "kubernetesVersion" path
  baseline ← require_string cluster "baselineVersion" path
  conformance_raw ← require_string cluster "lastConformancePass" path
  maintenance ← require_object (get cluster "maintenance") (key path "maintenance")
  raise_if (not (contains policy.ring_order ring)) (unknown_ring (key path "rolloutRing"))
  raise_if (not (is_semver baseline)) (not_semver (key path "baselineVersion"))
  minor ← require_minor kubernetes_version (key path "kubernetesVersion")
  conformance ← parse_time from_iso conformance_raw (key path "lastConformancePass")
  raise_if (ltb now conformance) (in_future (key path "lastConformancePass"))
  start_hour ←
      require_int (get maintenance "startHourUtc") (key (key path "maintenance") "startHourUtc")
  duration ←
      require_int (get maintenance "durationHours") (key (key path "maintenance") "durationHours")
  in_window ← within_maintenance_window now start_hour duration
  ok (record {
    cluster_id = cluster_id;
    cluster_class = cluster_class;
    lifecycle = lifecycle;
    failure_domain = failure_domain;
    ring = ring;
    kubernetes_minor = minor;
    baseline = baseline;
    age = now - conformance;
    in_window = in_window;
  })

abbrev pub reasons_where : List (Bool × Reason) → List Reason
reasons_where [] = []
reasons_where ((holds, reason) ∷ rest) =
    let others = reasons_where rest in if holds then reason ∷ others else others

unfoldable pub blockers : Policy → Cluster → List Reason
blockers p c = reasons_where (
    (not (contains p.supported_cluster_classes c.cluster_class), unsupported_class c.cluster_class)
    ∷ (not (contains p.eligible_lifecycle_states c.lifecycle), ineligible_lifecycle c.lifecycle)
    ∷ (
      not (contains p.supported_kubernetes_minors c.kubernetes_minor),
      unsupported_minor c.kubernetes_minor,
    )
    ∷ (
      ltb (p.maximum_conformance_age_hours * hour_microseconds) c.age,
      stale_conformance c.age p.maximum_conformance_age_hours,
    )
    ∷ (str_eq c.baseline p.candidate_baseline_version, already_installed)
    ∷ [])

unfoldable pub deferrals : Policy → Cluster → List Reason
deferrals p c =
    reasons_where ((p.require_maintenance_window && not c.in_window, outside_window) ∷ [])

abbrev pub status_of : (blockers deferrals : List Reason) → Status
status_of (_ ∷ _) _ = blocked
status_of [] (_ ∷ _) = deferred
status_of [] [] = eligible

unfoldable pub decide : Policy → Cluster → ClusterDecision
unfolding blockers deferrals
decide p c = record {
  cluster_id = c.cluster_id;
  ring = c.ring;
  failure_domain = c.failure_domain;
  status = status_of (blockers p c) (deferrals p c);
  reasons = blockers p c ++ deferrals p c;
}

unfoldable pub decide_cluster :
    (String → Option DateTime) → Json → ℕ → Policy → ℕ → Result InputError ClusterDecision
unfolding read_cluster decide
decide_cluster from_iso raw_cluster i policy now = do
  cluster ← read_cluster from_iso raw_cluster i policy now
  ok (decide policy cluster)
