-- ===== src/Rollout/Scheduled.antt =====
-- The planner as a whole, and when a cluster is eligible.
use staff_sre_platform_engin.Shared.{
  DateTime, top, ℕ, ◌+◌, ◌%◌, ◌*◌, ◌≤◌, ◌<◌, ltb, String, true, false, Option, List, All,
  filter-eq_of_All, All-filter, ◌-◌, ok, ◌≡◌, ◌↔◌, arith, subst, refl, Json, contains, str_eq,
  Ensures-at, not, ◌&&◌,
}
use staff_sre_platform_engin.Rollout.Input.{parse_time, hour_microseconds, in_hours}
use staff_sre_platform_engin.Rollout.Policy.{Policy, parse_policy}
use staff_sre_platform_engin.Rollout.Decide.{Cluster, ClusterDecision, eligible, decide}
use staff_sre_platform_engin.Rollout.Batches.{Batch}
use staff_sre_platform_engin.Rollout.Plan.{
  make_plan, clusters_of, decide_clusters, eligible_of, is_eligible,
}
use staff_sre_platform_engin.Rollout.Complete.{IsSchedule, create_batches-IsSchedule}
use staff_sre_platform_engin.Rollout.Inputs.{
  IsPolicy, parse_policy-IsPolicy, KnownRing, decide_clusters-known,
}

-- Once the clusters, the policy and the time are read and every cluster is decided, with no two of one
-- name, planning does not fail. The batches keep the batch size and the limit for each failure
-- domain, none is empty, each has clusters of one ring only, together they are a permutation of the
-- eligible clusters, and they stand in the order of the rings and, in a ring, of their numbers.
pub make_plan-IsSchedule :
    (from_iso : String → Option DateTime) (raw_clusters raw_policy : Json) (now_text : String)
    → {raw : List Json} {policy : Policy} {now : ℕ} {decisions : List ClusterDecision}
    → clusters_of raw_clusters ≡ ok raw
    → parse_policy raw_policy ≡ ok policy
    → parse_time from_iso now_text (top "--now") ≡ ok now
    → decide_clusters from_iso policy now raw ≡ ok decisions
    → (bs : List Batch) × (make_plan from_iso raw_clusters raw_policy now_text
        ≡ ok (record { policy = policy; decisions = decisions; batches = bs }))
      × IsSchedule policy.ring_order policy.maximum_batch_size policy.maximum_per_failure_domain
          (eligible_of decisions)
          bs
unfolding make_plan
make_plan-IsSchedule from_iso raw_clusters raw_policy now_text {raw} {policy} {now} {decisions} h p
      t d =
    let known =
      Ensures-at (All (KnownRing from_iso policy now)) _
        (decide_clusters-known from_iso policy now raw) d in
    let valid = Ensures-at IsPolicy _ (parse_policy-IsPolicy raw_policy) p in
    let (bs, returned, s) =
      create_batches-IsSchedule policy.maximum_batch_size policy.maximum_per_failure_domain
        policy.ring_order (eligible_of decisions) valid.some_size valid.some_per_domain
        valid.distinct in
    (
      bs,
      rw (h, p, t, d, returned) refl,
      subst
          (λ l.
            IsSchedule policy.ring_order policy.maximum_batch_size policy.maximum_per_failure_domain
              l bs)
          (filter-eq_of_All _ (eligible_of decisions) (All-filter _ is_eligible decisions known)) s,
    )

-- A cluster is eligible exactly where it meets every condition of the policy.
decide-eligible_iff :
    (p : Policy) (c : Cluster)
    → ((decide p c).status ≡ eligible) ↔ (
        (contains p.supported_cluster_classes c.cluster_class ≡ true)
        × (contains p.eligible_lifecycle_states c.lifecycle ≡ true)
        × (contains p.supported_kubernetes_minors c.kubernetes_minor ≡ true)
        × (c.age ≤ p.maximum_conformance_age_hours * hour_microseconds)
        × (str_eq c.baseline p.candidate_baseline_version ≡ false)
        × ((p.require_maintenance_window && not c.in_window) ≡ false))
unfolding decide
decide-eligible_iff p c = (λ h. ground (arith, h), λ h. ground (arith, h))

-- The window is that of the hours of the day: the current hour is less than `duration` hours after the start.
in_hours_iff :
    (current start duration : ℕ)
    → current < 24
    → start < 24
    → 0 < duration
    → duration ≤ 24
    → in_hours current start duration ≡ ltb ((current + 24 - start) % 24) duration
in_hours_iff current start duration a b c d = ground arith
