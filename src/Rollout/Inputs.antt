-- ===== src/Rollout/Inputs.antt =====
-- What the readers of the input guarantee: positive limits, distinct rings, and clusters of those rings.
use staff_sre_platform_engin.Shared.{
  DateTime, Place, top, key, index, ltb, refl, ℕ, ◌<◌, suc, String, Bool, true, false, not, Option,
  List, [], ◌∷◌, ok, Json, get, contains, all_distinct, Ensures, Ensures-at, Ensures-bind,
  is_semver, get_or, obj, Fields, All, ◌≡◌, arith, raise_if, Object,
}
use staff_sre_platform_engin.Rollout.Input.{
  InputError, require_object, require_string, require_bool, not_semver, not_unique, unknown_ring,
  in_future, parse_time, within_maintenance_window, require_positive_int, require_string_list,
  string_list,
}
use staff_sre_platform_engin.Rollout.Policy.{Policy, parse_policy, parse_predecessors, rings_path}
use staff_sre_platform_engin.Rollout.Decide.{
  Cluster, ClusterDecision, require_int, require_minor, read_cluster, decide_cluster,
}
use staff_sre_platform_engin.Rollout.Plan.{decide_all, decide_clusters, cluster_ids}

not_raised-false :
    (test : Bool) (e : InputError) {u : _} → raise_if (not test) e ≡ ok u → test ≡ true
not_raised-false true e h = refl
not_raised-false false e h = absurd (cc h)

require_positive_int-pos :
    (parent : Object) (name : String) (path : Place)
    → Ensures (λ n. 0 < n) (require_positive_int parent name path)
unfolding require_positive_int
require_positive_int-pos parent name path = ground arith

string_list-distinct :
    (vs : List Json) (path : Place) → Ensures (λ ts. all_distinct ts ≡ true) (string_list vs path)
unfolding string_list
string_list-distinct [] path = tt
string_list-distinct (v ∷ vs) path = ground arith

require_string_list-distinct :
    (parent : Object) (name : String) (path : Place)
    → Ensures (λ ts. all_distinct ts ≡ true) (require_string_list parent name path)
unfolding require_string_list
require_string_list-distinct parent name path = ground (arith, string_list-distinct _ _)

pub record IsPolicy (p : Policy) : Type 0 where
  pub some_size : 0 < p.maximum_batch_size
  pub some_per_domain : 0 < p.maximum_per_failure_domain
  pub distinct : all_distinct p.ring_order ≡ true

pub parse_policy-IsPolicy : (raw : Json) → Ensures IsPolicy (parse_policy raw)
unfolding parse_policy
parse_policy-IsPolicy raw = Ensures-bind IsPolicy (require_object raw (top "policy")) _ λ policy _.
    Ensures-bind IsPolicy (require_string policy "releaseId" (top "policy")) _ λ _ _.
      Ensures-bind IsPolicy (require_string policy "candidateBaselineVersion" (top "policy")) _
        λ candidate _.
          Ensures-bind IsPolicy
            (raise_if (not (is_semver candidate))
              (not_semver (key (top "policy") "candidateBaselineVersion")))
            _
            λ _ _.
              Ensures-bind IsPolicy (require_string_list policy "ringOrder" (top "policy")) _
                λ ring_order e.
                  Ensures-bind IsPolicy
                    (require_string_list policy "supportedKubernetesMinors" (top "policy")) _
                    λ _ _.
                      Ensures-bind IsPolicy
                        (require_string_list policy "supportedClusterClasses" (top "policy")) _
                        λ _ _.
                          Ensures-bind IsPolicy
                            (require_string_list policy "eligibleLifecycleStates" (top "policy")) _
                            λ _ _.
                              Ensures-bind IsPolicy
                                (require_positive_int policy "maximumBatchSize" (top "policy")) _
                                λ maximum_batch_size f.
                                  Ensures-bind IsPolicy
                                    (require_positive_int policy
                                      "maximumClustersPerFailureDomainPerBatch" (top "policy"))
                                    _
                                    λ maximum_per_domain g.
                                      Ensures-bind IsPolicy
                                        (require_positive_int policy "maximumConformanceAgeHours"
                                          (top "policy"))
                                        _
                                        λ _ _.
                                          Ensures-bind IsPolicy
                                            (require_bool policy "requireMaintenanceWindow"
                                              (top "policy"))
                                            _
                                            λ _ _.
                                              Ensures-bind IsPolicy
                                                (require_object
                                                  (get_or policy "requiredPredecessorRings"
                                                    (obj Fields.end))
                                                  rings_path)
                                                _
                                                λ raw_predecessors _.
                                                  Ensures-bind IsPolicy
                                                    (parse_predecessors ring_order raw_predecessors)
                                                    _
                                                    λ _ _. record {
                                                      some_size =
                                                          Ensures-at (λ n. 0 < n) _
                                                            (require_positive_int-pos policy _ _) f;
                                                      some_per_domain =
                                                          Ensures-at (λ n. 0 < n) _
                                                            (require_positive_int-pos policy _ _) g;
                                                      distinct =
                                                          Ensures-at (λ ts. all_distinct ts ≡ true)
                                                            _
                                                            (require_string_list-distinct policy _
                                                            _)
                                                            e;
                                                    }

module _ (from_iso : String → Option DateTime) (policy : Policy) (now : ℕ) where
  abbrev pub KnownRing : ClusterDecision → Type 0
  KnownRing d = contains policy.ring_order d.ring ≡ true

  read_cluster-known :
      (raw_cluster : Json) (i : ℕ)
      → Ensures
          (λ c. contains policy.ring_order c.ring ≡ true)
          (read_cluster from_iso raw_cluster i policy now)
  unfolding read_cluster
  read_cluster-known raw_cluster i =
      Ensures-bind Known (require_object raw_cluster (index (top "clusters") i)) _ λ cluster _.
        Ensures-bind Known (require_string cluster "clusterId" (index (top "clusters") i)) _ λ _ _.
          Ensures-bind Known (require_string cluster "clusterClass" (index (top "clusters") i)) _
            λ _ _.
              Ensures-bind Known
                (require_string cluster "lifecycleState" (index (top "clusters") i)) _
                λ _ _.
                  Ensures-bind Known (require_string cluster "region" (index (top "clusters") i)) _
                    λ _ _.
                      Ensures-bind Known
                        (require_string cluster "failureDomain" (index (top "clusters") i)) _
                        λ _ _.
                          Ensures-bind Known
                            (require_string cluster "rolloutRing" (index (top "clusters") i)) _
                            λ ring _.
                              Ensures-bind Known
                                (require_string cluster "kubernetesVersion"
                                  (index (top "clusters") i))
                                _
                                λ kubernetes_version _.
                                  Ensures-bind Known
                                    (require_string cluster "baselineVersion"
                                      (index (top "clusters") i))
                                    _
                                    λ baseline _.
                                      Ensures-bind Known
                                        (require_string cluster "lastConformancePass"
                                          (index (top "clusters") i))
                                        _
                                        λ conformance_raw _.
                                          Ensures-bind Known
                                            (require_object (get cluster "maintenance")
                                              (key (index (top "clusters") i) "maintenance"))
                                            _
                                            λ maintenance _.
                                              Ensures-bind Known
                                                (raise_if (not (contains policy.ring_order ring)) (
                                                  unknown_ring
                                                    (key (index (top "clusters") i) "rolloutRing")))
                                                _
                                                λ _ known.
                                                  Ensures-bind Known
                                                    (raise_if (not (is_semver baseline)) (
                                                      not_semver (
                                                        key (index (top "clusters") i)
                                                          "baselineVersion")))
                                                    _
                                                    λ _ _.
                                                      Ensures-bind Known
                                                        (require_minor kubernetes_version (
                                                          key (index (top "clusters") i)
                                                            "kubernetesVersion"))
                                                        _
                                                        λ _ _.
                                                          Ensures-bind Known
                                                            (parse_time from_iso conformance_raw (
                                                            key (index (top "clusters") i)
                                                            "lastConformancePass"))
                                                            _
                                                            λ conformance _.
                                                            Ensures-bind Known
                                                            (raise_if (ltb now conformance) (
                                                            in_future (
                                                            key (index (top "clusters") i)
                                                            "lastConformancePass")))
                                                            _
                                                            λ _ _.
                                                            Ensures-bind Known
                                                            (require_int
                                                            (get maintenance "startHourUtc")
                                                            (key
                                                            (key (index (top "clusters") i)
                                                            "maintenance")
                                                            "startHourUtc"))
                                                            _
                                                            λ start_hour _.
                                                            Ensures-bind Known
                                                            (require_int
                                                            (get maintenance "durationHours")
                                                            (key
                                                            (key (index (top "clusters") i)
                                                            "maintenance")
                                                            "durationHours"))
                                                            _
                                                            λ duration _.
                                                            Ensures-bind Known
                                                            (within_maintenance_window now
                                                            start_hour duration)
                                                            _ λ _ _. not_raised-false _ _ known
    where
      Known : Cluster → Type 0
      Known c = contains policy.ring_order c.ring ≡ true

  decide_cluster-known :
      (raw_cluster : Json) (i : ℕ)
      → Ensures KnownRing (decide_cluster from_iso raw_cluster i policy now)
  unfolding decide_cluster
  decide_cluster-known raw_cluster i =
      Ensures-bind KnownRing (read_cluster from_iso raw_cluster i policy now) _ λ c e.
        Ensures-at (λ c. contains policy.ring_order c.ring ≡ true) _
          (read_cluster-known raw_cluster i) e

  decide_all-known :
      (i : ℕ) (raw : List Json) → Ensures (All KnownRing) (decide_all from_iso policy now i raw)
  unfolding decide_all
  decide_all-known i [] = tt
  decide_all-known i (raw ∷ rest) =
      Ensures-bind (All KnownRing) (decide_cluster from_iso raw i policy now) _ λ d e.
        Ensures-bind (All KnownRing) (decide_all from_iso policy now (suc i) rest) _ λ ds f. (
          Ensures-at KnownRing _ (decide_cluster-known raw i) e,
          Ensures-at (All KnownRing) _ (decide_all-known (suc i) rest) f,
        )

  pub decide_clusters-known :
      (raw : List Json) → Ensures (All KnownRing) (decide_clusters from_iso policy now raw)
  unfolding decide_clusters
  decide_clusters-known raw =
      Ensures-bind (All KnownRing) (decide_all from_iso policy now 0 raw) _ λ ds e.
        Ensures-bind (All KnownRing) (raise_if (not (all_distinct (cluster_ids ds))) not_unique) _
          λ _ _. Ensures-at (All KnownRing) _ (decide_all-known 0 raw) e
