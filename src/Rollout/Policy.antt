-- ===== src/Rollout/Policy.antt =====
-- plan_rollout.py: `parse_policy`.
use staff_sre_platform_engin.Shared.{
  Place, top, key, ℕ, suc, String, Bool, not, none, some, List, [], ◌∷◌, all, any, leb,
  if◌then◌else◌, Result, ok, err, ◌>>=◌, ◌>>◌, raise_if, Json, arr, Object, Fields, obj, items,
  get_or, texts, contains, str_eq, is_semver,
}
use staff_sre_platform_engin.Rollout.Input.{
  InputError, unknown_ring, not_known_rings, not_earlier_rings, not_semver, require_object,
  require_string, require_bool, require_positive_int, require_string_list,
}

pub record Policy : Type 0 where
  pub release_id : String
  pub candidate_baseline_version : String
  pub ring_order : List String
  pub supported_kubernetes_minors : List String
  pub supported_cluster_classes : List String
  pub eligible_lifecycle_states : List String
  pub maximum_batch_size : ℕ
  pub maximum_per_failure_domain : ℕ
  pub maximum_conformance_age_hours : ℕ
  pub require_maintenance_window : Bool
  pub required_predecessor_rings : List (String × List String)

-- `ring_order.index(ring)`, for a ring that is in the list.
unfoldable pub position : List String → String → ℕ
position [] ring = 0
position (r ∷ rest) ring = if str_eq r ring then 0 else suc (position rest ring)

abbrev pub rings_path : Place
rings_path = key (top "policy") "requiredPredecessorRings"

unfoldable pub earlier_rings : List String → String → List String → Result InputError (List String)
unfolding position
earlier_rings ring_order ring value =
    if not (all (contains ring_order) value)
    then err (not_known_rings (key rings_path ring))
    else if any (λ r. leb (position ring_order ring) (position ring_order r)) value
    then err (not_earlier_rings (key rings_path ring))
    else ok value

unfoldable pub predecessors_of : List String → String → Json → Result InputError (List String)
unfolding earlier_rings
predecessors_of ring_order ring (arr vs) = elim (texts (items vs)) [
  | none ↦ err (not_known_rings (key rings_path ring))
  | some value ↦ earlier_rings ring_order ring value
]
predecessors_of ring_order ring _ = err (not_known_rings (key rings_path ring))

unfoldable pub parse_predecessors :
    List String → Object → Result InputError (List (String × List String))
unfolding predecessors_of
parse_predecessors ring_order [] = ok []
parse_predecessors ring_order ((ring, value) ∷ rest) = do
  raise_if (not (contains ring_order ring)) (unknown_ring rings_path)
  rings ← predecessors_of ring_order ring value
  others ← parse_predecessors ring_order rest
  ok ((ring, rings) ∷ others)

unfoldable pub parse_policy : Json → Result InputError Policy
unfolding parse_predecessors require_object require_string require_bool require_positive_int
    require_string_list
parse_policy raw = do
  let path = top "policy"
  policy ← require_object raw path
  release_id ← require_string policy "releaseId" path
  candidate ← require_string policy "candidateBaselineVersion" path
  raise_if (not (is_semver candidate)) (not_semver (key path "candidateBaselineVersion"))
  ring_order ← require_string_list policy "ringOrder" path
  supported_minors ← require_string_list policy "supportedKubernetesMinors" path
  supported_classes ← require_string_list policy "supportedClusterClasses" path
  lifecycle_states ← require_string_list policy "eligibleLifecycleStates" path
  maximum_batch_size ← require_positive_int policy "maximumBatchSize" path
  maximum_per_domain ← require_positive_int policy "maximumClustersPerFailureDomainPerBatch" path
  maximum_age ← require_positive_int policy "maximumConformanceAgeHours" path
  require_window ← require_bool policy "requireMaintenanceWindow" path
  raw_predecessors ←
      require_object (get_or policy "requiredPredecessorRings" (obj Fields.end)) rings_path
  predecessors ← parse_predecessors ring_order raw_predecessors
  ok (record {
    release_id = release_id;
    candidate_baseline_version = candidate;
    ring_order = ring_order;
    supported_kubernetes_minors = supported_minors;
    supported_cluster_classes = supported_classes;
    eligible_lifecycle_states = lifecycle_states;
    maximum_batch_size = maximum_batch_size;
    maximum_per_failure_domain = maximum_per_domain;
    maximum_conformance_age_hours = maximum_age;
    require_maintenance_window = require_window;
    required_predecessor_rings = predecessors;
  })
