-- ===== src/Repair/Fleet.antt =====
-- node_repair.py: validation, capacity, the search for systemic failures, and the repairs under way.
use staff_sre_platform_engin.Shared.{
  ℕ, pos, String, Bool, true, false, not, ◌&&◌, ◌||◌, ◌==◌, Option, none, some, List, [], ◌∷◌, map,
  ltb, leb, ltb_ℤ, any, filter, length, sum_by, str_eq, if◌then◌else◌, Result, ok, ◌>>=◌, ◌>>◌,
  raise_if,
}
use staff_sre_platform_engin.Repair.Types.{
  NodeState, healthy, suspect, degraded, cordoned, fenced, draining, replacing, verifying, Node,
  FleetPolicy, Percent, is_below, RepairError, BreakerReason, image_failures, signature_zones,
  bad_cluster_limit, bad_zone_limit, bad_capacity_percent, bad_image_percent, bad_zone_count,
  negative_restart_limit, empty_fleet, duplicate_names, bad_node_capacity, storage_without_traffic,
}

-- 100.0 percent.
abbrev pub hundred : ℕ
hundred = 100000

unfoldable pub validate_policy : FleetPolicy → Result RepairError (Unit {0})
validate_policy p = do
  raise_if (p.max_concurrent_repairs_cluster == 0) bad_cluster_limit
  raise_if (p.max_concurrent_repairs_per_zone == 0) bad_zone_limit
  raise_if
      (not (ltb 0 p.min_healthy_capacity_percent && leb p.min_healthy_capacity_percent hundred))
      bad_capacity_percent
  raise_if
      (not (ltb 0 p.systemic_image_failure_percent && leb p.systemic_image_failure_percent hundred))
      bad_image_percent
  raise_if (p.systemic_signature_zone_count == 0) bad_zone_count
  raise_if (ltb_ℤ p.restart_failure_limit (pos 0)) negative_restart_limit

abbrev pub is_empty {ℓ} : {A : Type ℓ} → List A → Bool
is_empty [] = true
is_empty (_ ∷ _) = false

abbrev pub has_text : String → List String → Bool
has_text key keys = any (λ k. str_eq k key) keys

-- `len(names) != len(set(names))`
unfoldable pub has_duplicates : List String → Bool
has_duplicates [] = false
has_duplicates (x ∷ xs) = has_text x xs || has_duplicates xs

-- The loop over the nodes stops at the first that is invalid.
unfoldable pub validate_each : List Node → Result RepairError (Unit {0})
validate_each [] = ok tt
validate_each (n ∷ rest) = do
  raise_if (n.serving_capacity_units == 0) bad_node_capacity
  raise_if (n.storage_fenced && not n.traffic_fenced) storage_without_traffic
  validate_each rest

unfoldable pub validate_nodes : List Node → Result RepairError (List Node)
unfolding has_duplicates validate_each
validate_nodes nodes = do
  raise_if (is_empty nodes) empty_fleet
  raise_if (has_duplicates (map (λ n. n.name) nodes)) duplicate_names
  validate_each nodes
  ok nodes

-- `node.state in {HEALTHY, SUSPECT}`
abbrev pub is_serving : NodeState → Bool
is_serving healthy = true
is_serving suspect = true
is_serving _ = false

-- `node.state in {SUSPECT, DEGRADED}`
abbrev pub is_candidate : NodeState → Bool
is_candidate suspect = true
is_candidate degraded = true
is_candidate _ = false

-- `REPAIR_STATES`
abbrev pub is_repair : NodeState → Bool
is_repair cordoned = true
is_repair fenced = true
is_repair draining = true
is_repair replacing = true
is_repair verifying = true
is_repair _ = false

abbrev pub is_replacing : NodeState → Bool
is_replacing replacing = true
is_replacing _ = false

abbrev pub capacity : List Node → ℕ
capacity nodes = sum_by (λ n. n.serving_capacity_units) nodes

-- `healthy_capacity_percent` behind its validation.
unfoldable pub healthy_capacity : List Node → Percent
healthy_capacity nodes = record {
  part = capacity (filter (λ n. is_serving n.state) nodes);
  whole = capacity nodes;
}

unfoldable pub healthy_capacity_percent : List Node → Result RepairError Percent
healthy_capacity_percent nodes = do fleet ← validate_nodes nodes; ok (healthy_capacity fleet)

-- A signature that is set and not empty.
abbrev pub has_signature : Option String → Bool
has_signature none = false
has_signature (some s) = not (str_eq s "")

-- `node.failure_signature or "unknown"`
abbrev pub signature_of : Node → String
signature_of n = elim n.failure_signature [
  | none ↦ "unknown"
  | some s ↦ if str_eq s "" then "unknown" else s
]

abbrev pub unhealthy : List Node → List Node
unhealthy nodes = filter (λ n. not (is_serving n.state) && has_signature n.failure_signature) nodes

-- The keys of a dictionary that is filled in this order: each text at its first place.
unfoldable pub distinct : List String → List String
distinct [] = []
distinct (x ∷ xs) = x ∷ filter (λ y. not (str_eq y x)) (distinct xs)

abbrev pub of_image : String → List Node → List Node
of_image image nodes = filter (λ n. str_eq n.image image) nodes

-- The first loop of `_systemic_failure_reason`.
unfoldable pub failing_image : FleetPolicy → List Node → List String → Option BreakerReason
failing_image p nodes [] = none
failing_image p nodes (image ∷ rest) =
    let failed = length (of_image image (unhealthy nodes)) in
    let total = length (of_image image nodes) in
    let later = failing_image p nodes rest in
    if failed == 0
    then later
    else if is_below (record { part = failed; whole = total }) p.systemic_image_failure_percent
    then later
    else some (image_failures image failed total)

abbrev pub zones_of : String → List Node → List String
zones_of signature nodes =
    distinct (map (λ n. n.zone) (filter (λ n. str_eq (signature_of n) signature) (unhealthy nodes)))

-- The second loop.
unfoldable pub spread_signature : FleetPolicy → List Node → List String → Option BreakerReason
spread_signature p nodes [] = none
spread_signature p nodes (signature ∷ rest) =
    let zones = length (zones_of signature nodes) in
    let later = spread_signature p nodes rest in
    if ltb zones p.systemic_signature_zone_count
    then later
    else some (signature_zones signature zones)

unfoldable pub systemic_failure_reason : List Node → FleetPolicy → Option BreakerReason
systemic_failure_reason nodes p =
    if is_empty (unhealthy nodes)
    then none
    else elim (failing_image p nodes (distinct (map (λ n. n.image) nodes))) [
      | some reason ↦ some reason
      | none ↦ spread_signature p nodes (distinct (map signature_of (unhealthy nodes)))
    ]

-- `_current_repairs`: the repairs under way in the cluster, and in each zone. A dictionary that is
-- read with the default 0 is a function.
unfoldable pub cluster_repairs : List Node → ℕ
cluster_repairs nodes = length (filter (λ n. is_repair n.state) nodes)

unfoldable pub zone_repairs : List Node → String → ℕ
zone_repairs nodes zone = length (filter (λ n. is_repair n.state && str_eq n.zone zone) nodes)

unfoldable pub replacement_gate_open : List Node → FleetPolicy → Bool
replacement_gate_open nodes p =
    let under_way = filter (λ n. is_replacing n.state) nodes in
    if not p.require_replacement_ready_before_next
    then true
    else if is_empty under_way
    then true
    else any (λ n. n.replacement_ready) under_way

unfoldable pub projected_capacity_after_removal : List Node → Node → Percent
projected_capacity_after_removal nodes node = record {
  part = capacity (filter (λ n. is_serving n.state && not (str_eq n.name node.name)) nodes);
  whole = capacity nodes;
}
