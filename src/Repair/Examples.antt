-- ===== src/Repair/Examples.antt =====
-- The fleets of node_repair.py and its tests as tests, and the theorems at concrete inputs.
use staff_sre_platform_engin.Shared.{
  ℕ, pos, String, Bool, true, false, List, [], ◌∷◌, none, some, ◌≡◌, refl, ◌↔◌, Result, ok, err,
  map,
}
use staff_sre_platform_engin.Repair.Types.{
  Node, NodeState, healthy, suspect, degraded, fenced, replacing, verifying, FleetPolicy,
  ControllerResult, RepairError, Action, restart_once_and_verify, cordon_and_fence,
  replace_with_known_good, image_failures, bad_cluster_limit, duplicate_names,
}
use staff_sre_platform_engin.Repair.Fleet.{
  validate_policy, zones_of, has_duplicates, validate_each, validate_nodes, healthy_capacity,
  distinct, failing_image, spread_signature, systemic_failure_reason, cluster_repairs, zone_repairs,
  replacement_gate_open, projected_capacity_after_removal,
}
use staff_sre_platform_engin.Repair.Controller.{
  goes_before, insert_node, sort_nodes, candidates, decide, decide_all, evaluated, evaluate_repair,
  decision_for, apply_to, apply_decisions,
}
use staff_sre_platform_engin.Repair.Distinct.{IsSetOf}
use staff_sre_platform_engin.Repair.Breaker.{MustStop, raw_zones, breaker_open_iff}
use staff_sre_platform_engin.Repair.Limits.{removed, removed_in, replaced}
use staff_sre_platform_engin.Repair.Removals.{restarted, entering}

abbrev policy : FleetPolicy
policy = record {
  max_concurrent_repairs_cluster = 2;
  max_concurrent_repairs_per_zone = 1;
  min_healthy_capacity_percent = 60000;
  systemic_image_failure_percent = 50000;
  systemic_signature_zone_count = 3;
  restart_failure_limit = pos 1;
  require_replacement_ready_before_next = true;
}

abbrev sound : String → String → String → Node
sound name zone image = record {
  name = name;
  zone = zone;
  image = image;
  state = healthy;
  failure_signature = none;
  failure_count = pos 0;
  serving_capacity_units = 10;
  critical_workloads = false;
  storage_writer = false;
  traffic_fenced = false;
  storage_fenced = false;
  identity_fenced = false;
  replacement_ready = false;
}

abbrev failing : String → String → String → NodeState → String → ℕ → Node
failing name zone image state signature count = record (sound name zone image) {
  state = state;
  failure_signature = some signature;
  failure_count = pos count;
}

abbrev local_fleet : List Node
local_fleet =
    sound "node-a1" "zone-a" "image-good"
    ∷ failing "node-a2" "zone-a" "image-good" suspect "runtime-timeout" 1
    ∷ failing "node-b1" "zone-b" "image-good" degraded "disk-errors" 3
    ∷ sound "node-b2" "zone-b" "image-good"
    ∷ sound "node-c1" "zone-c" "image-good"
    ∷ sound "node-c2" "zone-c" "image-good"
    ∷ []

abbrev systemic_fleet : List Node
systemic_fleet =
    failing "node-a1" "zone-a" "image-bad" degraded "runtime-crash" 3
    ∷ failing "node-b1" "zone-b" "image-bad" degraded "runtime-crash" 3
    ∷ sound "node-c1" "zone-c" "image-good"
    ∷ sound "node-c2" "zone-c" "image-good"
    ∷ []

abbrev writer_fleet : List Node
writer_fleet =
    sound "node-a1" "zone-a" "image-good"
    ∷ record (failing "node-b1" "zone-b" "image-good" degraded "network-partition" 4) {
      storage_writer = true;
    }
    ∷ sound "node-c1" "zone-c" "image-good"
    ∷ sound "node-c2" "zone-c" "image-good"
    ∷ []

-- To open this opens the controller.
controller : List Node → FleetPolicy → Bool → Result RepairError ControllerResult
unfolding validate_policy has_duplicates validate_each validate_nodes healthy_capacity distinct
    failing_image spread_signature systemic_failure_reason cluster_repairs zone_repairs
    replacement_gate_open projected_capacity_after_removal goes_before insert_node sort_nodes
    candidates decide decide_all evaluated evaluate_repair decision_for apply_to apply_decisions
    removed removed_in replaced restarted entering
controller = evaluate_repair

abbrev closed_breaker : ControllerResult
closed_breaker = record {
  circuit_breaker_reason = none;
  circuit_breaker_open = false;
  decisions = [];
  projected_healthy_capacity_percent = record { part = 0; whole = 0 };
}

abbrev result_of : Result RepairError ControllerResult → ControllerResult
result_of (ok r) = r
result_of (err e) = closed_breaker

abbrev actions : Result RepairError ControllerResult → List (String × Action × NodeState)
actions r = map (λ d. (d.node, d.action, d.next_state)) (result_of r).decisions

local_failure_actions :
    actions (controller local_fleet policy false)
    ≡ ("node-b1", replace_with_known_good, replacing)
      ∷ ("node-a2", restart_once_and_verify, verifying)
      ∷ []
unfolding controller
local_failure_actions = refl

systemic_failure_opens :
    (result_of (controller systemic_fleet policy false)).circuit_breaker_reason
    ≡ some (image_failures "image-bad" 2 2)
unfolding controller
systemic_failure_opens = refl

writer_is_fenced :
    actions (controller writer_fleet policy false) ≡ ("node-b1", cordon_and_fence, fenced) ∷ []
unfolding controller
writer_is_fenced = refl

bad_policy_rejected :
    controller local_fleet (record policy { max_concurrent_repairs_cluster = 0 }) false
    ≡ err bad_cluster_limit
unfolding controller
bad_policy_rejected = refl

duplicates_rejected :
    controller (sound "a" "z" "i" ∷ sound "a" "z" "i" ∷ []) policy false ≡ err duplicate_names
unfolding controller
duplicates_rejected = refl

local-ok :
    evaluate_repair local_fleet policy false
    ≡ ok (result_of (evaluate_repair local_fleet policy false))
unfolding controller
local-ok = refl

breaker_open_iff_example :
    ((result_of (evaluate_repair local_fleet policy false)).circuit_breaker_open ≡ true
      ↔ MustStop local_fleet policy false)
    × ((result_of (evaluate_repair local_fleet policy false)).circuit_breaker_open ≡ true
        → (result_of (evaluate_repair local_fleet policy false)).decisions ≡ [])
    × ((signature : String)
        → IsSetOf (raw_zones signature local_fleet) (zones_of signature local_fleet))
breaker_open_iff_example = breaker_open_iff local_fleet policy false local-ok

applied_states :
    elim (apply_decisions local_fleet (result_of (controller local_fleet policy false))) [
      | ok nodes ↦ map (λ n. n.state) nodes
      | err e ↦ []
    ]
    ≡ healthy ∷ verifying ∷ replacing ∷ healthy ∷ healthy ∷ healthy ∷ []
unfolding controller
applied_states = refl
