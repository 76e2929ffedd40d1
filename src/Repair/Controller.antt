-- ===== src/Repair/Controller.antt =====
-- node_repair.py: `evaluate_repair` and `apply_decisions`.
use Prim.Native.Nat.{Ordering}
use Prim.Native.String.{compare as compare_text}
use staff_sre_platform_engin.Shared.{
  ℕ, suc, String, Bool, true, false, not, ◌&&◌, Option, none, some, List, [], ◌∷◌, map, leb, ltb_ℤ,
  leb_ℤ, filter, str_eq, if◌then◌else◌, Result, ok, ◌>>=◌, ◌>>◌,
}
use staff_sre_platform_engin.Repair.Types.{
  NodeState, suspect, fenced, replacing, verifying, Node, FleetPolicy, Percent, is_below,
  min_percent, RepairError, BreakerReason, global_disable_active, Action, restart_once_and_verify,
  hold, cordon_and_fence, replace_with_known_good, Reason, bounded_transient, cluster_limit,
  zone_limit, replacement_not_ready, writer_not_fenced, guardrails_satisfied, capacity_below,
  RepairDecision, ControllerResult,
}
use staff_sre_platform_engin.Repair.Fleet.{
  validate_policy, validate_nodes, healthy_capacity, systemic_failure_reason, cluster_repairs,
  zone_repairs, replacement_gate_open, projected_capacity_after_removal, is_candidate,
}

-- The order of the key (not critical, -failure_count, zone, name): whether `a` may stand before `b`.
abbrev pub text_order : String → String → Bool → Bool
text_order a b tie = elim (compare_text a b) [
  | Ordering.lt ↦ true
  | Ordering.gt ↦ false
  | Ordering.eq ↦ tie
]

unfoldable pub goes_before : Node → Node → Bool
goes_before a b =
    if a.critical_workloads && not b.critical_workloads
    then true
    else if b.critical_workloads && not a.critical_workloads
    then false
    else if ltb_ℤ b.failure_count a.failure_count
    then true
    else if ltb_ℤ a.failure_count b.failure_count
    then false
    else text_order a.zone b.zone (text_order a.name b.name true)

-- `sorted` is stable: a node is put before the first that it must not follow.
unfoldable pub insert_node : Node → List Node → List Node
insert_node n [] = n ∷ []
insert_node n (x ∷ rest) =
    let later = insert_node n rest in if goes_before n x then n ∷ x ∷ rest else x ∷ later

unfoldable pub sort_nodes : List Node → List Node
unfolding insert_node
sort_nodes [] = []
sort_nodes (n ∷ rest) = insert_node n (sort_nodes rest)

unfoldable pub candidates : List Node → List Node
candidates fleet = sort_nodes (filter (λ n. is_candidate n.state) fleet)

-- What the loop over the candidates keeps.
pub record Loop : Type 0 where
  pub cluster : ℕ
  pub zones : String → ℕ
  pub gate : Bool
  pub projected : Percent

abbrev pub is_suspect : NodeState → Bool
is_suspect suspect = true
is_suspect _ = false

abbrev pub decision : Node → Action → Reason → NodeState → RepairDecision
decision n a why next = record { node = n.name; action = a; reason = why; next_state = next }

-- `hold` leaves the node in its state.
abbrev pub held : Node → Reason → RepairDecision
held n why = decision n hold why n.state

-- `zone_repairs[zone] = zone_repairs.get(zone, 0) + 1`
abbrev pub one_more : String → (String → ℕ) → String → ℕ
one_more zone zones z = if str_eq zone z then suc (zones z) else zones z

-- `cluster_repairs += 1`, the zone's count, and the smaller projection.
abbrev pub start_repair : Loop → Node → Percent → Loop
start_repair s n projected = record s {
  cluster = suc s.cluster;
  zones = one_more n.zone s.zones;
  projected = min_percent s.projected projected;
}

-- `node.traffic_fenced and node.storage_fenced and node.identity_fenced`
abbrev pub is_fenced : Node → Bool
is_fenced n = n.traffic_fenced && (n.storage_fenced && n.identity_fenced)

-- The loop's body.
unfoldable pub decide : List Node → FleetPolicy → Loop → Node → RepairDecision × Loop
decide fleet p s n =
    let projected = projected_capacity_after_removal fleet n in
    if is_suspect n.state && leb_ℤ n.failure_count p.restart_failure_limit
    then (decision n restart_once_and_verify bounded_transient verifying, s)
    else if leb p.max_concurrent_repairs_cluster s.cluster
    then (held n cluster_limit, s)
    else if leb p.max_concurrent_repairs_per_zone (s.zones n.zone)
    then (held n zone_limit, s)
    else if not s.gate
    then (held n replacement_not_ready, s)
    else if is_below projected p.min_healthy_capacity_percent
    then (held n (capacity_below projected p.min_healthy_capacity_percent), s)
    else if n.storage_writer && not (is_fenced n)
    then (decision n cordon_and_fence writer_not_fenced fenced, start_repair s n projected)
    else (
      decision n replace_with_known_good guardrails_satisfied replacing,
      record (start_repair s n projected) { gate = not p.require_replacement_ready_before_next },
    )

unfoldable pub decide_all : List Node → FleetPolicy → Loop → List Node → List RepairDecision × Loop
decide_all fleet p s [] = ([], s)
decide_all fleet p s (n ∷ rest) =
    let (d, s') = decide fleet p s n in let (ds, s'') = decide_all fleet p s' rest in (d ∷ ds, s'')

abbrev pub first_loop : List Node → FleetPolicy → Loop
first_loop fleet p = record {
  cluster = cluster_repairs fleet;
  zones = zone_repairs fleet;
  gate = replacement_gate_open fleet p;
  projected = healthy_capacity fleet;
}

-- The result where the circuit breaker is open.
abbrev pub tripped : List Node → BreakerReason → ControllerResult
tripped fleet why = record {
  circuit_breaker_reason = some why;
  circuit_breaker_open = true;
  decisions = [];
  projected_healthy_capacity_percent = healthy_capacity fleet;
}

-- The result where it is closed. The source rounds the percentage to three places.
abbrev pub reconciled : List Node → FleetPolicy → ControllerResult
reconciled fleet p =
    let (ds, s) = decide_all fleet p (first_loop fleet p) (candidates fleet) in
    record {
      circuit_breaker_reason = none;
      circuit_breaker_open = false;
      decisions = ds;
      projected_healthy_capacity_percent = s.projected;
    }

-- The controller's result for a fleet that is valid.
unfoldable pub evaluated : List Node → FleetPolicy → (global_disable : Bool) → ControllerResult
evaluated fleet p global_disable =
    if global_disable
    then tripped fleet global_disable_active
    else elim (systemic_failure_reason fleet p) [
      | some why ↦ tripped fleet why
      | none ↦ reconciled fleet p
    ]

unfoldable pub evaluate_repair :
    List Node → FleetPolicy → (global_disable : Bool) → Result RepairError ControllerResult
evaluate_repair nodes p global_disable = do
  validate_policy p
  fleet ← validate_nodes nodes
  ok (evaluated fleet p global_disable)

-- `by_name.get(name)`, where a later decision replaces an earlier one.
unfoldable pub decision_for : String → List RepairDecision → Option RepairDecision
decision_for name [] = none
decision_for name (d ∷ rest) =
    let later = decision_for name rest in
    elim later [ some x ↦ some x | none ↦ if str_eq d.node name then some d else none ]

abbrev pub is_hold : Action → Bool
is_hold hold = true
is_hold _ = false

unfoldable pub apply_to : List RepairDecision → Node → Node
apply_to ds n = elim (decision_for n.name ds) [
  | none ↦ n
  | some d ↦ if is_hold d.action then n else record n { state = d.next_state }
]

unfoldable pub apply_decisions : List Node → ControllerResult → Result RepairError (List Node)
apply_decisions nodes r = do fleet ← validate_nodes nodes; ok (map (apply_to r.decisions) fleet)
