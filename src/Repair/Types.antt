-- ===== src/Repair/Types.antt =====
-- node_repair.py: nodes, the policy and the decisions. Capacities, limits and percentages are
-- natural numbers: the validation rejects every negative value of these as it rejects 0.
-- Percentages count thousandths of a percent.
use staff_sre_platform_engin.Shared.{ℕ, ◌*◌, ℤ, String, Bool, Option, List, ltb, if◌then◌else◌}

pub data NodeState : Type 0 where
  healthy suspect degraded cordoned fenced draining replacing verifying quarantined : NodeState

pub record Node : Type 0 where
  pub name : String
  pub zone : String
  pub image : String
  pub state : NodeState
  pub failure_signature : Option String
  pub failure_count : ℤ
  pub serving_capacity_units : ℕ
  pub critical_workloads : Bool
  pub storage_writer : Bool
  pub traffic_fenced : Bool
  pub storage_fenced : Bool
  pub identity_fenced : Bool
  pub replacement_ready : Bool

pub record FleetPolicy : Type 0 where
  pub max_concurrent_repairs_cluster : ℕ
  pub max_concurrent_repairs_per_zone : ℕ
  pub min_healthy_capacity_percent : ℕ
  pub systemic_image_failure_percent : ℕ
  pub systemic_signature_zone_count : ℕ
  pub restart_failure_limit : ℤ
  pub require_replacement_ready_before_next : Bool

-- A percentage, `part / whole * 100.0`, as the exact fraction.
pub record Percent : Type 0 where
  pub part : ℕ
  pub whole : ℕ

-- `percent < bound`, for a bound in thousandths of a percent.
abbrev pub is_below : Percent → ℕ → Bool
is_below p bound = ltb (p.part * 100000) (bound * p.whole)

-- `min(a, b)`
abbrev pub min_percent : Percent → Percent → Percent
min_percent a b = if ltb (b.part * a.whole) (a.part * b.whole) then b else a

pub data Action : Type 0 where
  restart_once_and_verify hold cordon_and_fence replace_with_known_good : Action

pub data Reason : Type 0 where
  bounded_transient cluster_limit zone_limit replacement_not_ready writer_not_fenced : Reason
  guardrails_satisfied : Reason
  capacity_below : Percent → ℕ → Reason

pub record RepairDecision : Type 0 where
  pub node : String
  pub action : Action
  pub reason : Reason
  pub next_state : NodeState

pub data BreakerReason : Type 0 where
  global_disable_active : BreakerReason
  image_failures : String → (failed nodes : ℕ) → BreakerReason
  signature_zones : String → ℕ → BreakerReason

pub record ControllerResult : Type 0 where
  pub circuit_breaker_reason : Option BreakerReason
  pub circuit_breaker_open : Bool
  pub decisions : List RepairDecision
  pub projected_healthy_capacity_percent : Percent

pub data RepairError : Type 0 where
  bad_cluster_limit bad_zone_limit bad_capacity_percent bad_image_percent : RepairError
  bad_zone_count negative_restart_limit empty_fleet duplicate_names : RepairError
  bad_node_capacity storage_without_traffic : RepairError
