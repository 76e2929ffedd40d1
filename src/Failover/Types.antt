-- ===== src/Failover/Types.antt =====
-- labs/reliability/02-disaster-recovery-state-machine/dr_failover.py: the data of the state machine.
-- Percentages are counted in thousandths of a percent and lags in milliseconds.
use staff_sre_platform_engin.Shared.{ℤ, pos, String, Bool, List, ℤ-discrete, String-discrete}

pub data DrState : Type 0 where
  normal assess frozen eligibility_check fencing promoting canary expanding : DrState
  recovered_secondary hold_read_only failback_prep failback_canary normal_restored : DrState

pub record Region : Type 0 where
  pub name : String
  pub application_healthy : Bool
  pub capacity_percent_of_peak : ℤ
  pub dependencies_healthy : Bool
  pub identity_healthy : Bool
  pub observability_healthy : Bool
  pub replication_lag_seconds : ℤ
  pub schema_compatible : Bool
  pub writer_epoch : ℤ
  pub accepting_writes : Bool
  pub business_synthetic_healthy : Bool

pub record DrPolicy : Type 0 where
  pub required_capacity_percent_of_peak : ℤ
  pub maximum_replication_lag_seconds : ℤ
  pub require_observability : Bool
  pub require_business_synthetic : Bool
  pub initial_canary_percent : ℤ
  pub maximum_traffic_step_percent : ℤ

pub record DrContext : Type 0 where
  pub state : DrState
  pub primary : Region
  pub secondary : Region
  pub old_writer_fenced : Bool
  pub traffic_percent_secondary : ℤ
  pub fast_burn : Bool
  pub data_inconsistency_detected : Bool
  pub global_change_freeze : Bool
  pub incident_commander_assigned : Bool
  pub failback_replication_healthy : Bool
  pub original_region_rebuilt : Bool

-- The codes of `destination_eligibility`, a constructor for each text.
pub data Failure : Type 0 where
  application_unhealthy insufficient_capacity dependency_unhealthy identity_unhealthy : Failure
  observability_unhealthy replication_lag_exceeds_rpo schema_incompatible : Failure
  business_synthetic_failed : Failure

-- The `action` texts.
pub data Action : Type 0 where
  hold_read_only_action abort_traffic_shift observe declare_assessment hold : Action
  freeze_changes check_destination fence_old_writer promote_secondary_writer : Action
  start_canary abort_canary expand_traffic prepare_failback operate_and_reprotect : Action
  start_failback_canary expand_failback : Action

-- The `reason` texts; a text with a value in it carries the value.
pub data Reason : Type 0 where
  needs_human_reconciliation fast_burn_detected primary_healthy primary_unhealthy : Reason
  no_commander command_established freeze_active destination_eligible : Reason
  fencing_not_proven old_writer_is_fenced canary_healthy guardrails_healthy : Reason
  region_rebuilt secondary_authoritative failback_healthy stable : Reason
  destination_ineligible lost_eligibility failback_ineligible : List Failure → Reason
  secondary_promoted original_promoted : ℤ → Reason

pub record TransitionResult : Type 0 where
  pub previous_state : DrState
  pub next_state : DrState
  pub action : Action
  pub reason : Reason
  pub context : DrContext

-- `DRError`, a constructor for each message.
pub data DrError : Type 0 where
  region_name_required negative_capacity negative_lag negative_epoch : DrError
  capacity_not_positive negative_maximum_lag bad_canary_percent bad_traffic_step : DrError
  negative_token_epoch steps_not_positive not_stabilized : DrError

-- 100.0 percent.
abbrev pub hundred : ℤ
hundred = pos 100000

pub DrState-discrete : Discrete DrState
DrState-discrete = hlevel

unfoldable pub DrContext-discrete : Discrete DrContext
DrContext-discrete = hlevel (ℤ-discrete, String-discrete)
