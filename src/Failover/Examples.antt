-- ===== src/Failover/Examples.antt =====
-- The scenarios of dr_failover.py's demonstration, as tests, and the theorems at concrete inputs.
use staff_sre_platform_engin.Shared.{
  ℤ, pos, Bool, true, false, List, [], ◌∷◌, ◌≡◌, refl, Result, ok, err, arith, map, ◌+ℤ◌, ◌-ℤ◌,
  max_ℤ, min_ℤ, String, ℤ-discrete, String-discrete, All, Returns, ◌↔◌,
}
use staff_sre_platform_engin.Failover.Types.{
  DrPolicy, DrContext, not_stabilized, hold, stable, Region, TransitionResult, DrError,
  DrContext-discrete, normal, assess, frozen, eligibility_check, fencing, promoting, canary,
  expanding, recovered_secondary, hold_read_only,
}
use staff_sre_platform_engin.Failover.Spec.{Move, reconcile_once-Move, promoted_context}
use staff_sre_platform_engin.Failover.Validity.{
  IsValidInput, validate_region_iff, reconcile_once-Returns_iff,
}
use staff_sre_platform_engin.Failover.Writers.{
  HasOneWriter, IsTakenOver, promotion_fences_old_tokens, secondary-promoted,
}
use staff_sre_platform_engin.Failover.Eligibility.{traffic-Growth, Growth}
use staff_sre_platform_engin.Failover.Traffic.{IsSmooth, reconcile_once-IsSmooth}
use staff_sre_platform_engin.Failover.Runs.{
  EndsStable, run_until_stable-HasOneWriter, run_until_stable-EndsStable,
}
use staff_sre_platform_engin.Failover.Termination.{run_until_stable-Returns}
use staff_sre_platform_engin.Failover.Guards.{
  destination_eligibility, validate_region, validate_policy, failures_of,
}
use staff_sre_platform_engin.Failover.Step.{
  transition, reconcile_once, run_until_stable, transition_of, dispatch, on_normal, on_assess,
  on_frozen, on_eligibility_check, on_fencing, on_promoting, on_canary, on_expanding,
  on_recovered_secondary,
}

-- `healthy_region`
abbrev healthy_region : String → ℤ → Bool → Region
healthy_region name epoch accepting = record {
  name = name;
  application_healthy = true;
  capacity_percent_of_peak = pos 120000;
  dependencies_healthy = true;
  identity_healthy = true;
  observability_healthy = true;
  replication_lag_seconds = pos 5000;
  schema_compatible = true;
  writer_epoch = epoch;
  accepting_writes = accepting;
  business_synthetic_healthy = true;
}

abbrev policy : DrPolicy
policy = record {
  required_capacity_percent_of_peak = pos 100000;
  maximum_replication_lag_seconds = pos 30000;
  require_observability = true;
  require_business_synthetic = true;
  initial_canary_percent = pos 5000;
  maximum_traffic_step_percent = pos 25000;
}

abbrev primary : Region
primary = record (healthy_region "region-a" (pos 41) true) {
  application_healthy = false;
  business_synthetic_healthy = false;
}

abbrev secondary : Region
secondary = healthy_region "region-b" (pos 41) false

abbrev safe_context : DrContext
safe_context = record {
  state = normal;
  primary = primary;
  secondary = secondary;
  old_writer_fenced = true;
  traffic_percent_secondary = pos 0;
  fast_burn = false;
  data_inconsistency_detected = false;
  global_change_freeze = false;
  incident_commander_assigned = true;
  failback_replication_healthy = false;
  original_region_rebuilt = false;
}

-- To open this opens the machine.
machine : ℤ → DrContext → DrPolicy → Result DrError (List TransitionResult)
unfolding run_until_stable reconcile_once transition_of dispatch on_normal on_assess on_frozen
    on_eligibility_check on_fencing on_promoting on_canary on_expanding on_recovered_secondary
    validate_region validate_policy destination_eligibility failures_of ◌+ℤ◌ ◌-ℤ◌ max_ℤ min_ℤ
    DrContext-discrete ℤ-discrete String-discrete
machine m c p = run_until_stable m c p

abbrev history : Result DrError (List TransitionResult) → List TransitionResult
history (ok h) = h
history (err e) = []

-- The demonstration's three runs: a failover, a lagging destination, and an old writer that is not
-- fenced.
safe_run :
    map (λ r. r.next_state) (history (run_until_stable (pos 50) safe_context policy))
    ≡ assess ∷ frozen ∷ eligibility_check ∷ fencing ∷ promoting ∷ canary ∷ expanding ∷ expanding
      ∷ expanding ∷ recovered_secondary ∷ recovered_secondary ∷ []
unfolding machine
safe_run = refl

lagging_context : DrContext
lagging_context = record safe_context {
  secondary = record secondary { replication_lag_seconds = pos 120000 };
}

lagging_run :
    map (λ r. r.next_state) (history (run_until_stable (pos 50) lagging_context policy))
    ≡ assess ∷ frozen ∷ eligibility_check ∷ hold_read_only ∷ hold_read_only ∷ []
unfolding machine lagging_context
lagging_run = refl

unfenced_context : DrContext
unfenced_context = record safe_context { old_writer_fenced = false }

unfenced_run :
    map (λ r. r.next_state) (history (run_until_stable (pos 50) unfenced_context policy))
    ≡ assess ∷ frozen ∷ eligibility_check ∷ fencing ∷ fencing ∷ []
unfolding machine unfenced_context
unfenced_run = refl

-- A step of 1 percent is a valid policy, and the default of 50 rounds is too few for it.
small_steps :
    run_until_stable
      (pos 50)
      safe_context
      (record policy { maximum_traffic_step_percent = pos 1000 })
    ≡ err not_stabilized
unfolding machine
small_steps = refl

abbrev safe_history : List TransitionResult
safe_history = history (run_until_stable (pos 50) safe_context policy)

safe_returned : run_until_stable (pos 50) safe_context policy ≡ ok safe_history
unfolding machine
safe_returned = refl

start_HasOneWriter : HasOneWriter safe_context
start_HasOneWriter = ground arith

valid_input : IsValidInput safe_context policy
valid_input = record {
  primary_valid = (validate_region_iff primary).0 (unfold validate_region in refl);
  secondary_valid = (validate_region_iff secondary).0 (unfold validate_region in refl);
  policy_valid = omega arith;
}

run_until_stable-HasOneWriter_example : All (λ r. HasOneWriter r.context) safe_history
run_until_stable-HasOneWriter_example =
    run_until_stable-HasOneWriter (pos 50) safe_context policy safe_history start_HasOneWriter
      safe_returned

run_until_stable-EndsStable_example : EndsStable policy safe_history
run_until_stable-EndsStable_example =
    run_until_stable-EndsStable (pos 50) safe_context policy safe_history safe_returned

run_until_stable-Returns_example : Returns (run_until_stable (pos 50) safe_context policy)
run_until_stable-Returns_example =
    run_until_stable-Returns safe_context policy 4 50 valid_input (omega arith) (omega arith)
      (omega arith) (omega arith)

-- The context at PROMOTING, the result of its reconciliation, and the theorems about them.
abbrev promoting_context : DrContext
promoting_context = record safe_context { state = promoting }

abbrev result_of : Result DrError TransitionResult → TransitionResult
result_of (ok r) = r
result_of (err e) = transition promoting_context hold stable promoting_context

abbrev promotion : TransitionResult
promotion = result_of (reconcile_once promoting_context policy)

promotion_returned : reconcile_once promoting_context policy ≡ ok promotion
unfolding machine
promotion_returned = refl

reconcile_once-Move_example : Move policy promoting_context promotion.context
reconcile_once-Move_example = reconcile_once-Move promoting_context policy promotion_returned

reconcile_once-Returns_iff_example :
    Returns (reconcile_once safe_context policy) ↔ IsValidInput safe_context policy
reconcile_once-Returns_iff_example = reconcile_once-Returns_iff safe_context policy

promotion_fences_old_tokens_example : IsTakenOver promoting_context promotion.context (pos 41)
promotion_fences_old_tokens_example =
    promotion_fences_old_tokens promoting_context policy (pos 41) refl refl promotion_returned
      (omega arith)

secondary-promoted_example :
    (promoting_context.state ≡ promoting)
    × (promotion.context ≡ promoted_context promoting_context policy)
unfolding machine
secondary-promoted_example =
    secondary-promoted promoting_context policy promotion_returned refl refl

reconcile_once-IsSmooth_example : IsSmooth promoting_context policy promotion.context
reconcile_once-IsSmooth_example =
    reconcile_once-IsSmooth promoting_context policy (omega arith) promotion_returned

traffic-Growth_example : Growth promoting_context policy promotion.context
unfolding machine
traffic-Growth_example =
    traffic-Growth promoting_context policy (omega arith) promotion_returned (omega arith)
