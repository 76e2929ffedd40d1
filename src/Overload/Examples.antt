-- ===== src/Overload/Examples.antt =====
-- The scenario of overload_lab.py as tests, and the theorems at concrete inputs.
use staff_sre_platform_engin.Shared.{
  with_margin, true, ◌*◌, ◌↔◌, ok, sum_by, ℕ, ◌+◌, ◌≤◌, String, false, List, [], ◌∷◌, ◌≡◌, refl,
  arith, map,
}
use staff_sre_platform_engin.Overload.Admission.{
  Priority, critical, optional, Request, AdmissionController, AdmissionReport, Usage, admitted,
  tenant_limit, new_controller, ordered, use_units, consider, consider_all, decision_of, admit,
}
use staff_sre_platform_engin.Overload.Replay.{
  ReplayPlan, batches_of, plan_replay, layered_retry_attempts, plan_replay-paced, Within, AreFull,
}
use staff_sre_platform_engin.Overload.Headroom.{
  Cell, insufficient_headroom, safe_to_shift, headroom, plan_failover, plan_failover-allowed_iff,
}

abbrev controller : AdmissionController
controller = record { capacity_units = 8; critical_reserve_units = 4; per_tenant_units = 3 }

abbrev request : String → String → Priority → ℕ → Request
request id tenant priority units = record {
  request_id = id;
  tenant = tenant;
  priority = priority;
  work_units = units;
}

abbrev requests : List Request
requests =
    request "c1" "tenant-a" critical 2
    ∷ request "c2" "tenant-b" critical 2
    ∷ request "o1" "tenant-a" optional 2
    ∷ request "o2" "tenant-c" optional 2
    ∷ request "o3" "tenant-d" optional 2
    ∷ []

-- To open this opens the admission.
report : AdmissionController → List Request → AdmissionReport
unfolding new_controller ordered use_units consider consider_all decision_of admit
report = admit

scenario_reasons :
    map (λ d. d.reason) (report controller requests).decisions
    ≡ admitted ∷ admitted ∷ tenant_limit ∷ admitted ∷ admitted ∷ []
unfolding report
scenario_reasons = refl

-- Two requests with one id share the decision that was made last, although eight units are consumed
-- for the first alone.
shared_id :
    map
      (λ d. d.admitted)
      (report
        (record controller { per_tenant_units = 8 })
        (request "x" "a" critical 8 ∷ request "x" "b" critical 1 ∷ [])).decisions
    ≡ false ∷ false ∷ []
unfolding report
shared_id = refl

abbrev used : Usage
used = record { consumed = 0; critical_consumed = 0; tenant_consumed = λ _. 0 }

plan_replay-paced_example :
    (plan : ReplayPlan) × (plan_replay (10 ∷ 20 ∷ 30 ∷ 60 ∷ 120 ∷ 600 ∷ []) 120 2 ≡ ok plan)
    × Within 120 (10 ∷ 20 ∷ 30 ∷ 60 ∷ 120 ∷ 600 ∷ []) plan.replayed
    × (plan.expired + plan.replayed ≡ 6)
    × (sum_by (λ n. n) plan.batches ≡ plan.replayed)
    × AreFull 2 plan.batches
plan_replay-paced_example =
    plan_replay-paced (10 ∷ 20 ∷ 30 ∷ 60 ∷ 120 ∷ 600 ∷ []) 120 2 (omega arith)

scenario_batches : batches_of 5 2 5 ≡ 2 ∷ 2 ∷ 1 ∷ []
unfolding batches_of
scenario_batches = refl

scenario_retries : layered_retry_attempts (2 ∷ 2 ∷ 2 ∷ []) ≡ 27
unfolding layered_retry_attempts
scenario_retries = refl

abbrev cell_b : Cell
cell_b = record { name = "cell-b"; capacity = 100; baseline_load = 70; is_healthy = true }

plan_failover-allowed_iff_example :
    ((plan_failover 20 cell_b 20).allowed ≡ true)
    ↔ ((true ≡ true) × (100 * 70 + 20 * (100 + 20) ≤ 100 * 100))
plan_failover-allowed_iff_example = plan_failover-allowed_iff 20 cell_b 20 (omega arith)

scenario_shifts :
    ((plan_failover 30 cell_b 20).reason ≡ insufficient_headroom)
    × ((plan_failover 20 cell_b 20).reason ≡ safe_to_shift)
unfolding plan_failover headroom with_margin
scenario_shifts = (refl, refl)
