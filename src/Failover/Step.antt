-- ===== src/Failover/Step.antt =====
-- dr_failover.py: `reconcile_once`, one handler for each state, and `run_until_stable`.
use staff_sre_platform_engin.Shared.{
  ℕ, zero, suc, ℤ, pos, negsuc, Bool, true, false, not, ◌&&◌, ◌||◌, List, [], ◌∷◌, ◌+ℤ◌, ◌-ℤ◌,
  max_ℤ, min_ℤ, leb_ℤ, if◌then◌else◌, Result, ok, err, ◌>>=◌, ◌>>◌,
}
use staff_sre_platform_engin.Failover.Types.{
  DrState, normal, assess, frozen, eligibility_check, fencing, promoting, canary, expanding,
  recovered_secondary, hold_read_only, failback_prep, failback_canary, normal_restored, DrPolicy,
  DrContext, TransitionResult, Action, Reason, hold_read_only_action, abort_traffic_shift, observe,
  declare_assessment, hold, freeze_changes, check_destination, fence_old_writer,
  promote_secondary_writer, start_canary, abort_canary, expand_traffic, prepare_failback,
  operate_and_reprotect, start_failback_canary, expand_failback, needs_human_reconciliation,
  fast_burn_detected, primary_healthy, primary_unhealthy, no_commander, command_established,
  freeze_active, destination_eligible, fencing_not_proven, old_writer_is_fenced, canary_healthy,
  guardrails_healthy, region_rebuilt, secondary_authoritative, failback_healthy, stable,
  destination_ineligible, lost_eligibility, failback_ineligible, secondary_promoted,
  original_promoted, DrError, not_stabilized, hundred, DrContext-discrete, steps_not_positive,
}
use staff_sre_platform_engin.Failover.Guards.{
  validate_region, validate_policy, destination_eligibility,
}

-- `TransitionResult(previous, state, action, reason, context)`, where `previous` is the state of
-- the context before the step and `context` carries the next state.
abbrev pub transition : DrContext → Action → Reason → DrContext → TransitionResult
transition c a why next = record {
  previous_state = c.state;
  next_state = next.state;
  action = a;
  reason = why;
  context = next;
}

-- `replace(context, state=...)`
abbrev pub goto : DrContext → DrState → DrContext
goto c s = record c { state = s }

unfoldable pub on_normal : DrContext → TransitionResult
on_normal c =
    if c.primary.application_healthy
    then transition c observe primary_healthy c
    else transition c declare_assessment primary_unhealthy (goto c assess)

unfoldable pub on_assess : DrContext → TransitionResult
on_assess c =
    if not c.incident_commander_assigned
    then transition c hold no_commander c
    else transition c freeze_changes command_established
        (record c { state = frozen; global_change_freeze = true })

unfoldable pub on_frozen : DrContext → TransitionResult
on_frozen c = transition c check_destination freeze_active (goto c eligibility_check)

unfoldable pub on_eligibility_check : DrContext → DrPolicy → Result DrError TransitionResult
on_eligibility_check c p = do
  (eligible, failures) ← destination_eligibility c.secondary p
  ok (
      if not eligible
      then transition c hold_read_only_action (destination_ineligible failures)
          (goto c hold_read_only)
      else transition c fence_old_writer destination_eligible (goto c fencing))

unfoldable pub on_fencing : DrContext → TransitionResult
on_fencing c =
    if not c.old_writer_fenced
    then transition c hold fencing_not_proven c
    else transition c promote_secondary_writer old_writer_is_fenced (goto c promoting)

-- `max(context.primary.writer_epoch, context.secondary.writer_epoch) + 1`
abbrev pub next_epoch : DrContext → ℤ
next_epoch c = max_ℤ c.primary.writer_epoch c.secondary.writer_epoch +ℤ pos 1

unfoldable pub on_promoting : DrContext → DrPolicy → TransitionResult
on_promoting c p = transition c start_canary (secondary_promoted (next_epoch c)) (record c {
  primary = record c.primary { accepting_writes = false };
  secondary = record c.secondary { accepting_writes = true; writer_epoch = next_epoch c };
  state = canary;
  traffic_percent_secondary = p.initial_canary_percent;
})

-- The end that CANARY and EXPANDING share: `next_percent`, `next_state` and the result.
unfoldable pub expand : DrContext → DrPolicy → Reason → TransitionResult
expand c p why =
    let next_percent =
      min_ℤ hundred (c.traffic_percent_secondary +ℤ p.maximum_traffic_step_percent) in
    transition c expand_traffic why (record c {
      state = if leb_ℤ hundred next_percent then recovered_secondary else expanding;
      traffic_percent_secondary = next_percent;
    })

unfoldable pub on_canary : DrContext → DrPolicy → Result DrError TransitionResult
unfolding expand
on_canary c p = do
  (eligible, failures) ← destination_eligibility c.secondary p
  ok (
      if not eligible
      then transition c abort_canary (lost_eligibility failures) (goto c hold_read_only)
      else expand c p canary_healthy)

unfoldable pub on_expanding : DrContext → DrPolicy → Result DrError TransitionResult
unfolding expand
on_expanding c p = do
  (eligible, failures) ← destination_eligibility c.secondary p
  ok (
      if not eligible
      then transition c hold_read_only_action (lost_eligibility failures) (goto c hold_read_only)
      else expand c p guardrails_healthy)

unfoldable pub on_recovered_secondary : DrContext → TransitionResult
on_recovered_secondary c =
    if c.original_region_rebuilt && c.failback_replication_healthy
    then transition c prepare_failback region_rebuilt (goto c failback_prep)
    else transition c operate_and_reprotect secondary_authoritative c

unfoldable pub on_failback_prep : DrContext → DrPolicy → Result DrError TransitionResult
on_failback_prep c p = do
  (eligible, failures) ← destination_eligibility c.primary p
  ok (
      if not eligible || not c.failback_replication_healthy
      then transition c hold (failback_ineligible failures) c
      else transition c start_failback_canary (original_promoted (next_epoch c)) (record c {
        primary = record c.primary { accepting_writes = true; writer_epoch = next_epoch c };
        secondary = record c.secondary { accepting_writes = false };
        state = failback_canary;
        traffic_percent_secondary = max_ℤ (pos 0) (hundred -ℤ p.initial_canary_percent);
      }))

unfoldable pub on_failback_canary : DrContext → DrPolicy → TransitionResult
on_failback_canary c p =
    let next_secondary_percent =
      max_ℤ (pos 0) (c.traffic_percent_secondary -ℤ p.maximum_traffic_step_percent) in
    transition c expand_failback failback_healthy (record c {
      state = if leb_ℤ next_secondary_percent (pos 0) then normal_restored else failback_canary;
      traffic_percent_secondary = next_secondary_percent;
    })

-- The chain of tests on `context.state`.
unfoldable pub dispatch : DrState → DrContext → DrPolicy → Result DrError TransitionResult
dispatch normal c p = ok (on_normal c)
dispatch assess c p = ok (on_assess c)
dispatch frozen c p = ok (on_frozen c)
dispatch eligibility_check c p = on_eligibility_check c p
dispatch fencing c p = ok (on_fencing c)
dispatch promoting c p = ok (on_promoting c p)
dispatch canary c p = on_canary c p
dispatch expanding c p = on_expanding c p
dispatch recovered_secondary c p = ok (on_recovered_secondary c)
dispatch failback_prep c p = on_failback_prep c p
dispatch failback_canary c p = ok (on_failback_canary c p)
dispatch normal_restored c p = ok (transition c hold stable c)
dispatch hold_read_only c p = ok (transition c hold stable c)

-- `context.state in {CANARY, EXPANDING, FAILBACK_CANARY}`
abbrev pub shifts_traffic : DrState → Bool
shifts_traffic canary = true
shifts_traffic expanding = true
shifts_traffic failback_canary = true
shifts_traffic _ = false

-- `reconcile_once` behind its validation: the two stops that come first, and the state's handler.
unfoldable pub transition_of : DrContext → DrPolicy → Result DrError TransitionResult
transition_of c p =
    if c.data_inconsistency_detected
    then ok (transition c hold_read_only_action needs_human_reconciliation (goto c hold_read_only))
    else if c.fast_burn && shifts_traffic c.state
    then ok (transition c abort_traffic_shift fast_burn_detected (goto c hold_read_only))
    else dispatch c.state c p

unfoldable pub reconcile_once : DrContext → DrPolicy → Result DrError TransitionResult
reconcile_once c p = do
  validate_region c.primary
  validate_region c.secondary
  validate_policy p
  transition_of c p

-- The `for` loop, on the rounds left; it returns what is appended to `history`. `break` ends it, and
-- running out of rounds is the `else` branch.
unfoldable pub run_rounds : ℕ → DrContext → DrPolicy → Result DrError (List TransitionResult)
run_rounds zero c p = err not_stabilized
run_rounds (suc rounds) c p = do
  result ← reconcile_once c p
  let continue = (do rest ← run_rounds rounds result.context p; ok (result ∷ rest))
  elim (DrContext-discrete result.context c) [ yes _ ↦ ok (result ∷ []) | no _ ↦ continue ]

unfoldable pub run_until_stable : ℤ → DrContext → DrPolicy → Result DrError (List TransitionResult)
unfolding run_rounds
run_until_stable (pos zero) c p = err steps_not_positive
run_until_stable (pos (suc rounds)) c p = run_rounds (suc rounds) c p
run_until_stable (negsuc n) c p = err steps_not_positive
