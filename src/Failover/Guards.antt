-- ===== src/Failover/Guards.antt =====
-- dr_failover.py: validation, the eligibility of a destination, and the writer's token.
use staff_sre_platform_engin.Shared.{
  ℤ, pos, Bool, true, false, not, ◌&&◌, List, [], ◌∷◌, ltb_ℤ, leb_ℤ, eqb_ℤ, if◌then◌else◌, Result,
  ok, ◌>>◌, raise_if, str_eq,
}
use staff_sre_platform_engin.Failover.Types.{
  Region, DrPolicy, DrError, Failure, hundred, region_name_required, negative_capacity,
  negative_lag, negative_epoch, capacity_not_positive, negative_maximum_lag, bad_canary_percent,
  bad_traffic_step, negative_token_epoch, application_unhealthy, insufficient_capacity,
  dependency_unhealthy, identity_unhealthy, observability_unhealthy, replication_lag_exceeds_rpo,
  schema_incompatible, business_synthetic_failed,
}

unfoldable pub validate_region : Region → Result DrError (Unit {0})
validate_region r = do
  raise_if (str_eq r.name "") region_name_required
  raise_if (ltb_ℤ r.capacity_percent_of_peak (pos 0)) negative_capacity
  raise_if (ltb_ℤ r.replication_lag_seconds (pos 0)) negative_lag
  raise_if (ltb_ℤ r.writer_epoch (pos 0)) negative_epoch

-- `not 0 < x <= 100`
abbrev pub outside_percent : ℤ → Bool
outside_percent x = not (ltb_ℤ (pos 0) x && leb_ℤ x hundred)

unfoldable pub validate_policy : DrPolicy → Result DrError (Unit {0})
validate_policy p = do
  raise_if (leb_ℤ p.required_capacity_percent_of_peak (pos 0)) capacity_not_positive
  raise_if (ltb_ℤ p.maximum_replication_lag_seconds (pos 0)) negative_maximum_lag
  raise_if (outside_percent p.initial_canary_percent) bad_canary_percent
  raise_if (outside_percent p.maximum_traffic_step_percent) bad_traffic_step

-- The tests of `destination_eligibility` in their order, each with the code that it appends.
abbrev pub checks : Region → DrPolicy → List (Bool × Failure)
checks r p =
    (not r.application_healthy, application_unhealthy)
    ∷ (ltb_ℤ r.capacity_percent_of_peak p.required_capacity_percent_of_peak, insufficient_capacity)
    ∷ (not r.dependencies_healthy, dependency_unhealthy)
    ∷ (not r.identity_healthy, identity_unhealthy)
    ∷ (p.require_observability && not r.observability_healthy, observability_unhealthy)
    ∷ (
      ltb_ℤ p.maximum_replication_lag_seconds r.replication_lag_seconds,
      replication_lag_exceeds_rpo,
    )
    ∷ (not r.schema_compatible, schema_incompatible)
    ∷ (p.require_business_synthetic && not r.business_synthetic_healthy, business_synthetic_failed)
    ∷ []

-- `if bad: failures.append(code)`, for each test.
unfoldable pub collect : List (Bool × Failure) → List Failure
collect [] = []
collect ((bad, code) ∷ rest) = let codes = collect rest in if bad then code ∷ codes else codes

unfoldable pub failures_of : Region → DrPolicy → List Failure
unfolding collect
failures_of r p = collect (checks r p)

-- `not failures`
abbrev pub is_empty : List Failure → Bool
is_empty [] = true
is_empty (_ ∷ _) = false

unfoldable pub destination_eligibility : Region → DrPolicy → Result DrError (Bool × List Failure)
destination_eligibility r p = do
  validate_region r
  validate_policy p
  let failures = failures_of r p
  ok (is_empty failures, failures)

unfoldable pub write_allowed : Region → ℤ → Result DrError Bool
write_allowed r token_epoch = do
  validate_region r
  raise_if (ltb_ℤ token_epoch (pos 0)) negative_token_epoch
  ok (r.accepting_writes && eqb_ℤ token_epoch r.writer_epoch)
