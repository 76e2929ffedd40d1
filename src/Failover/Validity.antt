-- ===== src/Failover/Validity.antt =====
-- What the validation of dr_failover.py accepts, and when `reconcile_once` returns.
use staff_sre_platform_engin.Shared.{
  Returns, returns, pos, ◌≤ℤ◌, ◌<ℤ◌, ◌≡◌, ◌≢◌, ◌↔◌, Bool, List, eq_iff, arith, ok, >>=-eq-ok, refl,
  ◌>>=◌, if_ind, ◌&&◌,
}
use staff_sre_platform_engin.Failover.Types.{
  Region, Failure, DrPolicy, DrContext, TransitionResult, hundred, DrState, eligibility_check,
  canary, expanding, failback_prep,
}
use staff_sre_platform_engin.Failover.Guards.{
  validate_region, validate_policy, destination_eligibility, failures_of, is_empty,
}
use staff_sre_platform_engin.Failover.Step.{
  transition_of, reconcile_once, dispatch, on_eligibility_check, on_canary, on_expanding,
  on_failback_prep, shifts_traffic,
}

pub record IsValidRegion (r : Region) : Type 0 where
  pub named : r.name ≢ ""
  pub capacity_nonneg : pos 0 ≤ℤ r.capacity_percent_of_peak
  pub lag_nonneg : pos 0 ≤ℤ r.replication_lag_seconds
  pub epoch_nonneg : pos 0 ≤ℤ r.writer_epoch

pub record IsValidPolicy (p : DrPolicy) : Type 0 where
  pub capacity_pos : pos 0 <ℤ p.required_capacity_percent_of_peak
  pub lag_nonneg : pos 0 ≤ℤ p.maximum_replication_lag_seconds
  pub canary_pos : pos 0 <ℤ p.initial_canary_percent
  pub canary_le : p.initial_canary_percent ≤ℤ hundred
  pub step_pos : pos 0 <ℤ p.maximum_traffic_step_percent
  pub step_le : p.maximum_traffic_step_percent ≤ℤ hundred

pub validate_region_iff : (r : Region) → (validate_region r ≡ ok tt) ↔ IsValidRegion r
unfolding validate_region
validate_region_iff r =
    (λ h. ground (arith, eq_iff r.name ""), λ h. ground (arith, eq_iff r.name ""))

pub validate_policy_iff : (p : DrPolicy) → (validate_policy p ≡ ok tt) ↔ IsValidPolicy p
unfolding validate_policy
validate_policy_iff p = (λ h. ground arith, λ h. ground arith)

-- The inputs that `reconcile_once` accepts.
pub record IsValidInput (c : DrContext) (p : DrPolicy) : Type 0 where
  pub primary_valid : IsValidRegion c.primary
  pub secondary_valid : IsValidRegion c.secondary
  pub policy_valid : IsValidPolicy p

pub reconcile_once-IsValidInput :
    (c : DrContext) (p : DrPolicy) {r : TransitionResult}
    → reconcile_once c p ≡ ok r
    → IsValidInput c p
unfolding reconcile_once
reconcile_once-IsValidInput c p h =
    let (_, one, h₁) = >>=-eq-ok (validate_region c.primary) _ h in
    let (_, two, h₂) = >>=-eq-ok (validate_region c.secondary) _ h₁ in
    let (_, three, h₃) = >>=-eq-ok (validate_policy p) _ h₂ in
    record {
      primary_valid = (validate_region_iff c.primary).0 one;
      secondary_valid = (validate_region_iff c.secondary).0 two;
      policy_valid = (validate_policy_iff p).0 three;
    }

pub destination_eligibility_valid :
    (r : Region) (p : DrPolicy)
    → IsValidRegion r
    → IsValidPolicy p
    → destination_eligibility r p ≡ ok (is_empty (failures_of r p), failures_of r p)
unfolding destination_eligibility
destination_eligibility_valid r p hr hp =
    simp ((validate_region_iff r).1 hr, (validate_policy_iff p).1 hp)

after_eligibility-Returns :
    (r : Region) (p : DrPolicy) (f : Bool × List Failure → TransitionResult)
    → IsValidRegion r
    → IsValidPolicy p
    → Returns (destination_eligibility r p >>= λ v. ok (f v))
after_eligibility-Returns r p f hr hp =
    rw (destination_eligibility_valid r p hr hp) (returns _ refl)

dispatch-Returns :
    (s : DrState) (c : DrContext) (p : DrPolicy) → IsValidInput c p → Returns (dispatch s c p)
unfolding dispatch on_eligibility_check on_canary on_expanding on_failback_prep
dispatch-Returns eligibility_check c p v =
    after_eligibility-Returns c.secondary p _ v.secondary_valid v.policy_valid
dispatch-Returns canary c p v =
    after_eligibility-Returns c.secondary p _ v.secondary_valid v.policy_valid
dispatch-Returns expanding c p v =
    after_eligibility-Returns c.secondary p _ v.secondary_valid v.policy_valid
dispatch-Returns failback_prep c p v =
    after_eligibility-Returns c.primary p _ v.primary_valid v.policy_valid
dispatch-Returns _ c p v = returns _ refl

transition_of-Returns :
    (c : DrContext) (p : DrPolicy) → IsValidInput c p → Returns (transition_of c p)
unfolding transition_of
transition_of-Returns c p v =
    if_ind Returns c.data_inconsistency_detected (λ _. returns _ refl)
      λ _.
        if_ind Returns (c.fast_burn && shifts_traffic c.state) (λ _. returns _ refl)
          λ _. dispatch-Returns c.state c p v

pub reconcile_once_valid :
    (c : DrContext) (p : DrPolicy) → IsValidInput c p → reconcile_once c p ≡ transition_of c p
unfolding reconcile_once
reconcile_once_valid c p v = simp (
  (validate_region_iff c.primary).1 v.primary_valid,
  (validate_region_iff c.secondary).1 v.secondary_valid,
  (validate_policy_iff p).1 v.policy_valid,
)

-- A reconciliation returns a result exactly on the inputs that pass validation: no state is left
-- unhandled, and no error comes from behind the validation.
pub reconcile_once-Returns_iff :
    (c : DrContext) (p : DrPolicy) → Returns (reconcile_once c p) ↔ IsValidInput c p
reconcile_once-Returns_iff c p = (
  elim [ returns r h ↦ reconcile_once-IsValidInput c p h ],
  λ v. rw (reconcile_once_valid c p v) (transition_of-Returns c p v),
)
