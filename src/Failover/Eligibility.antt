-- ===== src/Failover/Eligibility.antt =====
-- What `destination_eligibility` decides, and what depends on it.
use staff_sre_platform_engin.Shared.{
  -ℤ_parts, All, pos, ◌≤ℤ◌, ◌<ℤ◌, ◌≡◌, ◌↔◌, ◌⊎◌, Bool, true, false, List, [], ◌∷◌, arith, ok, ap,
  refl, max_ℤ,
}
use staff_sre_platform_engin.Failover.Types.{
  Region, DrPolicy, DrContext, TransitionResult, Failure, DrState, promoting, failback_prep, canary,
  expanding,
}
use staff_sre_platform_engin.Failover.Guards.{failures_of, checks, collect}
use staff_sre_platform_engin.Failover.Step.{reconcile_once}
use staff_sre_platform_engin.Failover.Spec.{
  Move, stay, safety_stop, declare_outage, freeze, check, fence, elect, promote, grow, complete,
  prepare, fail_back, shrink, restore, reconcile_once-Move, lowered_traffic, at_traffic,
  promoted_context, failed_back_context,
}
use staff_sre_platform_engin.Failover.Validity.{IsValidPolicy, reconcile_once-IsValidInput}

-- A region that can take the traffic, under a policy.
pub record IsEligible (r : Region) (p : DrPolicy) : Type 0 where
  pub application : r.application_healthy ≡ true
  pub capacity : p.required_capacity_percent_of_peak ≤ℤ r.capacity_percent_of_peak
  pub dependencies : r.dependencies_healthy ≡ true
  pub identity : r.identity_healthy ≡ true
  pub observability : p.require_observability ≡ true → r.observability_healthy ≡ true
  pub recovery_point : r.replication_lag_seconds ≤ℤ p.maximum_replication_lag_seconds
  pub schema : r.schema_compatible ≡ true
  pub synthetic : p.require_business_synthetic ≡ true → r.business_synthetic_healthy ≡ true

collect-nil : (l : List (Bool × Failure)) → collect l ≡ [] → All (λ c. c.0 ≡ false) l
unfolding collect
collect-nil [] h = tt
collect-nil ((true, code) ∷ rest) h = absurd (cc h)
collect-nil ((false, code) ∷ rest) h = (refl, collect-nil rest h)

collect-All : (l : List (Bool × Failure)) → All (λ c. c.0 ≡ false) l → collect l ≡ []
unfolding collect
collect-All [] h = refl
collect-All ((bad, code) ∷ rest) h = rw h.0 (collect-All rest h.1)

-- No code is reported exactly when the region meets each of the eight conditions.
pub failures_of-nil_iff : (r : Region) (p : DrPolicy) → (failures_of r p ≡ []) ↔ IsEligible r p
unfolding failures_of
failures_of-nil_iff r p = (
  λ h. let passed = collect-nil (checks r p) h in ground arith,
  λ h. collect-All (checks r p) (ground arith),
)

lowered :
    (c : DrContext) (p : DrPolicy) {s : DrState} {d : DrContext}
    → d ≡ at_traffic c s (lowered_traffic c p)
    → IsValidPolicy p
    → pos 0 ≤ℤ c.traffic_percent_secondary
    → c.traffic_percent_secondary <ℤ d.traffic_percent_secondary
    → ⊥
unfolding max_ℤ
lowered c p e v z h =
    let e' = ap (λ (x : DrContext). x.traffic_percent_secondary) e in
    let parts = -ℤ_parts c.traffic_percent_secondary p.maximum_traffic_step_percent in
    ground (arith, e', parts, v.step_pos)

-- Why the share grows: the secondary is promoted, the primary is promoted and meets the conditions,
-- or a shift of traffic is under way to a secondary that meets them.
pub data Growth (c : DrContext) (p : DrPolicy) (d : DrContext) : Type 0 where
  secondary_takes_over : c.state ≡ promoting → d ≡ promoted_context c p → Growth c p d
  primary_takes_over :
      c.state ≡ failback_prep → IsEligible c.primary p → d ≡ failed_back_context c p → Growth c p d
  traffic_shifts :
      (c.state ≡ canary) ⊎ (c.state ≡ expanding) → IsEligible c.secondary p → Growth c p d

Move-Growth :
    {p : DrPolicy} {c d : DrContext}
    → Move p c d
    → IsValidPolicy p
    → pos 0 ≤ℤ c.traffic_percent_secondary
    → c.traffic_percent_secondary <ℤ d.traffic_percent_secondary
    → Growth c p d
Move-Growth (stay e) v z h = absurd (ground arith)
Move-Growth (safety_stop e) v z h = absurd (ground arith)
Move-Growth (declare_outage k s a e) v z h = absurd (ground arith)
Move-Growth (freeze k s a e) v z h = absurd (ground arith)
Move-Growth (check k s e) v z h = absurd (ground arith)
Move-Growth (fence k s a e) v z h = absurd (ground arith)
Move-Growth (elect k s a e) v z h = absurd (ground arith)
Move-Growth (promote k s e) v z h = secondary_takes_over s e
Move-Growth (grow k s a b e) v z h = traffic_shifts s ((failures_of-nil_iff _ _).0 a)
Move-Growth (complete k s a b e) v z h = traffic_shifts s ((failures_of-nil_iff _ _).0 a)
Move-Growth (prepare k s a b e) v z h = absurd (ground arith)
Move-Growth (fail_back k s a b e) v z h = primary_takes_over s ((failures_of-nil_iff _ _).0 a) e
Move-Growth {p} {c} (shrink k s a e) v z h = absurd (lowered c p e v z h)
Move-Growth {p} {c} (restore k s a e) v z h = absurd (lowered c p e v z h)

-- A reconciliation that returns and raises the secondary's share of the traffic, from a share that is
-- not negative, is one of three: the promotion of the secondary out of PROMOTING, with nothing said
-- of its eligibility there; the promotion of the primary out of FAILBACK_PREP, where the primary meets
-- each condition of the policy; or a step out of CANARY or EXPANDING while the secondary meets each of
-- them.
pub traffic-Growth :
    (c : DrContext) (p : DrPolicy) {r : TransitionResult}
    → pos 0 ≤ℤ c.traffic_percent_secondary
    → reconcile_once c p ≡ ok r
    → c.traffic_percent_secondary <ℤ r.context.traffic_percent_secondary
    → Growth c p r.context
traffic-Growth c p z e h =
    Move-Growth (reconcile_once-Move c p e) (reconcile_once-IsValidInput c p e).policy_valid z h
