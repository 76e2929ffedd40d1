-- ===== src/Failover/Spec.antt =====
-- The failover protocol as a relation between contexts, independent of the order in which
-- `reconcile_once` makes its tests, and the proof that every reconciliation is one of its moves.
use staff_sre_platform_engin.Shared.{
  if_ind, not-false, and-true, ℤ, pos, Bool, true, false, ◌&&◌, ◌≡◌, refl, List, [], ◌+ℤ◌, ◌-ℤ◌,
  max_ℤ, min_ℤ, leb_ℤ, ok, ◌>>=◌, Ensures, Ensures-bind, Ensures-at, inl, inr, ◌∷◌, not, ◌⊎◌,
}
use staff_sre_platform_engin.Failover.Types.{
  DrState, normal, assess, frozen, eligibility_check, fencing, promoting, canary, expanding,
  recovered_secondary, hold_read_only, failback_prep, failback_canary, normal_restored, Region,
  Failure, Reason, DrPolicy, DrContext, TransitionResult, hundred, canary_healthy,
  guardrails_healthy,
}
use staff_sre_platform_engin.Failover.Guards.{
  failures_of, is_empty, destination_eligibility, validate_region, validate_policy,
}
use staff_sre_platform_engin.Failover.Step.{
  goto, next_epoch, shifts_traffic, dispatch, transition_of, reconcile_once, on_normal, on_assess,
  on_frozen, on_eligibility_check, on_fencing, on_promoting, expand, on_canary, on_expanding,
  on_recovered_secondary, on_failback_prep, on_failback_canary,
}

-- The contexts behind the moves that change more than the state.
abbrev pub frozen_context : DrContext → DrContext
frozen_context c = record c { state = frozen; global_change_freeze = true }

abbrev pub promoted_context : DrContext → DrPolicy → DrContext
promoted_context c p = record c {
  primary = record c.primary { accepting_writes = false };
  secondary = record c.secondary { accepting_writes = true; writer_epoch = next_epoch c };
  state = canary;
  traffic_percent_secondary = p.initial_canary_percent;
}

abbrev pub failed_back_context : DrContext → DrPolicy → DrContext
failed_back_context c p = record c {
  primary = record c.primary { accepting_writes = true; writer_epoch = next_epoch c };
  secondary = record c.secondary { accepting_writes = false };
  state = failback_canary;
  traffic_percent_secondary = max_ℤ (pos 0) (hundred -ℤ p.initial_canary_percent);
}

abbrev pub raised_traffic : DrContext → DrPolicy → ℤ
raised_traffic c p = min_ℤ hundred (c.traffic_percent_secondary +ℤ p.maximum_traffic_step_percent)

abbrev pub lowered_traffic : DrContext → DrPolicy → ℤ
lowered_traffic c p = max_ℤ (pos 0) (c.traffic_percent_secondary -ℤ p.maximum_traffic_step_percent)

abbrev pub at_traffic : DrContext → DrState → ℤ → DrContext
at_traffic c s t = record c { state = s; traffic_percent_secondary = t }

-- Neither of the two conditions that stop a run holds.
pub record IsClear (c : DrContext) : Type 0 where
  pub consistent : c.data_inconsistency_detected ≡ false
  pub not_burning : (c.fast_burn && shifts_traffic c.state) ≡ false

pub data Move (p : DrPolicy) (c d : DrContext) : Type 0 where
  stay : d ≡ c → Move p c d
  safety_stop : d ≡ goto c hold_read_only → Move p c d
  declare_outage :
      IsClear c
      → c.state ≡ normal
      → c.primary.application_healthy ≡ false
      → d ≡ goto c assess
      → Move p c d
  freeze :
      IsClear c
      → c.state ≡ assess
      → c.incident_commander_assigned ≡ true
      → d ≡ frozen_context c
      → Move p c d
  check : IsClear c → c.state ≡ frozen → d ≡ goto c eligibility_check → Move p c d
  fence :
      IsClear c
      → c.state ≡ eligibility_check
      → failures_of c.secondary p ≡ []
      → d ≡ goto c fencing
      → Move p c d
  elect :
      IsClear c → c.state ≡ fencing → c.old_writer_fenced ≡ true → d ≡ goto c promoting → Move p c d
  promote : IsClear c → c.state ≡ promoting → d ≡ promoted_context c p → Move p c d
  grow :
      IsClear c
      → (c.state ≡ canary) ⊎ (c.state ≡ expanding)
      → failures_of c.secondary p ≡ []
      → leb_ℤ hundred (raised_traffic c p) ≡ false
      → d ≡ at_traffic c expanding (raised_traffic c p)
      → Move p c d
  complete :
      IsClear c
      → (c.state ≡ canary) ⊎ (c.state ≡ expanding)
      → failures_of c.secondary p ≡ []
      → leb_ℤ hundred (raised_traffic c p) ≡ true
      → d ≡ at_traffic c recovered_secondary (raised_traffic c p)
      → Move p c d
  prepare :
      IsClear c
      → c.state ≡ recovered_secondary
      → c.original_region_rebuilt ≡ true
      → c.failback_replication_healthy ≡ true
      → d ≡ goto c failback_prep
      → Move p c d
  fail_back :
      IsClear c
      → c.state ≡ failback_prep
      → failures_of c.primary p ≡ []
      → c.failback_replication_healthy ≡ true
      → d ≡ failed_back_context c p
      → Move p c d
  shrink :
      IsClear c
      → c.state ≡ failback_canary
      → leb_ℤ (lowered_traffic c p) (pos 0) ≡ false
      → d ≡ at_traffic c failback_canary (lowered_traffic c p)
      → Move p c d
  restore :
      IsClear c
      → c.state ≡ failback_canary
      → leb_ℤ (lowered_traffic c p) (pos 0) ≡ true
      → d ≡ at_traffic c normal_restored (lowered_traffic c p)
      → Move p c d

abbrev MovesTo : DrContext → DrPolicy → TransitionResult → Type 0
MovesTo c p r = Move p c r.context

destination_eligibility_lem :
    (r : Region) (p : DrPolicy)
    → Ensures (λ v. v ≡ (is_empty (failures_of r p), failures_of r p)) (destination_eligibility r p)
unfolding destination_eligibility
destination_eligibility_lem r p =
    Ensures-bind _ (validate_region r) _ λ _ _. Ensures-bind _ (validate_policy p) _ λ _ _. refl

is_empty→≡ : (l : List Failure) → is_empty l ≡ true → l ≡ []
is_empty→≡ [] h = refl
is_empty→≡ (x ∷ l) h = cc

-- The rule for the handlers that ask whether a region is eligible.
after_eligibility :
    (r : Region) (p : DrPolicy) (P : TransitionResult → Type 0)
    (f : Bool × List Failure → TransitionResult)
    → (failures_of r p ≡ [] → (l : List Failure) → P (f (true, l)))
    → ((l : List Failure) → P (f (false, l)))
    → Ensures P (destination_eligibility r p >>= λ v. ok (f v))
after_eligibility r p P f fit unfit = Ensures-bind P (destination_eligibility r p) _ λ v e.
    rw (Ensures-at _ _ (destination_eligibility_lem r p) e) (cases (is_empty fs) fs (is_empty→≡ fs))
  where
    fs : List Failure
    fs = failures_of r p

    cases : (b : Bool) (l : List Failure) → (b ≡ true → fs ≡ []) → P (f (b, l))
    cases true l h = fit (h refl) l
    cases false l h = unfit l

expand-Move :
    (c : DrContext) (p : DrPolicy) (why : Reason)
    → IsClear c
    → (c.state ≡ canary) ⊎ (c.state ≡ expanding)
    → failures_of c.secondary p ≡ []
    → MovesTo c p (expand c p why)
unfolding expand
expand-Move c p why k s fits =
    if_ind (λ t. Move p c (at_traffic c t (raised_traffic c p))) _
      (λ full. complete k s fits full refl) (λ part. grow k s fits part refl)

on_failback_canary-Move :
    (c : DrContext) (p : DrPolicy)
    → IsClear c
    → c.state ≡ failback_canary
    → MovesTo c p (on_failback_canary c p)
unfolding on_failback_canary
on_failback_canary-Move c p k s =
    if_ind (λ t. Move p c (at_traffic c t (lowered_traffic c p))) _
      (λ empty. restore k s empty refl) (λ part. shrink k s part refl)

on_failback_prep-Move :
    (c : DrContext) (p : DrPolicy)
    → IsClear c
    → c.state ≡ failback_prep
    → Ensures (MovesTo c p) (on_failback_prep c p)
unfolding on_failback_prep
on_failback_prep-Move c p k s =
    after_eligibility c.primary p (MovesTo c p) _
      (λ fits l.
        if_ind (MovesTo c p) (not c.failback_replication_healthy) (λ _. stay refl)
          (λ good. fail_back k s fits (not-false _ good) refl))
      (λ l. stay refl)

dispatch-Move :
    (s : DrState) (c : DrContext) (p : DrPolicy)
    → IsClear c
    → c.state ≡ s
    → Ensures (MovesTo c p) (dispatch s c p)
unfolding dispatch on_normal on_assess on_frozen on_eligibility_check on_fencing on_promoting
    on_canary on_expanding on_recovered_secondary
dispatch-Move normal c p k s =
    if_ind (MovesTo c p) _ (λ _. stay refl) (λ down. declare_outage k s down refl)
dispatch-Move assess c p k s =
    if_ind (MovesTo c p) _ (λ _. stay refl) (λ there. freeze k s (not-false _ there) refl)
dispatch-Move frozen c p k s = check k s refl
dispatch-Move eligibility_check c p k s =
    after_eligibility c.secondary p (MovesTo c p) _ (λ fits l. fence k s fits refl)
      (λ l. safety_stop refl)
dispatch-Move fencing c p k s =
    if_ind (MovesTo c p) _ (λ _. stay refl) (λ fenced. elect k s (not-false _ fenced) refl)
dispatch-Move promoting c p k s = promote k s refl
dispatch-Move canary c p k s =
    after_eligibility c.secondary p (MovesTo c p) _
      (λ fits l. expand-Move c p canary_healthy k (inl s) fits) (λ l. safety_stop refl)
dispatch-Move expanding c p k s =
    after_eligibility c.secondary p (MovesTo c p) _
      (λ fits l. expand-Move c p guardrails_healthy k (inr s) fits) (λ l. safety_stop refl)
dispatch-Move recovered_secondary c p k s =
    if_ind (MovesTo c p) _
      (λ both. let (built, good) = and-true _ _ both in prepare k s built good refl)
      (λ _. stay refl)
dispatch-Move failback_prep c p k s = on_failback_prep-Move c p k s
dispatch-Move failback_canary c p k s = on_failback_canary-Move c p k s
dispatch-Move normal_restored c p k s = stay refl
dispatch-Move hold_read_only c p k s = stay refl

transition_of-Move : (c : DrContext) (p : DrPolicy) → Ensures (MovesTo c p) (transition_of c p)
unfolding transition_of
transition_of-Move c p =
    if_ind (Ensures (MovesTo c p)) _ (λ _. safety_stop refl)
      λ good.
        if_ind (Ensures (MovesTo c p)) _ (λ _. safety_stop refl)
          λ calm. dispatch-Move c.state c p (record { consistent = good; not_burning = calm }) refl

-- Every reconciliation that returns is a move of the protocol.
pub reconcile_once-Move :
    (c : DrContext) (p : DrPolicy) {r : TransitionResult}
    → reconcile_once c p ≡ ok r
    → Move p c r.context
unfolding reconcile_once
reconcile_once-Move c p h =
    Ensures-at (MovesTo c p) (reconcile_once c p)
      (Ensures-bind _ (validate_region c.primary) _ λ _ _.
        Ensures-bind _ (validate_region c.secondary) _
          λ _ _. Ensures-bind _ (validate_policy p) _ λ _ _. transition_of-Move c p)
      h
