-- ===== src/Failover/Termination.antt =====
-- How many rounds `run_until_stable` of dr_failover.py needs.
use staff_sre_platform_engin.Shared.{
  ◌∙◌, ℕ, zero, suc, ◌+◌, ◌*◌, ◌≤◌, ℤ, pos, negsuc, pos_part, ◌≤ℤ◌, ◌≡◌, ◌≢◌, refl, ◌⊎◌, inl, inr,
  arith, ok, Returns, returns, [], ◌∷◌, ap, subst, ◌>>=◌, sym, false, ◌-ℤ◌, +ℤ_parts, -ℤ_parts,
  max_ℤ, min_ℤ, leb_ℤ,
}
use staff_sre_platform_engin.Failover.Types.{
  DrPolicy, DrContext, DrState, TransitionResult, hundred, normal, assess, frozen,
  eligibility_check, fencing, promoting, canary, expanding, recovered_secondary, hold_read_only,
  failback_prep, failback_canary, normal_restored,
}
use staff_sre_platform_engin.Failover.Step.{run_rounds, run_until_stable}
use staff_sre_platform_engin.Failover.Spec.{
  Move, stay, safety_stop, declare_outage, freeze, check, fence, elect, promote, grow, complete,
  prepare, fail_back, shrink, restore, reconcile_once-Move, lowered_traffic, raised_traffic,
}
use staff_sre_platform_engin.Failover.Validity.{
  IsValidPolicy, IsValidInput, reconcile_once-Returns_iff,
}
use staff_sre_platform_engin.Failover.Inputs.{Move-IsValidInput}
use staff_sre_platform_engin.Failover.Traffic.{IsPercent, reconcile_once-IsSmooth}

-- `k` traffic steps of `s` cover the whole traffic.
abbrev pub Covers : ℕ → DrPolicy → Type 0
Covers k p = 100000 ≤ k * pos_part p.maximum_traffic_step_percent

-- `n` rounds are enough from a state, where `t` is the secondary's share and `s` the traffic step: `j` is the
-- number of steps that the shift under way still takes, and `k` that of a whole shift.
abbrev Enough : DrState → (k n t s : ℕ) → Type 0
Enough normal k n t s = k + k + 10 ≤ n
Enough assess k n t s = k + k + 9 ≤ n
Enough frozen k n t s = k + k + 8 ≤ n
Enough eligibility_check k n t s = k + k + 7 ≤ n
Enough fencing k n t s = k + k + 6 ≤ n
Enough promoting k n t s = k + k + 5 ≤ n
Enough canary k n t s = (j : ℕ) × (1 ≤ j) × (100000 ≤ t + j * s) × (j + k + 4 ≤ n)
Enough expanding k n t s = (j : ℕ) × (1 ≤ j) × (100000 ≤ t + j * s) × (j + k + 4 ≤ n)
Enough recovered_secondary k n t s = k + 4 ≤ n
Enough failback_prep k n t s = k + 3 ≤ n
Enough failback_canary k n t s = (j : ℕ) × (1 ≤ j) × (t ≤ j * s) × (j + 2 ≤ n)
Enough normal_restored k n t s = 2 ≤ n
Enough hold_read_only k n t s = 1 ≤ n

abbrev EnoughFor : ℕ → ℕ → DrPolicy → DrContext → Type 0
EnoughFor k n p c =
    Enough c.state k n (pos_part c.traffic_percent_secondary)
      (pos_part p.maximum_traffic_step_percent)

-- The bound for a whole run is enough from every state.
Enough-start :
    (s : DrState) (k n t u : ℕ)
    → 1 ≤ k
    → 100000 ≤ k * u
    → t ≤ 100000
    → k + k + 10 ≤ n
    → Enough s k n t u
Enough-start normal k n t u a b c h = h
Enough-start assess k n t u a b c h = omega arith
Enough-start frozen k n t u a b c h = omega arith
Enough-start eligibility_check k n t u a b c h = omega arith
Enough-start fencing k n t u a b c h = omega arith
Enough-start promoting k n t u a b c h = omega arith
Enough-start canary k n t u a b c h = (k, a, omega arith, omega arith)
Enough-start expanding k n t u a b c h = (k, a, omega arith, omega arith)
Enough-start recovered_secondary k n t u a b c h = omega arith
Enough-start failback_prep k n t u a b c h = omega arith
Enough-start failback_canary k n t u a b c h = (k, a, omega arith, omega arith)
Enough-start normal_restored k n t u a b c h = omega arith
Enough-start hold_read_only k n t u a b c h = omega arith

-- A state that is not at rest leaves a round for the stop.
Enough-stop : (s : DrState) (k n t u : ℕ) → Enough s k (suc n) t u → (1 ≤ n) ⊎ (s ≡ hold_read_only)
Enough-stop normal k n t u h = inl (omega arith)
Enough-stop assess k n t u h = inl (omega arith)
Enough-stop frozen k n t u h = inl (omega arith)
Enough-stop eligibility_check k n t u h = inl (omega arith)
Enough-stop fencing k n t u h = inl (omega arith)
Enough-stop promoting k n t u h = inl (omega arith)
Enough-stop canary k n t u (j, a, b, h) = inl (omega arith)
Enough-stop expanding k n t u (j, a, b, h) = inl (omega arith)
Enough-stop recovered_secondary k n t u h = inl (omega arith)
Enough-stop failback_prep k n t u h = inl (omega arith)
Enough-stop failback_canary k n t u (j, a, b, h) = inl (omega arith)
Enough-stop normal_restored k n t u h = inl (omega arith)
Enough-stop hold_read_only k n t u h = inr refl

abbrev AtState : DrContext → ℕ → ℕ → DrPolicy → DrState → Type 0
AtState c k n p s =
    Enough s k n (pos_part c.traffic_percent_secondary) (pos_part p.maximum_traffic_step_percent)

abbrev AtTrafficLeft : ℕ → ℕ → DrPolicy → ℤ → Type 0
AtTrafficLeft k n p t = Enough expanding k n (pos_part t) (pos_part p.maximum_traffic_step_percent)

abbrev AtFailbackLeft : ℕ → ℕ → DrPolicy → ℤ → Type 0
AtFailbackLeft k n p t =
    Enough failback_canary k n (pos_part t) (pos_part p.maximum_traffic_step_percent)

module _ (c : DrContext) (p : DrPolicy) (k n : ℕ) (v : IsValidPolicy p)
    (percent : IsPercent c.traffic_percent_secondary) (some_step : 1 ≤ k) (covers : Covers k p)
    (h : EnoughFor k (suc n) p c) where
  from : {s : DrState} → c.state ≡ s → AtState c k (suc n) p s
  from e = subst (AtState c k (suc n) p) e h

  to : {d e : DrContext} → d ≡ e → EnoughFor k n p e → EnoughFor k n p d
  to e x = subst (EnoughFor k n p) (sym e) x

  raised_value :
      leb_ℤ hundred (raised_traffic c p) ≡ false
      → (pos_part (raised_traffic c p)
          ≡ pos_part c.traffic_percent_secondary + pos_part p.maximum_traffic_step_percent)
        × (pos_part (raised_traffic c p) + 1 ≤ 100000)
  unfolding min_ℤ
  raised_value part =
      let sum = +ℤ_parts c.traffic_percent_secondary p.maximum_traffic_step_percent in
      ground (arith, v.step_pos)

  lowered_value :
      leb_ℤ (lowered_traffic c p) (pos 0) ≡ false
      → (pos_part (lowered_traffic c p) + pos_part p.maximum_traffic_step_percent
          ≡ pos_part c.traffic_percent_secondary)
        × (1 ≤ pos_part (lowered_traffic c p))
  unfolding max_ℤ
  lowered_value part =
      let less = -ℤ_parts c.traffic_percent_secondary p.maximum_traffic_step_percent in
      ground (arith, v.step_pos)

  raised_left :
      (j : ℕ)
      → 1 ≤ j
      → 100000 ≤ pos_part c.traffic_percent_secondary + j * pos_part p.maximum_traffic_step_percent
      → leb_ℤ hundred (raised_traffic c p) ≡ false
      → j + k + 4 ≤ suc n
      → AtTrafficLeft k n p (raised_traffic c p)
  raised_left zero a b part m = absurd (omega arith)
  raised_left (suc zero) a b part m = absurd (omega (arith, raised_value part))
  raised_left (suc (suc i)) a b part m =
      (suc i, omega arith, omega (arith, raised_value part), omega arith)

  lowered_left :
      (j : ℕ)
      → 1 ≤ j
      → pos_part c.traffic_percent_secondary ≤ j * pos_part p.maximum_traffic_step_percent
      → leb_ℤ (lowered_traffic c p) (pos 0) ≡ false
      → j + 2 ≤ suc n
      → AtFailbackLeft k n p (lowered_traffic c p)
  lowered_left zero a b part m = absurd (omega arith)
  lowered_left (suc zero) a b part m = absurd (omega (arith, lowered_value part))
  lowered_left (suc (suc i)) a b part m =
      (suc i, omega arith, omega (arith, lowered_value part), omega arith)

  from_shift : (c.state ≡ canary) ⊎ (c.state ≡ expanding) → AtState c k (suc n) p expanding
  from_shift (inl s) = from s
  from_shift (inr s) = from s

  complement_covered : pos_part (max_ℤ (pos 0) (hundred -ℤ p.initial_canary_percent)) ≤ 100000
  unfolding max_ℤ
  complement_covered = let less = -ℤ_parts hundred p.initial_canary_percent in ground arith

  Move-Enough : {d : DrContext} → Move p c d → (d ≡ c) ⊎ EnoughFor k n p d
  Move-Enough (stay e) = inl e
  Move-Enough (safety_stop e) = elim (Enough-stop c.state k n _ _ h) [
    | inl more ↦ inr (to e more)
    | inr s ↦ inl (e ∙ ap (λ x. record c { state = x }) (sym s))
  ]
  Move-Enough (declare_outage q s a e) = inr (to e (let m = from s in omega arith))
  Move-Enough (freeze q s a e) = inr (to e (let m = from s in omega arith))
  Move-Enough (check q s e) = inr (to e (let m = from s in omega arith))
  Move-Enough (fence q s a e) = inr (to e (let m = from s in omega arith))
  Move-Enough (elect q s a e) = inr (to e (let m = from s in omega arith))
  Move-Enough (promote q s e) =
      inr (to e (k, some_step, omega arith, (let m = from s in omega arith)))
  Move-Enough (grow q s a b e) =
      let (j, x, y, m) = from_shift s in inr (to e (raised_left j x y b m))
  Move-Enough (complete q s a b e) = let (j, x, y, m) = from_shift s in inr (to e (omega arith))
  Move-Enough (prepare q s a b e) = inr (to e (let m = from s in omega arith))
  Move-Enough (fail_back q s a b e) =
      inr (to e (k, some_step, omega (arith, complement_covered), (let m = from s in omega arith)))
  Move-Enough (shrink q s a e) = let (j, x, y, m) = from s in inr (to e (lowered_left j x y a m))
  Move-Enough (restore q s a e) = let (j, x, y, m) = from s in inr (to e (omega arith))

Enough-zero : (s : DrState) (k t u : ℕ) → Enough s k 0 t u → ⊥
Enough-zero normal k t u h = omega arith
Enough-zero assess k t u h = omega arith
Enough-zero frozen k t u h = omega arith
Enough-zero eligibility_check k t u h = omega arith
Enough-zero fencing k t u h = omega arith
Enough-zero promoting k t u h = omega arith
Enough-zero canary k t u (j, a, b, h) = omega arith
Enough-zero expanding k t u (j, a, b, h) = omega arith
Enough-zero recovered_secondary k t u h = omega arith
Enough-zero failback_prep k t u h = omega arith
Enough-zero failback_canary k t u (j, a, b, h) = omega arith
Enough-zero normal_restored k t u h = omega arith
Enough-zero hold_read_only k t u h = omega arith

-- The end of one round, on the decision that `run_rounds` makes.
round-Returns :
    (n : ℕ) (c : DrContext) (p : DrPolicy) (r : TransitionResult) (d : Dec (r.context ≡ c))
    → (r.context ≢ c → Returns (run_rounds n r.context p))
    → Returns (elim d [
      | yes _ ↦ ok (r ∷ [])
      | no _ ↦ (do rest ← run_rounds n r.context p; ok (r ∷ rest))
    ])
round-Returns n c p r (yes _) f = returns _ refl
round-Returns n c p r (no other) f = elim (f other) [ returns rest e ↦ rw e (returns _ refl) ]

run_rounds-Returns :
    (p : DrPolicy) (k : ℕ)
    → 1 ≤ k
    → Covers k p
    → (n : ℕ) (c : DrContext) → IsValidInput c p
    → IsPercent c.traffic_percent_secondary
    → EnoughFor k n p c
    → Returns (run_rounds n c p)
unfolding run_rounds
run_rounds-Returns p k a b zero c v h m = absurd (Enough-zero c.state k _ _ m)
run_rounds-Returns p k a b (suc n) c v h m = elim ((reconcile_once-Returns_iff c p).1 v) [
  | returns r got ↦
      let move = reconcile_once-Move c p got in
      let step =
        run_rounds-Returns p k a b n r.context (Move-IsValidInput v move)
          (reconcile_once-IsSmooth c p h got).percent in
      rw got (
        round-Returns n c p r _ (λ other. elim (Move-Enough c p k n v.policy_valid h a b m move) [
          | inl same ↦ absurd (other same)
          | inr left ↦ step left
        ]))
]

pos_part-le : (t : ℤ) → t ≤ℤ hundred → pos_part t ≤ 100000
pos_part-le (pos n) h = omega arith
pos_part-le (negsuc n) h = omega arith

-- On valid input, with a traffic share between 0 and 100 percent, the machine settles within
-- 2 * k + 10 rounds, where `k` traffic steps cover the whole traffic: `run_until_stable` then
-- returns a history and never the error that it did not stabilize.
pub run_until_stable-Returns :
    (c : DrContext) (p : DrPolicy) (k rounds : ℕ)
    → IsValidInput c p
    → IsPercent c.traffic_percent_secondary
    → 1 ≤ k
    → Covers k p
    → k + k + 10 ≤ rounds
    → Returns (run_until_stable (pos rounds) c p)
unfolding run_until_stable
run_until_stable-Returns c p k zero v h a b m = absurd (omega arith)
run_until_stable-Returns c p k (suc rounds) v h a b m =
    run_rounds-Returns p k a b (suc rounds) c v h
      (Enough-start c.state k (suc rounds) _ _ a b (pos_part-le _ h.1) m)
