-- ===== src/Repair/Outcome.antt =====
-- The two ways in which `evaluate_repair` of node_repair.py returns.
use staff_sre_platform_engin.Shared.{
  Bool, true, false, List, ◌≡◌, refl, Option, none, some, Ensures, Ensures-bind, Ensures-at, ok,
  sym, subst, map, raise_if,
}
use staff_sre_platform_engin.Repair.Types.{
  Node, FleetPolicy, ControllerResult, BreakerReason, global_disable_active,
}
use staff_sre_platform_engin.Repair.Fleet.{
  validate_policy, validate_nodes, validate_each, has_duplicates, is_empty, systemic_failure_reason,
}
use staff_sre_platform_engin.Repair.Controller.{evaluate_repair, evaluated, tripped, reconciled}

validate_nodes-eq : (nodes : List Node) → Ensures (λ fleet. fleet ≡ nodes) (validate_nodes nodes)
unfolding validate_nodes
validate_nodes-eq nodes = Ensures-bind _ (raise_if (is_empty nodes) _) _ λ _ _.
    Ensures-bind _ (raise_if (has_duplicates (map (λ n. n.name) nodes)) _) _
      λ _ _. Ensures-bind _ (validate_each nodes) _ λ _ _. refl

pub data Outcome (nodes : List Node) (p : FleetPolicy) (disable : Bool) (r : ControllerResult)
    : Type 0 where
  disabled : disable ≡ true → r ≡ tripped nodes global_disable_active → Outcome nodes p disable r
  systemic :
      (why : BreakerReason)
      → disable ≡ false
      → systemic_failure_reason nodes p ≡ some why
      → r ≡ tripped nodes why
      → Outcome nodes p disable r
  closed :
      disable ≡ false
      → systemic_failure_reason nodes p ≡ none
      → r ≡ reconciled nodes p
      → Outcome nodes p disable r

evaluated-Outcome :
    (nodes : List Node) (p : FleetPolicy) (disable : Bool)
    → Outcome nodes p disable (evaluated nodes p disable)
unfolding evaluated
evaluated-Outcome nodes p true = disabled refl refl
evaluated-Outcome nodes p false = after (systemic_failure_reason nodes p) refl
  where
    after :
        (o : Option BreakerReason)
        → systemic_failure_reason nodes p ≡ o
        → Outcome nodes p false
            (elim o [ some why ↦ tripped nodes why | none ↦ reconciled nodes p ])
    after none e = closed refl e refl
    after (some why) e = systemic why refl e refl

pub evaluate_repair-Outcome :
    (nodes : List Node) (p : FleetPolicy) (disable : Bool) {r : ControllerResult}
    → evaluate_repair nodes p disable ≡ ok r
    → Outcome nodes p disable r
unfolding evaluate_repair
evaluate_repair-Outcome nodes p disable h =
    Ensures-at (Outcome nodes p disable) (evaluate_repair nodes p disable)
      (Ensures-bind _ (validate_policy p) _ λ _ _.
        Ensures-bind _ (validate_nodes nodes) _ λ fleet e.
          subst (λ f. Outcome nodes p disable (evaluated f p disable))
            (sym (Ensures-at (λ f. f ≡ nodes) (validate_nodes nodes) (validate_nodes-eq nodes) e))
            (evaluated-Outcome nodes p disable))
      h
