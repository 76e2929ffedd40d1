-- ===== src/Repair/Breaker.antt =====
-- When the circuit breaker of node_repair.py opens.
use staff_sre_platform_engin.Shared.{
  String, Bool, true, List, [], map, filter, str_eq, ◌≡◌, ◌↔◌, ◌⊎◌, inl, inr, refl, ok,
}
use staff_sre_platform_engin.Repair.Types.{Node, FleetPolicy, ControllerResult}
use staff_sre_platform_engin.Repair.Fleet.{unhealthy, signature_of, zones_of}
use staff_sre_platform_engin.Repair.Controller.{evaluate_repair}
use staff_sre_platform_engin.Repair.Outcome.{disabled, systemic, closed, evaluate_repair-Outcome}
use staff_sre_platform_engin.Repair.Distinct.{
  IsSetOf, has_text-distinct, distinct-has_text, distinct-AllDifferent,
}
use staff_sre_platform_engin.Repair.Systemic.{
  ImageFails, SignatureSpreads, systemic-found, systemic_iff,
}

-- The zones of the unhealthy nodes with a signature, as they come.
abbrev pub raw_zones : String → List Node → List String
raw_zones signature nodes =
    map (λ n. n.zone) (filter (λ n. str_eq (signature_of n) signature) (unhealthy nodes))

zones_of-IsSetOf :
    (nodes : List Node) (signature : String)
    → IsSetOf (raw_zones signature nodes) (zones_of signature nodes)
zones_of-IsSetOf nodes signature = record {
  different = distinct-AllDifferent (raw_zones signature nodes);
  same = λ x. (
    distinct-has_text x (raw_zones signature nodes),
    has_text-distinct x (raw_zones signature nodes),
  );
}

-- Repair is disabled, or the fleet shows one of the two kinds of systemic failure.
abbrev pub MustStop : List Node → FleetPolicy → Bool → Type 0
MustStop nodes p disable =
    (disable ≡ true)
    ⊎ ((image : String) × ImageFails p nodes image)
    ⊎ ((signature : String) × SignatureSpreads p nodes signature)

-- The circuit breaker of a returned result is open exactly when repair is disabled; or for some image
-- the unhealthy nodes with a signature are at least one, and of all the nodes with this image at
-- least the policy's percentage; or the signature of some such node is found in at least the policy's
-- number of zones, each counted once. With an open breaker no node is decided on.
pub breaker_open_iff :
    (nodes : List Node) (p : FleetPolicy) (disable : Bool) {r : ControllerResult}
    → evaluate_repair nodes p disable ≡ ok r
    → ((r.circuit_breaker_open ≡ true) ↔ MustStop nodes p disable)
      × (r.circuit_breaker_open ≡ true → r.decisions ≡ [])
      × ((signature : String) → IsSetOf (raw_zones signature nodes) (zones_of signature nodes))
breaker_open_iff nodes p disable {r} h =
    let zones = zones_of-IsSetOf nodes in
    elim (evaluate_repair-Outcome nodes p disable h) [
      | disabled d e ↦ rw e ((λ _. inl d, λ _. refl), λ _. refl, zones)
      | systemic why d s e ↦
          rw e ((λ _. inr (systemic-found p nodes why s), λ _. refl), λ _. refl, zones)
      | closed d s e ↦ rw e (
        (
          λ o. absurd (cc o),
          elim [ inl x ↦ cc | inr x ↦ let (why, found) = (systemic_iff p nodes).1 x in cc ],
        ),
        λ o. absurd (cc o),
        zones,
      )
    ]
