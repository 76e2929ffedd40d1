-- ===== src/Mesh/Xds.antt =====
-- mesh_contract_lab.py: a proxy that takes configurations one after the other.
use staff_sre_platform_engin.Shared.{
  true, false, not, ◌||◌, List, [], ◌∷◌, ◌≡◌, refl, inl, inr, arith, sym, ap, All, ◌++◌, subst,
  Bool-cases, or-false, not-false,
}
use staff_sre_platform_engin.Mesh.Contract.{ConfigSnapshot, nack, ack, apply_xds, no_endpoints}

-- What is active after a candidate: `apply_xds` gives its version and its endpoints.
unfoldable pub next_active : (active candidate : ConfigSnapshot) → ConfigSnapshot
next_active active candidate =
    let r = apply_xds active candidate in
    record {
      version = r.active_version;
      is_valid = elim r.response [ ack ↦ candidate.is_valid | nack ↦ active.is_valid ];
      endpoints = r.serving_endpoints;
    }

unfoldable pub after_all : ConfigSnapshot → List ConfigSnapshot → ConfigSnapshot
after_all active [] = active
after_all active (c ∷ rest) = after_all (next_active active c) rest

abbrev pub Serves : ConfigSnapshot → Type 0
Serves c = (c.is_valid ≡ true) × (no_endpoints c.endpoints ≡ false)

-- An answer to a candidate: it cannot serve, is rejected and nothing changes, or it is valid, with endpoints, and becomes
-- active.
pub data Answer (active candidate : ConfigSnapshot) (next : ConfigSnapshot) : Type 0 where
  kept :
      (apply_xds active candidate).response ≡ nack
      → ¬ Serves candidate
      → next ≡ active
      → Answer active candidate next
  taken :
      (apply_xds active candidate).response ≡ ack
      → Serves candidate
      → next ≡ candidate
      → Answer active candidate next

no_service : (c : ConfigSnapshot) → (not c.is_valid || no_endpoints c.endpoints) ≡ true → ¬ Serves c
no_service c bad (valid, some_endpoint) = absurd (ground (arith, bad, valid, some_endpoint))

next_active-Answer :
    (active candidate : ConfigSnapshot) → Answer active candidate (next_active active candidate)
unfolding next_active apply_xds
next_active-Answer active candidate =
    elim (Bool-cases (not candidate.is_valid || no_endpoints candidate.endpoints)) [
      | inl bad ↦ kept (ground (arith, bad)) (no_service candidate bad) (ground (arith, bad))
      | inr good ↦
          let (valid, some_endpoint) = or-false _ _ good in
          taken (ground (arith, good)) (not-false _ valid, some_endpoint) (ground (arith, good))
    ]

-- The last of the candidates that can serve, or the first configuration where none of them can.
pub data IsLastGood (first : ConfigSnapshot) (candidates : List ConfigSnapshot) (c : ConfigSnapshot)
    : Type 0 where
  none_served : All (λ x. ¬ Serves x) candidates → c ≡ first → IsLastGood first candidates c
  last_served :
      (before after : List ConfigSnapshot)
      → candidates ≡ before ++ (c ∷ after)
      → Serves c
      → All (λ x. ¬ Serves x) after
      → IsLastGood first candidates c

later :
    {first x c : ConfigSnapshot} {rest : List ConfigSnapshot}
    → ¬ Serves x
    → IsLastGood first rest c
    → IsLastGood first (x ∷ rest) c
later bad (none_served all e) = none_served (bad, all) e
later {x = x} bad (last_served before after e s all) =
    last_served (x ∷ before) after (ap (λ l. x ∷ l) e) s all

from :
    {first x c : ConfigSnapshot} {rest : List ConfigSnapshot}
    → Serves x
    → IsLastGood x rest c
    → IsLastGood first (x ∷ rest) c
from {x = x} {rest = rest} good (none_served all e) =
    last_served [] rest (ap (λ y. y ∷ rest) (sym e)) (subst Serves (sym e) good) all
from {x = x} good (last_served before after e s all) =
    last_served (x ∷ before) after (ap (λ l. x ∷ l) e) s all

-- A proxy that is sent any candidates, one after the other, ends with the last known good
-- configuration: the last candidate that was valid and had endpoints, whatever was rejected after it,
-- or the first configuration, unchanged, where there is no such candidate.
pub after_all-IsLastGood :
    (active : ConfigSnapshot) (candidates : List ConfigSnapshot)
    → IsLastGood active candidates (after_all active candidates)
unfolding after_all
after_all-IsLastGood active [] = none_served tt refl
after_all-IsLastGood active (c ∷ rest) = elim (next_active-Answer active c) [
  | kept _ bad e ↦
      subst (λ a. IsLastGood active (c ∷ rest) (after_all a rest)) (sym e)
        (later bad (after_all-IsLastGood active rest))
  | taken _ good e ↦
      subst (λ a. IsLastGood active (c ∷ rest) (after_all a rest)) (sym e)
        (from good (after_all-IsLastGood c rest))
]
