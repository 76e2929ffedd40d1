-- ===== src/Mesh/Rotation.antt =====
-- mesh_contract_lab.py: the rotation of certificates, and the age of a DNS answer.
use staff_sre_platform_engin.Shared.{
  ℤ, ◌<ℤ◌, ◌≤ℤ◌, ◌+ℤ◌, ◌-ℤ◌, ltb_ℤ, leb_ℤ, String, Bool, true, false, List, ◌≡◌, ◌⊎◌, inl, inr, ◌↔◌,
  arith, ok, Bool-cases,
}
use staff_sre_platform_engin.Mesh.Contract.{
  Certificate, evaluate_handshake, trusts, DnsEntry, DnsDecision, evaluate_dns,
}

-- A handshake is allowed exactly within the leaf's validity, and with its root trusted.
evaluate_handshake-allowed_iff :
    (leaf : Certificate) (t : ℤ) (roots : List String)
    → ((evaluate_handshake leaf t roots).handshake_allowed ≡ true)
      ↔ ((leaf.not_before ≤ℤ t) × (t <ℤ leaf.not_after) × (trusts roots leaf.root ≡ true))
unfolding evaluate_handshake
evaluate_handshake-allowed_iff leaf t roots = (
  λ h. (ground (arith, h), ground (arith, h), ground (arith, h)),
  λ (a, b, c). ground (arith, a, b, c),
)

-- A rotation has no gap: where both roots are trusted and the new leaf becomes valid no later than
-- the old one expires, at each time from the start of the old leaf to the end of the new one a
-- handshake with one of the two is allowed.
pub rotation-allowed :
    (old new : Certificate) (roots : List String) (t : ℤ)
    → trusts roots old.root ≡ true
    → trusts roots new.root ≡ true
    → new.not_before ≤ℤ old.not_after
    → old.not_before ≤ℤ t
    → t <ℤ new.not_after
    → ((evaluate_handshake old t roots).handshake_allowed ≡ true)
      ⊎ ((evaluate_handshake new t roots).handshake_allowed ≡ true)
rotation-allowed old new roots t trust_old trust_new overlap from until =
    elim (Bool-cases (ltb_ℤ t old.not_after)) [
      | inl early ↦
          inl (
            (evaluate_handshake-allowed_iff old t roots).1 (from, ground (arith, early), trust_old))
      | inr late ↦ inr (
          (evaluate_handshake-allowed_iff new t roots).1
            (ground (arith, late, overlap), until, trust_new))
    ]

-- A usable answer is no older than its time to live, or, where the resolver is down, than that and
-- the bound for stale answers; and it is marked stale just when it is past its time to live.
evaluate_dns-bounded :
    (entry : DnsEntry) (t : ℤ) (resolver_healthy : Bool) {d : DnsDecision}
    → evaluate_dns entry t resolver_healthy ≡ ok d
    → d.usable ≡ true
    → ((t -ℤ entry.observed_at ≤ℤ entry.ttl_seconds) × (d.is_stale ≡ false))
      ⊎ ((t -ℤ entry.observed_at ≤ℤ entry.ttl_seconds +ℤ entry.stale_if_error_seconds)
          × (entry.ttl_seconds <ℤ t -ℤ entry.observed_at)
          × (resolver_healthy ≡ false)
          × (d.is_stale ≡ true))
unfolding evaluate_dns
evaluate_dns-bounded entry t resolver_healthy h usable =
    elim (Bool-cases (leb_ℤ (t -ℤ entry.observed_at) entry.ttl_seconds)) [
      | inl fresh ↦ inl (ground (arith, h, fresh), ground (arith, h, fresh))
      | inr old ↦ inr (
        ground (arith, h, old, usable),
        ground (arith, h, old, usable),
        ground (arith, h, old, usable),
        ground (arith, h, old, usable),
      )
    ]
