-- ===== src/Secret/Promises.antt =====
-- What a valid secret delivery contract promises.
use staff_sre_platform_engin.Shared.{String, true, top, [], All, bool, Object, get, ◌≡◌}
use staff_sre_platform_engin.Shared.Contracts.{Clean, parts, both, mapping-value, object_of}
use staff_sre_platform_engin.Secret.Authority.{read_authority, read_authentication}
use staff_sre_platform_engin.Secret.Delivery.{read_delivery}
use staff_sre_platform_engin.Secret.Application.{audited}
use staff_sre_platform_engin.Secret.Validate.{checked_contract, checked_sections, validate}
use staff_sre_platform_engin.Secret.Sound.{
  AuthorityFacts, AuthenticationFacts, read_service-ServiceFacts, read_authority-AuthorityFacts,
  read_authentication-AuthenticationFacts,
}
use staff_sre_platform_engin.Secret.Kept.{DeliveryFacts, read_delivery-DeliveryFacts}
use staff_sre_platform_engin.Secret.Outages.{
  ApplicationFacts, OutageFacts, read_application-ApplicationFacts, read_outage-OutageFacts,
  check_true-All,
}

-- The promises, by the sections of the document.
pub record IsSafe (service authority auth delivery application outage audit : Object) : Type 0 where
  pub authority_facts : AuthorityFacts authority (read_authority authority).value
  pub auth_facts : AuthenticationFacts service auth (read_authentication auth).value
  pub delivery_facts :
      DeliveryFacts service delivery authority_facts.overlap (read_delivery delivery).value
  pub application_facts : ApplicationFacts application
  pub outage_facts : OutageFacts outage auth_facts.token_minutes
  pub audit_facts : All (λ name. get audit name ≡ bool true) audited

checked_sections-IsSafe :
    (service authority auth delivery application outage audit : Object)
    → Clean (checked_sections service authority auth delivery application outage audit)
    → IsSafe service authority auth delivery application outage audit
unfolding checked_sections
checked_sections-IsSafe service authority auth delivery application outage audit h =
    let (rs, h) = parts _ _ h in
    let (_, h) = both _ _ h in
    let (ra, h) = parts _ _ h in
    let (ca, h) = both _ _ h in
    let (rp, h) = parts _ _ h in
    let (cp, h) = both _ _ h in
    let (rd, h) = parts _ _ h in
    let (cd, h) = both _ _ h in
    let (_, h) = parts _ _ h in
    let (cc', h) = both _ _ h in
    let (ro, h) = parts _ _ h in
    let (co, ct) = both _ _ h in
    let s = read_service-ServiceFacts service rs in
    let a = read_authority-AuthorityFacts authority ra ca in
    let p = read_authentication-AuthenticationFacts auth service _ s rp cp in
    record {
      authority_facts = a;
      auth_facts = p;
      delivery_facts =
          read_delivery-DeliveryFacts service delivery _ (read_authority authority).value s
            a.overlap_value rd cd;
      application_facts = read_application-ApplicationFacts application cc';
      outage_facts =
          read_outage-OutageFacts outage (read_authentication auth).value p.token_value ro co;
      audit_facts = check_true-All audit _ audited ct;
    }

-- A contract that `validate` accepts is safe. The authority is declared authoritative, is none of a
-- Kubernetes Secret, an environment variable and git, keeps the secret under the allowed path prefix,
-- and has one of the four supported credential lifecycles; an old credential is valid
-- for less than a rotation and for longer than a refresh takes. The provider is reached with no static
-- credential, by one of the three supported workload identity methods, that is bound to the service's
-- namespace and account, for an audience that is not generic, with a token of at most 120 minutes. A
-- namespaced store serves the service's namespace only, and a synchronized Secret is no authority. The
-- application confirms what it was given, is alive without the
-- provider and not ready without a credential, and restarts to read its environment. In an outage
-- workloads go on with a valid cache, retries are bounded, the stale bound is zero unless new pods may
-- start stale, and expiry is announced a token's life ahead. Everything is audited.
pub validate-IsSafe :
    (document : Object)
    → validate document ≡ []
    → IsSafe
        (object_of (get document "service"))
        (object_of (get document "authority"))
        (object_of (get document "providerAuthentication"))
        (object_of (get document "delivery"))
        (object_of (get document "application"))
        (object_of (get document "outage"))
        (object_of (get document "audit"))
unfolding validate checked_contract
validate-IsSafe document h =
    let (_, h) = parts _ _ h in
    let (_, h) = parts _ _ h in
    let (_, h) = parts _ _ h in
    let (_, h) = parts _ _ h in
    let (_, h) = parts _ _ h in
    let (_, h) = parts _ _ h in
    let (_, h) = parts _ _ h in
    let v = λ (name : String). mapping-value document name (top "contract") in
    checked_sections-IsSafe _ _ _ _ _ _ _ (
      rw
        (
          v "service",
          v "authority",
          v "providerAuthentication",
          v "delivery",
          v "application",
          v "outage",
          v "audit",
        )
        at h)
