-- ===== src/Tenant/Promises.antt =====
-- What a valid tenant package promises of its workload.
use staff_sre_platform_engin.Shared.{String, true, [], Object, get, top, is_text, ◌≡◌, ◌∙◌, subst}
use staff_sre_platform_engin.Shared.Contracts.{
  Clean, parts, both, mapping, mapping-value, object_of, word,
}
use staff_sre_platform_engin.Tenant.Package.{read_tenant, check_network, read_identity}
use staff_sre_platform_engin.Tenant.Workload.{workload}
use staff_sre_platform_engin.Tenant.Validate.{checked_sections, checked_package, validate}
use staff_sre_platform_engin.Tenant.Specs.{SpecFacts, check_spec-SpecFacts}
use staff_sre_platform_engin.Tenant.Isolated.{
  TenantFacts, IdentityFacts, AccessFacts, read_tenant-TenantFacts, read_identity-IdentityFacts,
  access, check_metadata-eq,
}

-- The promises, by the sections of the package and the workload.
pub record IsIsolated (tenant rbac network identity observability workload_document : Object)
    : Type 0 where
  pub tenant_facts : TenantFacts tenant (read_tenant tenant).value
  pub identity_facts : IdentityFacts tenant identity (read_identity identity).value
  pub access_facts : AccessFacts rbac network observability (check_network network).value
  pub in_namespace :
      word (get (object_of (get workload_document "metadata")) "namespace")
      ≡ word (get tenant "namespace")
  pub owned :
      is_text
        (get
          (object_of (get (object_of (get workload_document "metadata")) "labels"))
          "platform.example.com/owner")
        (word (get tenant "name"))
      ≡ true
  pub spec_facts :
      SpecFacts
        (check_network network).value
        (read_identity identity).value
        (object_of (get workload_document "spec"))

checked_sections-IsIsolated :
    (tenant labels rbac network quota identity storage observability w : Object)
    → Clean (checked_sections tenant labels rbac network quota identity storage observability w)
    → IsIsolated tenant rbac network identity observability w
unfolding checked_sections
checked_sections-IsIsolated tenant labels rbac network quota identity storage observability w h =
    let (rt, h) = parts _ _ h in
    let (ct, h) = both _ _ h in
    let (_, h) = both _ _ h in
    let (cr, h) = both _ _ h in
    let (cn, h) = parts _ _ h in
    let (_, h) = both _ _ h in
    let (ri, h) = parts _ _ h in
    let (ci, h) = both _ _ h in
    let (_, h) = both _ _ h in
    let (co, h) = both _ _ h in
    let (_, h) = parts _ _ h in
    let (_, h) = parts _ _ h in
    let (_, h) = parts _ _ h in
    let (cm, cs) = both _ _ h in
    let t = read_tenant-TenantFacts tenant rt ct in
    let i = read_identity-IdentityFacts identity tenant (read_tenant tenant).value t ri ci in
    let metadata = mapping-value w "metadata" (top "workload") in
    let m = (mapping w "metadata" (top "workload")).value in
    let l = (mapping m "labels" (workload "metadata")).value in
    let metadata_labels = mapping-value m "labels" (workload "metadata") in
    let (same, owner) = check_metadata-eq (read_tenant tenant).value m l t.has_namespace cm in
    record {
      tenant_facts = t;
      identity_facts = i;
      access_facts = access rbac network observability cr cn co;
      in_namespace =
          subst (λ o. word (get o "namespace") ≡ word (get tenant "namespace")) metadata
            (same ∙ t.namespace_read);
      owned =
          subst
            (λ o.
              is_text (get (object_of (get o "labels")) "platform.example.com/owner")
                (word (get tenant "name"))
              ≡ true)
            metadata
            (subst
              (λ o. is_text (get o "platform.example.com/owner") (word (get tenant "name")) ≡ true)
              metadata_labels
              (subst (λ n. is_text (get l "platform.example.com/owner") n ≡ true) t.name_read
                owner));
      spec_facts =
          subst (SpecFacts (check_network network).value (read_identity identity).value)
            (mapping-value w "spec" (top "workload"))
            (check_spec-SpecFacts (check_network network).value (read_identity identity).value _
              i.has_account cs);
    }

-- A workload that `validate` accepts is confined to its tenant. The tenant is a cooperative internal
-- one; its identity is bound to its namespace and one account, and does not fall back on the node's
-- role. It has no administration, escalation or impersonation; traffic is denied by default, and
-- telemetry of other tenants too. The workload is in the tenant's namespace, has its owner's label and its
-- account, shares nothing with the host and mounts none of its paths. Each container is
-- unprivileged, not root, has its image by digest and asks for allowed destinations only.
pub validate-IsIsolated :
    (document workload_document : Object)
    → validate document workload_document ≡ []
    → IsIsolated
        (object_of (get document "tenant"))
        (object_of (get document "rbac"))
        (object_of (get document "network"))
        (object_of (get document "identity"))
        (object_of (get document "observability"))
        workload_document
unfolding validate checked_package
validate-IsIsolated document workload_document h =
    let (_, h) = parts _ _ h in
    let (_, h) = parts _ _ h in
    let (_, h) = parts _ _ h in
    let (_, h) = parts _ _ h in
    let (_, h) = parts _ _ h in
    let (_, h) = parts _ _ h in
    let (_, h) = parts _ _ h in
    let (_, h) = parts _ _ h in
    let v = λ (name : String). mapping-value document name (top "package") in
    checked_sections-IsIsolated _ (object_of (get document "namespaceLabels")) _ _
      (object_of (get document "quota")) _ _ _ workload_document
      (rw
        (
          v "tenant",
          v "namespaceLabels",
          v "rbac",
          v "network",
          v "quota",
          v "identity",
          v "storage",
          v "observability",
        )
        at h)
