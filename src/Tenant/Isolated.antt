-- ===== src/Tenant/Isolated.antt =====
-- What a tenant package and workload without errors promise.
use staff_sre_platform_engin.Shared.{
  ap, not-false, eq_iff, String, true, false, some, List, Json, bool, Object, get, Place,
  is_empty_text, is_text, ◌≡◌, refl, arith, subst, sym, ◌∙◌,
}
use staff_sre_platform_engin.Shared.Contracts.{
  Clean, ◌>>=◌, ◌>>◌, parts, both, report-none, word, word-nonempty, nonempty_string,
  nonempty_string-value, disagree, disagree-eq,
}
use staff_sre_platform_engin.Tenant.Package.{
  package_path, Tenant, Identity, read_tenant, check_tenant, check_rbac, check_network, allowed_set,
  any_texts, read_identity, check_identity, check_observability,
}
use staff_sre_platform_engin.Tenant.Workload.{check_metadata}
use staff_sre_platform_engin.Tenant.Confined.{must_be_false-bool, must_be_true-bool}

-- The tenant is trusted enough for a namespace, and named.
pub record TenantFacts (o : Object) (t : Tenant) : Type 0 where
  pub cooperative : word (get o "trustLevel") ≡ "cooperative-internal"
  pub namespace_read : t.namespace ≡ word (get o "namespace")
  pub has_namespace : is_empty_text t.namespace ≡ false
  pub name_read : t.name ≡ word (get o "name")

-- The identity is bound to the tenant's namespace and one account, without the node's role.
pub record IdentityFacts (tenant o : Object) (i : Identity) : Type 0 where
  pub account_read : i.service_account ≡ word (get o "serviceAccount")
  pub has_account : is_empty_text i.service_account ≡ false
  pub own_namespace : word (get o "trustedNamespace") ≡ word (get tenant "namespace")
  pub one_account : word (get o "trustedServiceAccount") ≡ word (get o "serviceAccount")
  pub no_node_role : get o "allowNodeRoleFallback" ≡ bool false

module _ (o : Object) where
  tenant_namespace : Clean (read_tenant o) → is_empty_text (word (get o "namespace")) ≡ false
  unfolding read_tenant
  tenant_namespace h =
      let (_, h) = parts _ _ h in
      let (_, h) = parts _ _ h in let (namespace, _) = parts _ _ h in word-nonempty o _ _ namespace

  check_tenant-cooperative :
      (t : Tenant) → Clean (check_tenant t) → t.trust_level ≡ "cooperative-internal"
  unfolding check_tenant
  check_tenant-cooperative t h =
      let (known, safe) = both _ _ h in
      ground (
        arith,
        report-none _ _ _ known,
        report-none _ _ _ safe,
        eq_iff "cooperative-internal" t.trust_level,
      )

  pub read_tenant-TenantFacts :
      Clean (read_tenant o)
      → Clean (check_tenant (read_tenant o).value)
      → TenantFacts o (read_tenant o).value
  unfolding read_tenant ◌>>=◌
  read_tenant-TenantFacts h c = record {
    cooperative =
        sym (nonempty_string-value o "trustLevel" (package_path "tenant"))
        ∙ check_tenant-cooperative (read_tenant o).value c;
    namespace_read = nonempty_string-value o "namespace" _;
    has_namespace =
        subst (λ t. is_empty_text t ≡ false)
          (sym (nonempty_string-value o "namespace" (package_path "tenant"))) (tenant_namespace h);
    name_read = nonempty_string-value o "name" _;
  }

  identity_reads :
      Clean (read_identity o)
      → (is_empty_text (word (get o "serviceAccount")) ≡ false)
        × (is_empty_text (word (get o "trustedNamespace")) ≡ false)
        × (is_empty_text (word (get o "trustedServiceAccount")) ≡ false)
  unfolding read_identity
  identity_reads h =
      let (account, h) = parts _ _ h in
      let (_, h) = parts _ _ h in
      let (namespace, h) = parts _ _ h in
      let (trusted, _) = parts _ _ h in
      (word-nonempty o _ _ account, word-nonempty o _ _ namespace, word-nonempty o _ _ trusted)

  check_identity-facts :
      (t : Tenant) (i : Identity)
      → Clean (check_identity t i o)
      → (disagree i.trusted_namespace t.namespace ≡ false)
        × (disagree i.trusted_service_account i.service_account ≡ false)
        × (get o "allowNodeRoleFallback" ≡ bool false)
  unfolding check_identity
  check_identity-facts t i h =
      let (namespace, h) = both _ _ h in
      let (account, role) = both _ _ h in
      (report-none _ _ _ namespace, report-none _ _ _ account, must_be_false-bool o _ _ _ role)

  -- A text of this document that does not disagree with a known one is the same.
  agreed :
      (name : String) (path : Place) (known : String)
      → is_empty_text (word (get o name)) ≡ false
      → is_empty_text known ≡ false
      → disagree (nonempty_string o name path).value known ≡ false
      → word (get o name) ≡ known
  agreed name path known full full' e =
      disagree-eq (word (get o name)) known full full'
        (subst (λ t. disagree t known ≡ false) (nonempty_string-value o name path) e)

  pub read_identity-IdentityFacts :
      (tenant : Object) (t : Tenant)
      → TenantFacts tenant t
      → Clean (read_identity o)
      → Clean (check_identity t (read_identity o).value o)
      → IdentityFacts tenant o (read_identity o).value
  unfolding read_identity ◌>>=◌
  read_identity-IdentityFacts tenant t f h c =
      let (account, namespace, trusted) = identity_reads h in
      let (dn, da, role) = check_identity-facts t (read_identity o).value c in
      let same = nonempty_string-value o "serviceAccount" (package_path "identity") in
      let full = subst (λ t. is_empty_text t ≡ false) (sym same) account in
      record {
        account_read = same;
        has_account = full;
        own_namespace =
            agreed "trustedNamespace" _ t.namespace namespace f.has_namespace dn ∙ f.namespace_read;
        one_account = agreed "trustedServiceAccount" _ _ trusted full da ∙ same;
        no_node_role = role;
      }

-- No access beyond the tenant: in the cluster, on the network and to telemetry.
pub record AccessFacts (rbac network observability : Object) (allowed : List String) : Type 0 where
  pub no_admin : get rbac "allowClusterAdmin" ≡ bool false
  pub no_escalation : get rbac "allowRoleEscalation" ≡ bool false
  pub no_impersonation : get rbac "allowImpersonation" ≡ bool false
  pub ingress_denied : get network "defaultDenyIngress" ≡ bool true
  pub egress_denied : get network "defaultDenyEgress" ≡ bool true
  pub allowed_read : any_texts (get network "allowedEgress") ≡ some allowed
  pub own_telemetry : get observability "crossTenantQueryAllowed" ≡ bool false

check_rbac-facts :
    (rbac : Object)
    → Clean (check_rbac rbac)
    → (get rbac "allowClusterAdmin" ≡ bool false)
      × (get rbac "allowRoleEscalation" ≡ bool false)
      × (get rbac "allowImpersonation" ≡ bool false)
unfolding check_rbac
check_rbac-facts rbac h =
    let (admin, h) = both _ _ h in
    let (escalation, h) = both _ _ h in
    let (impersonation, _) = both _ _ h in
    (
      must_be_false-bool rbac _ _ _ admin,
      must_be_false-bool rbac _ _ _ escalation,
      must_be_false-bool rbac _ _ _ impersonation,
    )

check_network-facts :
    (network : Object)
    → Clean (check_network network)
    → (get network "defaultDenyIngress" ≡ bool true)
      × (get network "defaultDenyEgress" ≡ bool true)
      × Clean (allowed_set (get network "allowedEgress"))
unfolding check_network
check_network-facts network h =
    let (ingress, h) = both _ _ h in
    let (egress, allowed) = both _ _ h in
    (must_be_true-bool network _ _ _ ingress, must_be_true-bool network _ _ _ egress, allowed)

allowed_set-read : (v : Json) → Clean (allowed_set v) → any_texts v ≡ some (allowed_set v).value
unfolding allowed_set
allowed_set-read v h = ground (arith, h)

check_network-value :
    (network : Object)
    → (check_network network).value ≡ (allowed_set (get network "allowedEgress")).value
unfolding check_network ◌>>◌
check_network-value network = refl

check_observability-facts :
    (o : Object) → Clean (check_observability o) → get o "crossTenantQueryAllowed" ≡ bool false
unfolding check_observability
check_observability-facts o h = let (_, cross) = both _ _ h in must_be_false-bool o _ _ _ cross

pub access :
    (rbac network observability : Object)
    → Clean (check_rbac rbac)
    → Clean (check_network network)
    → Clean (check_observability observability)
    → AccessFacts rbac network observability (check_network network).value
access rbac network observability cr cn co =
    let (admin, escalation, impersonation) = check_rbac-facts rbac cr in
    let (ingress, egress, allowed) = check_network-facts network cn in
    record {
      no_admin = admin;
      no_escalation = escalation;
      no_impersonation = impersonation;
      ingress_denied = ingress;
      egress_denied = egress;
      allowed_read =
          allowed_set-read (get network "allowedEgress") allowed
          ∙ ap some (sym (check_network-value network));
      own_telemetry = check_observability-facts observability co;
    }

pub check_metadata-eq :
    (t : Tenant) (metadata labels : Object)
    → is_empty_text t.namespace ≡ false
    → Clean (check_metadata t metadata labels)
    → (word (get metadata "namespace") ≡ t.namespace)
      × (is_text (get labels "platform.example.com/owner") t.name ≡ true)
unfolding check_metadata
check_metadata-eq t metadata labels full h =
    let (namespace, h) = parts _ _ h in
    let (_, h) = parts _ _ h in
    let (same, owner) = both _ _ h in
    (
      agreed metadata "namespace" _ t.namespace (word-nonempty metadata _ _ namespace) full
          (report-none _ _ _ same),
      not-false _ (report-none _ _ _ owner),
    )
