-- ===== src/Tenant/Package.antt =====
-- validate_tenant.py: the checks of the tenant's package.
use text.Mathlib.Text.{starts_with}
use staff_sre_platform_engin.Shared.{
  ltb_ℤ, pos, String, Bool, false, not, ◌&&◌, Option, none, some, List, [], ◌∷◌, Json, int, float,
  str, arr, Object, get, items, texts, is_text, has_text, Place, top, key, contains, str_eq,
  if◌then◌else◌,
}
use staff_sre_platform_engin.Shared.Contracts.{
  Checked, fine, failed, ◌>>=◌, ◌>>◌, report, nonempty_string, flag, is_true, is_false, disagree,
}

abbrev pub package_path : String → Place
package_path = key (top "package")

pub record Tenant : Type 0 where
  pub name : String
  pub trust_level : String
  pub namespace : String
  pub environment : String

pub record Identity : Type 0 where
  pub service_account : String
  pub trusted_namespace : String
  pub trusted_service_account : String

-- `if boolean(...) is not False: errors.append(...)`
unfoldable pub must_be_false : Object → String → Place → String → Checked (Unit {0})
must_be_false parent name path message = do
  value ← flag parent name path
  report (not (is_false value)) (key path name) message

unfoldable pub must_be_true : Object → String → Place → String → Checked (Unit {0})
must_be_true parent name path message = do
  value ← flag parent name path
  report (not (is_true value)) (key path name) message

abbrev pub is_positive : Json → Bool
is_positive (int n) = ltb_ℤ (pos 0) n
is_positive (float digits scale) = ltb_ℤ (pos 0) digits
is_positive _ = false

-- The number itself is not used.
unfoldable pub positive_number : Object → String → Place → Checked (Unit {0})
positive_number parent name path =
    report (not (is_positive (get parent name))) (key path name) "must be a positive number"

unfoldable pub read_tenant : Object → Checked Tenant
read_tenant tenant = do
  let path = package_path "tenant"
  name ← nonempty_string tenant "name" path
  trust_level ← nonempty_string tenant "trustLevel" path
  namespace ← nonempty_string tenant "namespace" path
  environment ← nonempty_string tenant "environment" path
  fine (record {
    name = name;
    trust_level = trust_level;
    namespace = namespace;
    environment = environment;
  })

unfoldable pub check_tenant : Tenant → Checked (Unit {0})
check_tenant t = do
  report
      (not
        (contains ("cooperative-internal" ∷ "untrusted-external" ∷ "regulated" ∷ []) t.trust_level))
      (key (package_path "tenant") "trustLevel")
      "expected cooperative-internal, untrusted-external, or regulated"
  report (contains ("untrusted-external" ∷ "regulated" ∷ []) t.trust_level) (top "tenant boundary")
      "namespace-only package is insufficient for this trust level"

abbrev pub is_pinned : Json → Bool
is_pinned (str version) = starts_with version "v1."
is_pinned _ = false

unfoldable pub check_labels : Tenant → Object → Checked (Unit {0})
check_labels t labels = do
  let path = top "namespaceLabels"
  report (not (is_text (get labels "platform.example.com/owner") t.name)) path
      "owner label must match package.tenant.name"
  report
      (str_eq t.environment "production"
        && not (is_text (get labels "pod-security.kubernetes.io/enforce") "restricted"))
      path "production tenants must enforce restricted Pod Security"
  report (not (is_pinned (get labels "pod-security.kubernetes.io/enforce-version"))) path
      "Pod Security enforcement version must be pinned"

unfoldable pub check_rbac : Object → Checked (Unit {0})
unfolding must_be_false
check_rbac rbac = do
  let path = package_path "rbac"
  must_be_false rbac "allowClusterAdmin" path "tenant must not receive cluster-admin"
  must_be_false rbac "allowRoleEscalation" path "must be false"
  must_be_false rbac "allowImpersonation" path "must be false"
  group ← nonempty_string rbac "humanGroup" path
  fine tt

-- A list of texts, empty ones too; or none, with an error.
abbrev pub any_texts : Json → Option (List String)
any_texts (arr vs) = texts (items vs)
any_texts _ = none

unfoldable pub allowed_set : Json → Checked (List String)
allowed_set v = elim (any_texts v) [
  | none ↦ failed [] (key (package_path "network") "allowedEgress") "must be an array of strings"
  | some ts ↦ fine ts
]

unfoldable pub check_network : Object → Checked (List String)
unfolding must_be_true allowed_set
check_network network = do
  let path = package_path "network"
  must_be_true network "defaultDenyIngress" path "must be true"
  must_be_true network "defaultDenyEgress" path "must be true"
  allowed_set (get network "allowedEgress")

unfoldable pub check_quota : Object → Checked (Unit {0})
unfolding positive_number
check_quota quota = do
  let path = package_path "quota"
  report (not (has_text (get quota "cpuRequests"))) (key path "cpuRequests") "must be declared"
  positive_number quota "memoryRequestsGiB" path
  positive_number quota "pods" path
  positive_number quota "servicesLoadBalancers" path

unfoldable pub read_identity : Object → Checked Identity
read_identity identity = do
  let path = package_path "identity"
  service_account ← nonempty_string identity "serviceAccount" path
  cloud_role ← nonempty_string identity "cloudRole" path
  trusted_namespace ← nonempty_string identity "trustedNamespace" path
  trusted_service_account ← nonempty_string identity "trustedServiceAccount" path
  fine (record {
    service_account = service_account;
    trusted_namespace = trusted_namespace;
    trusted_service_account = trusted_service_account;
  })

unfoldable pub check_identity : Tenant → Identity → Object → Checked (Unit {0})
unfolding must_be_false
check_identity t i identity = do
  let path = package_path "identity"
  report (disagree i.trusted_namespace t.namespace) (key path "trustedNamespace")
      "must equal tenant namespace"
  report (disagree i.trusted_service_account i.service_account) (key path "trustedServiceAccount")
      "must equal serviceAccount"
  must_be_false identity "allowNodeRoleFallback" path "must be false"

unfoldable pub check_storage : Tenant → Object → Checked (Unit {0})
unfolding must_be_false must_be_true
check_storage t storage = do
  let path = package_path "storage"
  must_be_false storage "allowHostPath" path "must be false"
  must_be_true storage "encryptionRequired" path "must be true"
  (if str_eq t.environment "production"
      then must_be_true storage "deletionProtection" path "production must enable protection"
      else fine tt)

unfoldable pub check_observability : Object → Checked (Unit {0})
unfolding must_be_true must_be_false
check_observability observability = do
  let path = package_path "observability"
  must_be_true observability "tenantScopedBackendAuthorization" path
      "backend enforcement is required"
  must_be_false observability "crossTenantQueryAllowed" path "must be false"
