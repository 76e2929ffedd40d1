-- ===== src/Secret/Authority.antt =====
-- validate_secret_contract.py: the service, the authority and the authentication.
use text.Mathlib.Text.{starts_with}
use staff_sre_platform_engin.Shared.{
  ◌*◌, ℕ, ltb, leb, String, Bool, false, not, ◌&&◌, Option, none, some, [], ◌∷◌, Object, Place, top,
  key, contains, is_empty_text,
}
use staff_sre_platform_engin.Shared.Contracts.{
  Checked, fine, ◌>>=◌, ◌>>◌, report, nonempty_string, flag, positive_int, is_true, is_false,
  disagree,
}

abbrev pub contract : String → Place
contract = key (top "contract")

pub record Service : Type 0 where
  pub name : String
  pub owner : String
  pub environment : String
  pub namespace : String
  pub service_account : String

pub record Authority : Type 0 where
  pub system : String
  pub authoritative : Option Bool
  pub remote_path : String
  pub allowed_prefix : String
  pub credential_type : String
  pub rotation_hours : Option ℕ
  pub overlap_hours : Option ℕ

pub record Authentication : Type 0 where
  pub method : String
  pub static_used : Option Bool
  pub trusted_namespace : String
  pub trusted_service_account : String
  pub audience : String
  pub token_ttl : Option ℕ

unfoldable pub read_service : Object → Checked Service
read_service service = do
  let path = contract "service"
  name ← nonempty_string service "name" path
  owner ← nonempty_string service "owner" path
  environment ← nonempty_string service "environment" path
  namespace ← nonempty_string service "namespace" path
  service_account ← nonempty_string service "serviceAccount" path
  fine (record {
    name = name;
    owner = owner;
    environment = environment;
    namespace = namespace;
    service_account = service_account;
  })

unfoldable pub check_service : Service → Checked (Unit {0})
check_service s = do
  let path = contract "service"
  report (not (is_empty_text s.owner) && not (starts_with s.owner "team-")) (key path "owner")
      "must use a team-owned identity"
  report (not (contains ("development" ∷ "staging" ∷ "production" ∷ []) s.environment))
      (key path "environment") "expected development, staging, or production"

unfoldable pub read_authority : Object → Checked Authority
read_authority authority = do
  let path = contract "authority"
  system ← nonempty_string authority "system" path
  authoritative ← flag authority "authoritative" path
  region ← nonempty_string authority "region" path
  remote_path ← nonempty_string authority "remotePath" path
  allowed_prefix ← nonempty_string authority "allowedPathPrefix" path
  credential_type ← nonempty_string authority "credentialType" path
  rotation_hours ← positive_int authority "rotationPeriodHours" path
  overlap_hours ← positive_int authority "overlapHours" path
  fine (record {
    system = system;
    authoritative = authoritative;
    remote_path = remote_path;
    allowed_prefix = allowed_prefix;
    credential_type = credential_type;
    rotation_hours = rotation_hours;
    overlap_hours = overlap_hours;
  })

-- `a is not None and b is not None and a >= b * k`
abbrev pub reaches : Option ℕ → Option ℕ → ℕ → Bool
reaches (some a) (some b) k = leb (b * k) a
reaches (some a) none k = false
reaches none b k = false

unfoldable pub check_authority : Authority → Checked (Unit {0})
check_authority a = do
  let path = contract "authority"
  report (not (is_true a.authoritative)) (key path "authoritative")
      "external authority must be true"
  report (contains ("kubernetes-secret" ∷ "environment-variable" ∷ "git" ∷ []) a.system)
      (key path "system") "delivery caches and source control cannot be authority"
  report
      (not (is_empty_text a.remote_path)
        && not (is_empty_text a.allowed_prefix)
        && not (starts_with a.remote_path a.allowed_prefix))
      (key path "remotePath") "outside the tenant's allowed path prefix"
  report
      (not
        (contains ("dynamic" ∷ "rotated-static" ∷ "certificate" ∷ "token" ∷ []) a.credential_type))
      (key path "credentialType") "unsupported credential lifecycle"
  report (reaches a.overlap_hours a.rotation_hours 1) (key path "overlapHours")
      "must be less than rotationPeriodHours"

unfoldable pub read_authentication : Object → Checked Authentication
read_authentication auth = do
  let path = contract "providerAuthentication"
  method ← nonempty_string auth "method" path
  static_used ← flag auth "staticCredentialUsed" path
  trusted_namespace ← nonempty_string auth "trustedNamespace" path
  trusted_service_account ← nonempty_string auth "trustedServiceAccount" path
  audience ← nonempty_string auth "audience" path
  token_ttl ← positive_int auth "maximumTokenTtlMinutes" path
  fine (record {
    method = method;
    static_used = static_used;
    trusted_namespace = trusted_namespace;
    trusted_service_account = trusted_service_account;
    audience = audience;
    token_ttl = token_ttl;
  })

abbrev pub exceeds : Option ℕ → ℕ → Bool
exceeds none limit = false
exceeds (some n) limit = ltb limit n

unfoldable pub check_authentication : Service → Authentication → Checked (Unit {0})
check_authentication s a = do
  let path = contract "providerAuthentication"
  report
      (not
        (contains ("workload-identity" ∷ "federated-oidc" ∷ "vault-kubernetes-auth" ∷ []) a.method))
      (key path "method") "use a supported short-lived workload identity method"
  report (not (is_false a.static_used)) (key path "staticCredentialUsed") "must be false"
  report (disagree a.trusted_namespace s.namespace) (key path "trustedNamespace")
      "must match service namespace"
  report (disagree a.trusted_service_account s.service_account) (key path "trustedServiceAccount")
      "must match service account"
  report (contains ("*" ∷ "default" ∷ "" ∷ []) a.audience) (key path "audience")
      "must be provider-specific"
  report (exceeds a.token_ttl 120) (key path "maximumTokenTtlMinutes")
      "exceeds platform maximum of 120"
