-- ===== src/Secret/Delivery.antt =====
-- validate_secret_contract.py: the delivery.
use staff_sre_platform_engin.Shared.{
  ℕ, ◌==◌, String, Bool, not, ◌&&◌, Option, List, [], ◌∷◌, Object, key, length, any, contains,
  is_empty_text, str_eq, if◌then◌else◌,
}
use staff_sre_platform_engin.Shared.Contracts.{
  Checked, fine, ◌>>=◌, ◌>>◌, report, nonempty_string, flag, positive_int, string_list, is_false,
  disagree,
}
use staff_sre_platform_engin.Secret.Authority.{Service, Authority, contract, reaches}

pub record Delivery : Type 0 where
  pub mechanism : String
  pub store_scope : String
  pub store_namespace : String
  pub allowed_namespaces : List String
  pub target_kind : String
  pub target_name : String
  pub target_is_authority : Option Bool
  pub refresh_policy : String
  pub refresh_minutes : Option ℕ
  pub deletion_policy : String
  pub creation_policy : String

unfoldable pub read_delivery : Object → Checked Delivery
read_delivery delivery = do
  let path = contract "delivery"
  mechanism ← nonempty_string delivery "mechanism" path
  store_scope ← nonempty_string delivery "storeScope" path
  store_namespace ← nonempty_string delivery "storeNamespace" path
  allowed_namespaces ← string_list delivery "allowedNamespaces" path
  target_kind ← nonempty_string delivery "targetKind" path
  target_name ← nonempty_string delivery "targetName" path
  target_is_authority ← flag delivery "targetIsAuthority" path
  refresh_policy ← nonempty_string delivery "refreshPolicy" path
  refresh_minutes ← positive_int delivery "refreshIntervalMinutes" path
  deletion_policy ← nonempty_string delivery "deletionPolicy" path
  creation_policy ← nonempty_string delivery "creationPolicy" path
  fine (record {
    mechanism = mechanism;
    store_scope = store_scope;
    store_namespace = store_namespace;
    allowed_namespaces = allowed_namespaces;
    target_kind = target_kind;
    target_name = target_name;
    target_is_authority = target_is_authority;
    refresh_policy = refresh_policy;
    refresh_minutes = refresh_minutes;
    deletion_policy = deletion_policy;
    creation_policy = creation_policy;
  })

unfoldable pub check_namespaced_store : Service → Delivery → Checked (Unit {0})
check_namespaced_store s d = do
  let path = contract "delivery"
  report (disagree d.store_namespace s.namespace) (key path "storeNamespace")
      "namespaced store must match service namespace"
  report (not (is_empty_text s.namespace) && not (contains d.allowed_namespaces s.namespace))
      (key path "allowedNamespaces") "service namespace must be explicitly allowed"
  report (any (λ n. not (str_eq n s.namespace)) d.allowed_namespaces) (key path "allowedNamespaces")
      "namespaced store contains unrelated namespaces"

unfoldable pub check_cluster_store : Service → Delivery → Checked (Unit {0})
check_cluster_store s d =
    report (str_eq s.environment "production" && not (length d.allowed_namespaces == 1))
      (key (contract "delivery") "allowedNamespaces")
      "production cluster store must be narrowly selected"

unfoldable pub check_operator_sync : Delivery → Checked (Unit {0})
check_operator_sync d = do
  let path = contract "delivery"
  report (not (str_eq d.target_kind "KubernetesSecret")) (key path "targetKind")
      "operator-sync must declare KubernetesSecret cache"
  report (not (is_false d.target_is_authority)) (key path "targetIsAuthority")
      "synchronized Kubernetes Secret is only a cache"
  report (not (contains ("Periodic" ∷ "OnChange" ∷ "CreatedOnce" ∷ []) d.refresh_policy))
      (key path "refreshPolicy") "unsupported operator refresh policy"

unfoldable pub check_target : Delivery → Checked (Unit {0})
unfolding check_operator_sync
check_target d =
    let path = key (contract "delivery") "targetKind" in
    if str_eq d.mechanism "operator-sync"
    then check_operator_sync d
    else if contains ("agent-file" ∷ "csi-file" ∷ []) d.mechanism
    then report (not (str_eq d.target_kind "MountedFile")) path "file delivery must use MountedFile"
    else report (str_eq d.mechanism "direct-api" && not (str_eq d.target_kind "ProcessMemory")) path
        "direct API delivery should terminate in process memory"

unfoldable pub check_delivery : Service → Authority → Delivery → Checked (Unit {0})
unfolding check_namespaced_store check_cluster_store check_target
check_delivery s a d = do
  let path = contract "delivery"
  report
      (not (contains ("direct-api" ∷ "agent-file" ∷ "csi-file" ∷ "operator-sync" ∷ []) d.mechanism))
      (key path "mechanism") "unsupported delivery mechanism"
  report (not (contains ("Namespace" ∷ "Cluster" ∷ []) d.store_scope)) (key path "storeScope")
      "expected Namespace or Cluster"
  if str_eq d.store_scope "Namespace" then check_namespaced_store s d else check_cluster_store s d
  check_target d
  report (is_empty_text d.target_name) (key path "targetName") "required"
  report (reaches d.refresh_minutes a.overlap_hours 60) (key path "refreshIntervalMinutes")
      "must be shorter than credential overlap"
  report (not (contains ("Retain" ∷ "Delete" ∷ "Merge" ∷ []) d.deletion_policy))
      (key path "deletionPolicy") "unsupported value"
  report (not (contains ("Owner" ∷ "Orphan" ∷ "Merge" ∷ "None" ∷ []) d.creation_policy))
      (key path "creationPolicy") "unsupported value"
