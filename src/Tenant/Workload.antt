-- ===== src/Tenant/Workload.antt =====
-- validate_tenant.py: the checks of the workload.
use staff_sre_platform_engin.Shared.{
  ℕ, suc, String, not, ◌&&◌, Option, none, some, List, [], ◌∷◌, any, Json, arr, obj, Object, get,
  get_or, items, fields, is_text, has_text, array, Place, top, key, index, contains, is_empty_text,
  includes,
}
use staff_sre_platform_engin.Shared.Contracts.{
  Checked, fine, failed, ◌>>=◌, ◌>>◌, report, mapping, nonempty_string, disagree,
}
use staff_sre_platform_engin.Tenant.Package.{
  Tenant, Identity, must_be_false, must_be_true, positive_number, any_texts,
}

abbrev pub workload : String → Place
workload = key (top "workload")

unfoldable pub check_metadata : Tenant → (metadata workload_labels : Object) → Checked (Unit {0})
check_metadata t metadata workload_labels = do
  let path = workload "metadata"
  namespace ← nonempty_string metadata "namespace" path
  name ← nonempty_string metadata "name" path
  report (disagree namespace t.namespace) (key path "namespace") "must equal tenant namespace"
  report (not (is_text (get workload_labels "platform.example.com/owner") t.name))
      (key path "labels") "owner must match tenant"

unfoldable pub check_account : Identity → Object → Checked (Unit {0})
check_account i spec = do
  service_account ← nonempty_string spec "serviceAccountName" (workload "spec")
  report (disagree service_account i.service_account) (key (workload "spec") "serviceAccountName")
      "not trusted by tenant identity contract"

-- `for field in (...)`
unfoldable pub check_false : Object → Place → List String → Checked (Unit {0})
unfolding must_be_false
check_false parent path [] = fine tt
check_false parent path (field ∷ rest) = do
  must_be_false parent field path "must be false"
  check_false parent path rest

abbrev pub host_fields : List String
host_fields = "hostNetwork" ∷ "hostPID" ∷ "hostIPC" ∷ []

abbrev pub volumes_path : Place
volumes_path = key (workload "spec") "volumes"

unfoldable pub check_volume : Json → ℕ → Checked (Unit {0})
check_volume (obj fs) i =
    report (is_text (get (fields fs) "type") "hostPath") (index volumes_path i)
      "hostPath is prohibited"
check_volume _ i = failed tt (index volumes_path i) "must be an object"

unfoldable pub check_volume_list : ℕ → List Json → Checked (Unit {0})
unfolding check_volume
check_volume_list i [] = fine tt
check_volume_list i (v ∷ rest) = do check_volume v i; check_volume_list (suc i) rest

unfoldable pub check_volumes : Json → Checked (Unit {0})
unfolding check_volume_list
check_volumes (arr vs) = check_volume_list 0 (items vs)
check_volumes _ = failed tt volumes_path "must be an array"

unfoldable pub check_security : Object → Place → Checked (Unit {0})
unfolding must_be_false must_be_true
check_security security path = do
  must_be_false security "privileged" path "must be false"
  must_be_true security "runAsNonRoot" path "must be true"
  must_be_false security "allowPrivilegeEscalation" path "must be false"

unfoldable pub check_resources : (requests limits : Object) → Place → Checked (Unit {0})
unfolding positive_number
check_resources requests limits path = do
  report (not (has_text (get requests "cpu"))) (key (key path "requests") "cpu") "required"
  positive_number requests "memoryMiB" (key path "requests")
  report (not (has_text (get limits "cpu"))) (key (key path "limits") "cpu") "required"
  positive_number limits "memoryMiB" (key path "limits")

abbrev pub check_requested :
    (allowed : List String) → Option (List String) → Place → Checked (Unit {0})
check_requested allowed none path = failed tt path "must be an array of strings"
check_requested allowed (some requested) path =
    report (any (λ d. not (contains allowed d)) requested) path
      "destinations not allowed by tenant package"

unfoldable pub check_egress : (allowed : List String) → Json → Place → Checked (Unit {0})
check_egress allowed v path = check_requested allowed (any_texts v) path

unfoldable pub check_container : (allowed : List String) → Object → Place → Checked (Unit {0})
unfolding check_security check_resources check_egress
check_container allowed container path = do
  name ← nonempty_string container "name" path
  image ← nonempty_string container "image" path
  report (not (is_empty_text image) && not (includes image "@sha256:")) (key path "image")
      "production image must be digest-pinned"
  security ← mapping container "securityContext" path
  check_security security (key path "securityContext")
  resources ← mapping container "resources" path
  requests ← mapping resources "requests" (key path "resources")
  limits ← mapping resources "limits" (key path "resources")
  check_resources requests limits (key path "resources")
  check_egress allowed (get_or container "requestedEgress" (array [])) (key path "requestedEgress")

abbrev pub containers_path : Place
containers_path = key (workload "spec") "containers"

unfoldable pub check_raw_container : (allowed : List String) → Json → ℕ → Checked (Unit {0})
unfolding check_container
check_raw_container allowed (obj fs) i =
    check_container allowed (fields fs) (index containers_path i)
check_raw_container allowed _ i = failed tt (index containers_path i) "must be an object"

unfoldable pub check_container_list : (allowed : List String) → ℕ → List Json → Checked (Unit {0})
unfolding check_raw_container
check_container_list allowed i [] = fine tt
check_container_list allowed i (v ∷ rest) = do
  check_raw_container allowed v i
  check_container_list allowed (suc i) rest

-- The list that the loop runs over: empty, with an error, unless it is one with items.
abbrev pub some_items : List Json → Checked (List Json)
some_items [] = failed [] containers_path "must be a non-empty array"
some_items (v ∷ vs) = fine (v ∷ vs)

unfoldable pub container_list : Json → Checked (List Json)
container_list (arr vs) = some_items (items vs)
container_list _ = failed [] containers_path "must be a non-empty array"

unfoldable pub check_spec : (allowed : List String) → Identity → Object → Checked (Unit {0})
unfolding check_account check_false check_volumes container_list check_container_list
check_spec allowed i spec = do
  check_account i spec
  check_false spec (workload "spec") host_fields
  check_volumes (get_or spec "volumes" (array []))
  containers ← container_list (get spec "containers")
  check_container_list allowed 0 containers
