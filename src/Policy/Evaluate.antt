-- ===== src/Policy/Evaluate.antt =====
-- evaluate_policy.py: `evaluate`, `decision` and the outcome of `main`. The message of a violation is left out.
use Prim.Native.Char.{Char, code}
use Prim.Native.String.{◌++◌}
use staff_sre_platform_engin.Shared.{
  has_text, DateTime, is_text, ℕ, zero, suc, leb, ◌==◌, String, Bool, true, false, not, ◌&&◌, ◌||◌,
  Option, none, some, List, [], ◌∷◌, items, ◌++◌ as append, any, if◌then◌else◌, Result, ok, err,
  ◌>>=◌, Json, bool, str, arr, obj, Object, get, get_or, array, is_empty_text, is_digit, str_eq,
}
use staff_sre_platform_engin.Policy.Resource.{
  InputError, no_mode, unhashable_mode, not_an_array, privileged_not_boolean, Violation, Identity,
  require_dict, require_text, require_array, resource_identity, active_exception, parse_time,
}

pub data Mode : Type 0 where
  audit warn enforce : Mode

pub record Evaluation : Type 0 where
  pub resource_name : String
  pub mode : Mode
  pub violations : List Violation

abbrev pub is_hex : Char → Bool
is_hex c =
    is_digit c
    || (leb b'a' (code c) && leb (code c) b'f')
    || (leb b'A' (code c) && leb (code c) b'F')

-- `[0-9a-fA-F]{n}`, as the whole of a text
unfoldable pub hex_only : ℕ → String → Bool
hex_only zero String.[] = true
hex_only zero (String.◌∷◌ c s) = false
hex_only (suc n) String.[] = false
hex_only (suc n) (String.◌∷◌ c s) = let rest = hex_only n s in is_hex c && rest

unfoldable pub drop_prefix : String → String → Option String
drop_prefix String.[] s = some s
drop_prefix (String.◌∷◌ p ps) String.[] = none
drop_prefix (String.◌∷◌ p ps) (String.◌∷◌ c s) =
    let rest = drop_prefix ps s in if code p == code c then rest else none

unfoldable pub is_digest : String → Bool
unfolding hex_only drop_prefix
is_digest s = elim (drop_prefix "@sha256:" s) [ none ↦ false | some digits ↦ hex_only 64 digits ]

-- `.*@sha256:[0-9a-fA-F]{64}`: `.` is any character but a newline.
unfoldable pub ends_in_digest : String → Bool
unfolding is_digest
ends_in_digest String.[] = false
ends_in_digest (String.◌∷◌ c s) =
    let rest = ends_in_digest s in is_digest (String.◌∷◌ c s) || (not (code c == b'\n') && rest)

-- `.+@sha256:[0-9a-fA-F]{64}`
unfoldable pub is_digest_image : String → Bool
unfolding ends_in_digest
is_digest_image String.[] = false
is_digest_image (String.◌∷◌ c s) = not (code c == b'\n') && ends_in_digest s

abbrev pub violation : String → Option String → Violation
violation rule excepted_by = record { rule = rule; excepted_by = excepted_by }

unfoldable pub image_violations :
    (environment : String) → (digest_environments : List Json) → Json → List Violation
unfolding is_digest_image
image_violations environment digest_environments (str image) =
    if is_empty_text image
    then violation "require-image" none ∷ []
    else if any (λ v. is_text v environment) digest_environments && not (is_digest_image image)
    then violation "require-digest" none ∷ []
    else []
image_violations environment digest_environments _ = violation "require-image" none ∷ []

module _ (from_iso : String → Option DateTime) (policy : Object)
    (resource_name environment : String) (now : ℕ) where
  unfoldable pub privileged_violations :
      (privileged_environments : List Json) → ℕ → Json → Result InputError (List Violation)
  unfolding active_exception
  privileged_violations privileged_environments i (bool privileged) =
      if any (λ v. is_text v environment) privileged_environments && privileged
      then (do
        exception_id ← active_exception from_iso policy resource_name "deny-privileged" now
        ok (violation "deny-privileged" exception_id ∷ []))
      else ok []
  privileged_violations privileged_environments i _ = err (privileged_not_boolean resource_name i)

  unfoldable pub container_violations :
      (digest_environments privileged_environments : List Json)
      → ℕ
      → List Json
      → Result InputError (List Violation)
  unfolding image_violations privileged_violations require_dict
  container_violations digest_environments privileged_environments i [] = ok []
  container_violations digest_environments privileged_environments i (raw ∷ rest) = do
    container ← require_dict raw "spec.containers[]"
    privileged ←
        privileged_violations privileged_environments i (get_or container "privileged" (bool false))
    others ← container_violations digest_environments privileged_environments (suc i) rest
    ok (
        append (image_violations environment digest_environments (get container "image"))
          (append privileged others))

abbrev pub mode_of : Json → (resource environment : String) → Result InputError Mode
mode_of (str m) resource environment =
    if str_eq m "audit"
    then ok audit
    else if str_eq m "warn"
    then ok warn
    else if str_eq m "enforce"
    then ok enforce
    else err (no_mode resource environment)
mode_of (arr _) resource environment = err unhashable_mode
mode_of (obj _) resource environment = err unhashable_mode
mode_of _ resource environment = err (no_mode resource environment)

unfoldable pub require_containers : Json → Result InputError (List Json)
require_containers (arr vs) = elim (items vs) [
  | [] ↦ err (not_an_array "spec.containers")
  | c ∷ cs ↦ ok (c ∷ cs)
]
require_containers _ = err (not_an_array "spec.containers")

abbrev pub owner_violations : Object → String → List Violation
owner_violations labels owner_label =
    if has_text (get labels owner_label) then [] else violation "require-owner" none ∷ []

-- The parts of the policy and the resource that decide about violations.
pub record Rules : Type 0 where
  pub owner_label : String
  pub digest_environments : List Json
  pub privileged_environments : List Json
  pub containers : List Json

unfoldable pub read_rules : Object → Object → Result InputError Rules
unfolding require_dict require_text require_array require_containers
read_rules resource policy = do
  spec ← require_dict (get resource "spec") "spec"
  containers ← require_containers (get spec "containers")
  owner_label ← require_text (get policy "requiredOwnerLabel") "policy.requiredOwnerLabel"
  digest_environments ←
      require_array (get_or policy "requireDigestIn" (array [])) "policy.requireDigestIn"
  privileged_environments ←
      require_array (get_or policy "denyPrivilegedIn" (array [])) "policy.denyPrivilegedIn"
  ok (record {
    owner_label = owner_label;
    digest_environments = digest_environments;
    privileged_environments = privileged_environments;
    containers = containers;
  })

abbrev pub full_name : Identity → String
full_name i = i.namespace ++ "/" ++ i.name

unfoldable pub evaluate :
    (String → Option DateTime)
    → (resource policy : Object) → (now : ℕ) → Result InputError Evaluation
unfolding resource_identity read_rules container_violations require_dict
evaluate from_iso resource policy now = do
  i ← resource_identity resource
  modes ← require_dict (get policy "modesByEnvironment") "policy.modesByEnvironment"
  mode ← mode_of (get modes i.environment) (full_name i) i.environment
  rules ← read_rules resource policy
  found ←
      container_violations from_iso policy (full_name i) i.environment now rules.digest_environments
        rules.privileged_environments 0 rules.containers
  ok (record {
    resource_name = full_name i;
    mode = mode;
    violations = append (owner_violations i.labels rules.owner_label) found;
  })

pub data Outcome : Type 0 where
  allow allow_audit allow_warn deny : Outcome

abbrev pub is_active : Violation → Bool
is_active v = elim v.excepted_by [ none ↦ true | some _ ↦ false ]

abbrev pub outcome_of : Mode → Outcome
outcome_of audit = allow_audit
outcome_of warn = allow_warn
outcome_of enforce = deny

unfoldable pub decision : Mode → List Violation → Outcome
decision mode violations = if any is_active violations then outcome_of mode else allow

unfoldable pub evaluate_all :
    (String → Option DateTime)
    → (policy : Object) → (now : ℕ) → List Json
    → Result InputError (List Outcome)
unfolding evaluate decision require_dict
evaluate_all from_iso policy now [] = ok []
evaluate_all from_iso policy now (raw ∷ rest) = do
  resource ← require_dict raw "resources[]"
  e ← evaluate from_iso resource policy now
  others ← evaluate_all from_iso policy now rest
  ok (decision e.mode e.violations ∷ others)

abbrev pub is_deny : Outcome → Bool
is_deny deny = true
is_deny _ = false

-- `main` for the two parsed files.
unfoldable pub outcomes :
    (String → Option DateTime)
    → (resources policy : Json) → (now : String) → Result InputError (List Outcome)
unfolding evaluate_all require_dict require_array parse_time
outcomes from_iso resources raw_policy now_text = do
  policy ← require_dict raw_policy "policy"
  raw ← require_array resources "resources"
  now ← parse_time from_iso now_text
  evaluate_all from_iso policy now raw

-- An error that is not caught ends Python with 1, an InputError returns 2.
unfoldable pub exit_code : Result InputError (List Outcome) → ℕ
exit_code (err unhashable_mode) = 1
exit_code (err _) = 2
exit_code (ok os) = if any is_deny os then 1 else 0
