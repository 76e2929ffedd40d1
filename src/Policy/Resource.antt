-- ===== src/Policy/Resource.antt =====
-- evaluate_policy.py: errors, the identity of a resource, and exceptions. The text of an error is left
-- out but for what it names. A time is read by `from_iso`, Python's `datetime.fromisoformat`,
-- as a number of microseconds in UTC, if it has a timezone.
use staff_sre_platform_engin.Shared.{
  is_text, DateTime, naive, aware, normalized, ℕ, ltb, String, not, ◌||◌, Option, none, some, List,
  [], ◌∷◌, if◌then◌else◌, Result, ok, err, ◌>>=◌, Json, str, arr, obj, Object, items, fields, get,
  get_or, is_empty_text, array,
}

pub data InputError : Type 0 where
  not_an_object : String → InputError
  not_a_text : String → InputError
  not_an_array : String → InputError
  incomplete_exception bad_time no_timezone unhashable_mode : InputError
  no_mode : (resource environment : String) → InputError
  privileged_not_boolean : (resource : String) (index : ℕ) → InputError

pub record Violation : Type 0 where
  pub rule : String
  pub excepted_by : Option String

pub record Identity : Type 0 where
  pub namespace : String
  pub name : String
  pub environment : String
  pub labels : Object

unfoldable pub require_dict : Json → String → Result InputError Object
require_dict (obj fs) path = ok (fields fs)
require_dict _ path = err (not_an_object path)

-- A text that is not empty.
unfoldable pub require_text : Json → String → Result InputError String
require_text (str s) path = if is_empty_text s then err (not_a_text path) else ok s
require_text _ path = err (not_a_text path)

unfoldable pub parse_time : (String → Option DateTime) → String → Result InputError ℕ
unfolding normalized
parse_time from_iso value = elim (from_iso (normalized value)) [
  | none ↦ err bad_time
  | some naive ↦ err no_timezone
  | some (aware microseconds) ↦ ok microseconds
]

unfoldable pub resource_identity : Object → Result InputError Identity
unfolding require_dict require_text
resource_identity resource = do
  metadata ← require_dict (get resource "metadata") "resource.metadata"
  namespace ← require_text (get metadata "namespace") "resource.metadata.namespace"
  name ← require_text (get metadata "name") "resource.metadata.name"
  labels ← require_dict (get metadata "labels") "metadata.labels"
  environment ← require_text (get labels "environment") "labels.environment"
  ok (record { namespace = namespace; name = name; environment = environment; labels = labels })

unfoldable pub require_array : Json → String → Result InputError (List Json)
require_array (arr vs) path = ok (items vs)
require_array _ path = err (not_an_array path)

abbrev pub complete : Json → Json → Json → Option (String × String)
complete (str id) (str owner) (str expires_at) =
    if is_empty_text id || is_empty_text owner || is_empty_text expires_at
    then none
    else some (id, expires_at)
complete _ _ _ = none

-- The body of the loop: none where the exception is for another resource or rule, or has expired.
unfoldable pub consider_exception :
    (String → Option DateTime)
    → (resource_name rule : String) → (now : ℕ) → Object
    → Result InputError (Option String)
unfolding parse_time
consider_exception from_iso resource_name rule now exception =
    if not (is_text (get exception "resource") resource_name)
      || not (is_text (get exception "rule") rule)
    then ok none
    else elim (complete (get exception "id") (get exception "owner") (get exception "expiresAt")) [
      | none ↦ err incomplete_exception
      | some (id, expires_at) ↦ do
        expires ← parse_time from_iso expires_at
        ok (if ltb now expires then some id else none)
    ]

unfoldable pub first_exception :
    (String → Option DateTime)
    → (resource_name rule : String) → (now : ℕ) → List Json
    → Result InputError (Option String)
unfolding require_dict consider_exception
first_exception from_iso resource_name rule now [] = ok none
first_exception from_iso resource_name rule now (raw ∷ rest) =
    let later = first_exception from_iso resource_name rule now rest in
    do
      exception ← require_dict raw "policy.exceptions[]"
      found ← consider_exception from_iso resource_name rule now exception
      elim found [ none ↦ later | some id ↦ ok (some id) ]

unfoldable pub active_exception :
    (String → Option DateTime)
    → Object
    → (resource_name rule : String) → (now : ℕ) → Result InputError (Option String)
unfolding first_exception require_array
active_exception from_iso policy resource_name rule now = do
  exceptions ← require_array (get_or policy "exceptions" (array [])) "policy.exceptions"
  first_exception from_iso resource_name rule now exceptions
