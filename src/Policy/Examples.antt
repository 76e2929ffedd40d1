-- ===== src/Policy/Examples.antt =====
-- Resources that are denied, allowed and excepted.
use staff_sre_platform_engin.Shared.{
  DateTime, aware, String, true, false, Option, none, some, List, [], ◌∷◌, ok, err, ◌≡◌, refl, Json,
  bool, str, object, array, Object, str_eq, if◌then◌else◌,
}
use staff_sre_platform_engin.Policy.Resource.{Identity, resource_identity, unhashable_mode}
use staff_sre_platform_engin.Policy.Evaluate.{
  enforce, Evaluation, Rules, read_rules, evaluate, allow, outcomes, exit_code, violation,
  is_digest_image,
}
use staff_sre_platform_engin.Policy.Denied.{Denial, evaluate-denied_iff}

abbrev clock : String → Option DateTime
clock s =
    if str_eq s "2026-01-01T00:00:00+00:00"
    then some (aware 100)
    else if str_eq s "2026-02-01T00:00:00+00:00"
    then some (aware 200)
    else none

abbrev digest : String
digest = "registry/app@sha256:0123456789abcdef0123456789ABCDEF0123456789abcdef0123456789abcdef"

abbrev resource_with : (image : String) → (privileged : Json) → Object
resource_with image privileged =
    (
      "metadata",
      object (
          ("namespace", str "shop")
          ∷ ("name", str "cart")
          ∷ ("labels", object (("environment", str "production") ∷ ("owner", str "team-cart") ∷ []))
          ∷ []),
    )
    ∷ (
      "spec",
      object (
          (
            "containers",
            array (object (("image", str image) ∷ ("privileged", privileged) ∷ []) ∷ []),
          )
          ∷ []),
    )
    ∷ []

abbrev exception_until : (expires : String) → Json
exception_until expires = object (
    ("id", str "EX-1")
    ∷ ("resource", str "shop/cart")
    ∷ ("rule", str "deny-privileged")
    ∷ ("owner", str "team-cart")
    ∷ ("expiresAt", str expires)
    ∷ [])

abbrev policy_with : (mode : Json) → (exceptions : List Json) → Object
policy_with mode exceptions =
    ("modesByEnvironment", object (("production", mode) ∷ []))
    ∷ ("requiredOwnerLabel", str "owner")
    ∷ ("requireDigestIn", array (str "production" ∷ []))
    ∷ ("denyPrivilegedIn", array (str "production" ∷ []))
    ∷ ("exceptions", array exceptions)
    ∷ []

abbrev strict : Object
strict = policy_with (str "enforce") (exception_until "2026-01-01T00:00:00Z" ∷ [])

-- At 150 the exception until 100 has expired.
abbrev privileged_resource : Object
privileged_resource = resource_with digest (bool true)

abbrev denied_evaluation : Evaluation
denied_evaluation = record {
  resource_name = "shop/cart";
  mode = enforce;
  violations = violation "deny-privileged" none ∷ [];
}

denied : evaluate clock privileged_resource strict 150 ≡ ok denied_evaluation
unfolding evaluate
denied = refl

excepted :
    outcomes clock
      (array (object privileged_resource ∷ []))
      (object (policy_with (str "enforce") (exception_until "2026-02-01T00:00:00Z" ∷ [])))
      "2026-01-01T00:00:00Z"
    ≡ ok (allow ∷ [])
unfolding outcomes
excepted = refl

tagged_image :
    exit_code (
      outcomes clock
        (array (object (resource_with "registry/app:latest" (bool false)) ∷ []))
        (object strict)
        "2026-01-01T00:00:00Z")
    ≡ 1
unfolding outcomes exit_code
tagged_image = refl

-- A mode that is a list: Python's set cannot be asked for it.
list_mode : evaluate clock privileged_resource (policy_with (array []) []) 150 ≡ err unhashable_mode
unfolding evaluate
list_mode = refl

short_digest : is_digest_image "app@sha256:0123" ≡ false
unfolding is_digest_image
short_digest = refl

abbrev cart : Identity
cart = record {
  namespace = "shop";
  name = "cart";
  environment = "production";
  labels = ("environment", str "production") ∷ ("owner", str "team-cart") ∷ [];
}

abbrev strict_rules : Rules
strict_rules = record {
  owner_label = "owner";
  digest_environments = str "production" ∷ [];
  privileged_environments = str "production" ∷ [];
  containers = object (("image", str digest) ∷ ("privileged", bool true) ∷ []) ∷ [];
}

evaluate-denied_iff_example :
    Denial clock privileged_resource strict 150 cart strict_rules denied_evaluation
unfolding resource_identity read_rules
evaluate-denied_iff_example =
    evaluate-denied_iff clock privileged_resource strict 150 {e = denied_evaluation} refl refl
      denied
