-- ===== src/Policy/Documents.antt =====
-- What the readers of evaluate_policy.py find in the two documents.
use staff_sre_platform_engin.Shared.{
  array, items, String, List, [], ok, Ensures, Ensures-bind, Json, str, Object, get, get_or, ◌≡◌,
  arith, subst, arr,
}
use staff_sre_platform_engin.Shared.Contracts.{object_of}
use staff_sre_platform_engin.Policy.Resource.{
  Identity, resource_identity, require_dict, require_text, require_array,
}
use staff_sre_platform_engin.Policy.Evaluate.{require_containers, Rules, read_rules}

abbrev pub list_of : Json → List Json
list_of (arr vs) = items vs
list_of _ = []

pub require_dict-object :
    (v : Json) (path : String) {o : Object} → require_dict v path ≡ ok o → o ≡ object_of v
unfolding require_dict
require_dict-object v path h = ground (arith, h)

pub require_array-list :
    (v : Json) (path : String) {l : List Json} → require_array v path ≡ ok l → l ≡ list_of v
unfolding require_array
require_array-list v path h = ground (arith, h)

-- What the rules are in the two documents.
pub record AreRead (resource policy : Object) (rules : Rules) : Type 0 where
  pub owner_label : get policy "requiredOwnerLabel" ≡ str rules.owner_label
  pub digest_environments :
      rules.digest_environments ≡ list_of (get_or policy "requireDigestIn" (array []))
  pub privileged_environments :
      rules.privileged_environments ≡ list_of (get_or policy "denyPrivilegedIn" (array []))
  pub containers : rules.containers ≡ list_of (get (object_of (get resource "spec")) "containers")

require_text-str : (v : Json) (path : String) {s : String} → require_text v path ≡ ok s → v ≡ str s
unfolding require_text
require_text-str v path h = ground (arith, h)

require_containers-list : (v : Json) {l : List Json} → require_containers v ≡ ok l → l ≡ list_of v
unfolding require_containers
require_containers-list v h = ground (arith, h)

pub read_rules-AreRead :
    (resource policy : Object) → Ensures (AreRead resource policy) (read_rules resource policy)
unfolding read_rules
read_rules-AreRead resource policy =
    Ensures-bind _ (require_dict (get resource "spec") "spec") _ λ spec a.
      Ensures-bind _ (require_containers (get spec "containers")) _ λ containers b.
        Ensures-bind _ (require_text (get policy "requiredOwnerLabel") "policy.requiredOwnerLabel")
          _
          λ label c.
            Ensures-bind _
              (require_array (get_or policy "requireDigestIn" (array [])) "policy.requireDigestIn")
              _
              λ digests d.
                Ensures-bind _
                  (require_array (get_or policy "denyPrivilegedIn" (array []))
                    "policy.denyPrivilegedIn")
                  _
                  λ privileged e. record {
                    owner_label = require_text-str _ _ c;
                    digest_environments = require_array-list _ _ d;
                    privileged_environments = require_array-list _ _ e;
                    containers =
                        subst (λ o. containers ≡ list_of (get o "containers"))
                          (require_dict-object _ _ a) (require_containers-list _ b);
                  }

-- What the identity is in the resource.
pub record IsIdentity (resource : Object) (i : Identity) : Type 0 where
  pub namespace : get (object_of (get resource "metadata")) "namespace" ≡ str i.namespace
  pub name : get (object_of (get resource "metadata")) "name" ≡ str i.name
  pub labels : i.labels ≡ object_of (get (object_of (get resource "metadata")) "labels")
  pub environment : get i.labels "environment" ≡ str i.environment

pub resource_identity-IsIdentity :
    (resource : Object) → Ensures (IsIdentity resource) (resource_identity resource)
unfolding resource_identity
resource_identity-IsIdentity resource =
    Ensures-bind _ (require_dict (get resource "metadata") "resource.metadata") _ λ metadata a.
      let here = require_dict-object _ _ a in
      Ensures-bind _ (require_text (get metadata "namespace") "resource.metadata.namespace") _
        λ namespace b.
          Ensures-bind _ (require_text (get metadata "name") "resource.metadata.name") _ λ name c.
            Ensures-bind _ (require_dict (get metadata "labels") "metadata.labels") _ λ labels d.
              Ensures-bind _ (require_text (get labels "environment") "labels.environment") _
                λ environment e. record {
                  namespace =
                      subst (λ (o : Object). get o "namespace" ≡ str namespace) here
                        (require_text-str _ _ b);
                  name =
                      subst (λ (o : Object). get o "name" ≡ str name) here (require_text-str _ _ c);
                  labels =
                      subst (λ (o : Object). labels ≡ object_of (get o "labels")) here
                        (require_dict-object _ _ d);
                  environment = require_text-str _ _ e;
                }
