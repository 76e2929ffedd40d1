-- ===== src/Policy/Exceptions.antt =====
-- When evaluate_policy.py finds an active exception, without reference to the loop over them.
use staff_sre_platform_engin.Shared.{
  naive, aware, normalized, ltb, array, some, if◌then◌else◌, if_ind, DateTime, is_text, ℕ, String,
  Bool, true, false, not, ◌&&◌, ◌||◌, Option, none, List, [], ◌∷◌, any, ok, Ensures, Ensures-bind,
  Ensures-at, Json, str, err, ◌>>=◌, Object, get, get_or, ◌≡◌, refl, arith, sym, subst,
}
use staff_sre_platform_engin.Shared.Contracts.{object_of}
use staff_sre_platform_engin.Policy.Resource.{
  active_exception, require_dict, parse_time, incomplete_exception, complete, consider_exception,
  first_exception, require_array,
}
use staff_sre_platform_engin.Policy.Documents.{list_of, require_dict-object, require_array-list}

-- An expiry that is a time after now.
abbrev pub expires_later : (String → Option DateTime) → (now : ℕ) → Json → Bool
expires_later from_iso now (str value) = elim (from_iso (normalized value)) [
  | none ↦ false
  | some naive ↦ false
  | some (aware expires) ↦ ltb now expires
]
expires_later from_iso now _ = false

-- An exception for the resource and the rule that has not expired.
abbrev pub excepts :
    (String → Option DateTime) → (resource_name rule : String) → (now : ℕ) → Json → Bool
excepts from_iso resource_name rule now raw =
    is_text (get (object_of raw) "resource") resource_name
    && is_text (get (object_of raw) "rule") rule
    && expires_later from_iso now (get (object_of raw) "expiresAt")

-- The exceptions of a policy.
abbrev pub exceptions_of : Object → List Json
exceptions_of policy = list_of (get_or policy "exceptions" (array []))

abbrev pub is_some : Option String → Bool
is_some none = false
is_some (some _) = true

module _ (from_iso : String → Option DateTime) (resource_name rule : String) (now : ℕ) where
  unexpired :
      (value : String) (id : String)
      → Ensures
          (λ (e : ℕ).
            is_some (if ltb now e then some id else none) ≡ expires_later from_iso now (str value))
          (parse_time from_iso value)
  unfolding parse_time
  unexpired value id = ground arith

  considered :
      (o : Option (String × String)) (expiry : Json)
      → ((id value : String) → o ≡ some (id, value) → expiry ≡ str value)
      → Ensures
          (λ v. is_some v ≡ expires_later from_iso now expiry)
          (elim o [
            | none ↦ err incomplete_exception
            | some (id, expires_at) ↦ do
              expires ← parse_time from_iso expires_at
              ok (if ltb now expires then some id else none)
          ])
  considered none expiry h = tt
  considered (some (id, value)) expiry h =
      Ensures-bind _ (parse_time from_iso value) _
        λ t e. rw (h id value refl) (Ensures-at _ _ (unexpired value id) e)

  complete-expiry :
      (a b c : Json) (id value : String) → complete a b c ≡ some (id, value) → c ≡ str value
  complete-expiry a b c id value h = ground (arith, h)

  consider_exception-excepts :
      (raw : Json) (o : Object)
      → o ≡ object_of raw
      → Ensures
          (λ v. is_some v ≡ excepts from_iso resource_name rule now raw)
          (consider_exception from_iso resource_name rule now o)
  unfolding consider_exception
  consider_exception-excepts raw o e =
      if_ind (Ensures (λ v. is_some v ≡ excepts from_iso resource_name rule now raw))
        (not (is_text (get o "resource") resource_name) || not (is_text (get o "rule") rule))
        (λ h. ground (arith, e, h))
        λ h.
          let same : expires_later from_iso now (get o "expiresAt")
              ≡ excepts from_iso resource_name rule now raw =
            ground (arith, e, h) in
          subst
            (λ b.
              Ensures (λ v. is_some v ≡ b)
                (elim (complete (get o "id") (get o "owner") (get o "expiresAt")) [
                  | none ↦ err incomplete_exception
                  | some (id, expires_at) ↦ do
                    expires ← parse_time from_iso expires_at
                    ok (if ltb now expires then some id else none)
                ]))
            same
            (considered (complete (get o "id") (get o "owner") (get o "expiresAt"))
              (get o "expiresAt")
              (complete-expiry (get o "id") (get o "owner") (get o "expiresAt")))

  found_or_later :
      (found : Option String) (raw : Json) (rest : List Json)
      → is_some found ≡ excepts from_iso resource_name rule now raw
      → Ensures
          (λ v. is_some v ≡ any (excepts from_iso resource_name rule now) rest)
          (first_exception from_iso resource_name rule now rest)
      → Ensures
          (λ v. is_some v ≡ any (excepts from_iso resource_name rule now) (raw ∷ rest))
          (elim found [
            | none ↦ first_exception from_iso resource_name rule now rest
            | some id ↦ ok (some id)
          ])
  found_or_later none raw rest here later = rw (sym here) later
  found_or_later (some id) raw rest here later = rw (sym here) refl

  first_exception-any :
      (raws : List Json)
      → Ensures
          (λ v. is_some v ≡ any (excepts from_iso resource_name rule now) raws)
          (first_exception from_iso resource_name rule now raws)
  unfolding first_exception
  first_exception-any [] = refl
  first_exception-any (raw ∷ rest) =
      Ensures-bind _ (require_dict raw "policy.exceptions[]") _ λ o e.
        Ensures-bind _ (consider_exception from_iso resource_name rule now o) _ λ found f.
          found_or_later found raw rest
            (Ensures-at _ _ (consider_exception-excepts raw o (require_dict-object raw _ e)) f)
            (first_exception-any rest)

  pub active_exception-any :
      (policy : Object)
      → Ensures
          (λ v. is_some v ≡ any (excepts from_iso resource_name rule now) (exceptions_of policy))
          (active_exception from_iso policy resource_name rule now)
  unfolding active_exception
  active_exception-any policy =
      Ensures-bind _ (require_array (get_or policy "exceptions" (array [])) "policy.exceptions") _
        λ raws e.
          subst
            (λ l.
              Ensures (λ v. is_some v ≡ any (excepts from_iso resource_name rule now) l)
                (first_exception from_iso resource_name rule now raws))
            (require_array-list _ _ e) (first_exception-any raws)
