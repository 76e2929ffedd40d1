-- ===== src/Secret/Validate.antt =====
-- validate_secret_contract.py: `validate` and the outcome of `main`.
use staff_sre_platform_engin.Shared.{ℕ, List, [], ◌∷◌, Object, Json, obj, fields, top}
use staff_sre_platform_engin.Shared.Contracts.{Checked, Problem, ◌>>=◌, ◌>>◌, mapping}
use staff_sre_platform_engin.Secret.Authority.{
  contract, read_service, check_service, read_authority, check_authority, read_authentication,
  check_authentication,
}
use staff_sre_platform_engin.Secret.Delivery.{read_delivery, check_delivery}
use staff_sre_platform_engin.Secret.Application.{
  read_application, check_application, read_outage, check_outage, check_true, audited,
}

unfoldable pub checked_sections :
    (service authority auth delivery application outage audit : Object) → Checked (Unit {0})
unfolding read_service check_service read_authority check_authority read_authentication
    check_authentication read_delivery check_delivery read_application check_application read_outage
    check_outage check_true
checked_sections service authority auth delivery application outage audit = do
  s ← read_service service
  check_service s
  a ← read_authority authority
  check_authority a
  p ← read_authentication auth
  check_authentication s p
  d ← read_delivery delivery
  check_delivery s a d
  c ← read_application application
  check_application c
  o ← read_outage outage
  check_outage p o
  check_true audit (contract "audit") audited

unfoldable pub checked_contract : Object → Checked (Unit {0})
unfolding checked_sections
checked_contract document = do
  let path = top "contract"
  service ← mapping document "service" path
  authority ← mapping document "authority" path
  auth ← mapping document "providerAuthentication" path
  delivery ← mapping document "delivery" path
  application ← mapping document "application" path
  outage ← mapping document "outage" path
  audit ← mapping document "audit" path
  checked_sections service authority auth delivery application outage audit

unfoldable pub validate : Object → List Problem
unfolding checked_contract
validate document = (checked_contract document).errors

-- What `main` returns for the parsed file.
unfoldable pub exit_code : Json → ℕ
unfolding validate
exit_code (obj fs) = elim (validate (fields fs)) [ [] ↦ 0 | _ ∷ _ ↦ 1 ]
exit_code _ = 2
