-- ===== src/Overload/Bounds.antt =====
-- overload_lab.py: the limits that admission keeps, for the whole, each tenant and the critical reserve.
use staff_sre_platform_engin.Shared.{
  ◌+◌, ◌-◌, ◌≤◌, String, true, not, ◌&&◌, List, [], ◌∷◌, ◌≡◌, ℕ, Bool, str_eq, if◌then◌else◌,
}
use staff_sre_platform_engin.Overload.Admission.{
  Request, AdmissionDecision, AdmissionController, Usage, is_critical, admitted,
}

-- The work admitted is within the capacity; optional work is within what the critical reserve
-- leaves; no tenant is over its limit.
record IsWithin (c : AdmissionController) (u : Usage) : Type 0 where
  total : u.consumed ≤ c.capacity_units
  shares : u.critical_consumed ≤ u.consumed
  optional_work : u.consumed - u.critical_consumed ≤ c.capacity_units - c.critical_reserve_units
  tenants : (tenant : String) → u.tenant_consumed tenant ≤ c.per_tenant_units

-- The work of the requests of a kind that the decisions admit. Decisions stand in the order of the
-- requests.
abbrev pub charge : (Request → Bool) → Request → AdmissionDecision → ℕ
charge kind r d = if d.admitted && kind r then r.work_units else 0

unfoldable pub granted : (Request → Bool) → List Request → List AdmissionDecision → ℕ
granted kind [] _ = 0
granted kind (_ ∷ _) [] = 0
granted kind (r ∷ rs) (d ∷ ds) = charge kind r d + granted kind rs ds

abbrev pub any_kind : Request → Bool
any_kind _ = true

abbrev pub critical_kind : Request → Bool
critical_kind r = is_critical r.priority

abbrev pub optional_kind : Request → Bool
optional_kind r = not (is_critical r.priority)

abbrev pub of_tenant : String → Request → Bool
of_tenant tenant r = str_eq tenant r.tenant

-- The counters grow by the work that is admitted.
record IsCharged (u : Usage) (work : (Request → Bool) → ℕ) (u' : Usage) : Type 0 where
  consumed : u'.consumed ≡ u.consumed + work any_kind
  critical_consumed : u'.critical_consumed ≡ u.critical_consumed + work critical_kind
  tenants : (t : String) → u'.tenant_consumed t ≡ u.tenant_consumed t + work (of_tenant t)

-- The limits on the work that the decisions admit.
pub record IsLimited (c : AdmissionController) (rs : List Request) (ds : List AdmissionDecision)
    (reported : ℕ) : Type 0 where
  pub report : reported ≡ granted any_kind rs ds
  pub total : granted any_kind rs ds ≤ c.capacity_units
  pub optional_work : granted optional_kind rs ds ≤ c.capacity_units - c.critical_reserve_units
  pub tenants : (tenant : String) → granted (of_tenant tenant) rs ds ≤ c.per_tenant_units
