-- ===== src/Overload/Admission.antt =====
-- overload_lab.py: `AdmissionController`. The limits are natural numbers: the constructor rejects a negative
-- value as it rejects 0, or the reserve that is out of its range.
use staff_sre_platform_engin.Shared.{
  ℕ, ◌+◌, ◌-◌, String, Bool, true, false, not, ◌&&◌, ◌==◌, ltb, leb, Option, none, some, List, [],
  ◌∷◌, ◌++◌, map, filter, length, str_eq, if◌then◌else◌, Result, ok, ◌>>◌, raise_if,
}

pub data Priority : Type 0 where
  critical optional : Priority

pub record Request : Type 0 where
  pub request_id : String
  pub tenant : String
  pub priority : Priority
  pub work_units : ℕ

pub data AdmissionReason : Type 0 where
  tenant_limit capacity_exhausted critical_reserve admitted : AdmissionReason

pub record AdmissionDecision : Type 0 where
  pub request_id : String
  pub admitted : Bool
  pub reason : AdmissionReason

pub record AdmissionReport : Type 0 where
  pub decisions : List AdmissionDecision
  pub admitted_critical : ℕ
  pub admitted_optional : ℕ
  pub rejected_critical : ℕ
  pub rejected_optional : ℕ
  pub consumed_units : ℕ

pub record AdmissionController : Type 0 where
  pub capacity_units : ℕ
  pub critical_reserve_units : ℕ
  pub per_tenant_units : ℕ

pub data AdmissionError : Type 0 where
  no_capacity bad_reserve no_tenant_units no_work : AdmissionError

unfoldable pub new_controller :
    (capacity reserve per_tenant : ℕ) → Result AdmissionError AdmissionController
new_controller capacity reserve per_tenant = do
  raise_if (capacity == 0) no_capacity
  raise_if (not (leb reserve capacity)) bad_reserve
  raise_if (per_tenant == 0) no_tenant_units
  ok (record {
    capacity_units = capacity;
    critical_reserve_units = reserve;
    per_tenant_units = per_tenant;
  })

unfoldable pub new_request : String → String → Priority → ℕ → Result AdmissionError Request
new_request request_id tenant priority work_units = do
  raise_if (work_units == 0) no_work
  ok (record {
    request_id = request_id;
    tenant = tenant;
    priority = priority;
    work_units = work_units;
  })

abbrev pub is_critical : Priority → Bool
is_critical critical = true
is_critical optional = false

-- The key is the priority and then the place, and so the order within a priority stays.
unfoldable pub ordered : List Request → List Request
ordered requests =
    filter (λ r. is_critical r.priority) requests
    ++ filter (λ r. not (is_critical r.priority)) requests

-- What the loop keeps. The dictionary `tenant_consumed`, which is read with the default 0, is a function.
pub record Usage : Type 0 where
  pub consumed : ℕ
  pub critical_consumed : ℕ
  pub tenant_consumed : String → ℕ

abbrev pub reject : Request → AdmissionReason → AdmissionDecision
reject r why = record { request_id = r.request_id; admitted = false; reason = why }

abbrev pub add_units : String → ℕ → (String → ℕ) → String → ℕ
add_units tenant units used t = if str_eq t tenant then used tenant + units else used t

-- `consumed` and the rest, where the request is admitted.
unfoldable pub use_units : Usage → Request → Usage
use_units u r = record {
  consumed = u.consumed + r.work_units;
  critical_consumed =
      if is_critical r.priority then u.critical_consumed + r.work_units else u.critical_consumed;
  tenant_consumed = add_units r.tenant r.work_units u.tenant_consumed;
}

-- The loop's body. `max(0, reserve - critical_consumed)` is a difference of natural numbers, and
-- neither `capacity - consumed` nor the ceiling falls below 0, as the bounds show.
unfoldable pub consider : AdmissionController → Usage → Request → AdmissionDecision × Usage
consider c u r =
    if ltb c.per_tenant_units (u.tenant_consumed r.tenant + r.work_units)
    then (reject r tenant_limit, u)
    else if ltb (c.capacity_units - u.consumed) r.work_units
    then (reject r capacity_exhausted, u)
    else if not (is_critical r.priority)
        && ltb (c.capacity_units - (c.critical_reserve_units - u.critical_consumed))
            (u.consumed + r.work_units)
    then (reject r critical_reserve, u)
    else (record { request_id = r.request_id; admitted = true; reason = admitted }, use_units u r)

unfoldable pub consider_all :
    AdmissionController → Usage → List Request → List AdmissionDecision × Usage
consider_all c u [] = ([], u)
consider_all c u (r ∷ rest) =
    let (d, u') = consider c u r in let (ds, u'') = consider_all c u' rest in (d ∷ ds, u'')

abbrev pub no_usage : Usage
no_usage = record { consumed = 0; critical_consumed = 0; tenant_consumed = λ _. 0 }

-- `by_id[request_id]`: a later decision on the same id replaces an earlier one. Each id that is
-- looked up has a decision; the default is never used.
unfoldable pub decision_of : String → List AdmissionDecision → Option AdmissionDecision
decision_of request_id [] = none
decision_of request_id (d ∷ rest) =
    let later = decision_of request_id rest in
    elim later [ some x ↦ some x | none ↦ if str_eq d.request_id request_id then some d else none ]

abbrev pub or_rejected : Request → Option AdmissionDecision → AdmissionDecision
or_rejected r (some d) = d
or_rejected r none = reject r capacity_exhausted

abbrev pub same_bool : Bool → Bool → Bool
same_bool true b = b
same_bool false b = not b

abbrev pub count : (critical admitted : Bool) → List AdmissionDecision → List Request → ℕ
count kind outcome ds requests = length (
    filter
      (λ r.
        same_bool (is_critical r.priority) kind
        && same_bool (or_rejected r (decision_of r.request_id ds)).admitted outcome)
      requests)

unfoldable pub admit : AdmissionController → List Request → AdmissionReport
unfolding ordered consider_all decision_of
admit c requests =
    let (ds, u) = consider_all c no_usage (ordered requests) in
    record {
      decisions = map (λ r. or_rejected r (decision_of r.request_id ds)) requests;
      admitted_critical = count true true ds requests;
      admitted_optional = count false true ds requests;
      rejected_critical = count true false ds requests;
      rejected_optional = count false false ds requests;
      consumed_units = u.consumed;
    }
