-- ===== src/Telemetry/Bounds.antt =====
-- telemetry_lab.py: what a pipeline accepts and what it drops.
use Prim.Native.String.{count as text_length}
use staff_sre_platform_engin.Shared.{
  ℕ, ◌+◌, ◌≤◌, String, Bool, true, false, ◌||◌, Option, none, some, List, [], ◌∷◌, ◌++◌, ◌≡◌, refl,
  arith, not, ◌&&◌, str_eq, eq_iff, any, sum_by, ltb, ltb→ge, if_ind, if◌then◌else◌, subst, ◌∙◌,
  Bool-cases, inl, inr, ap, sym,
}
use staff_sre_platform_engin.Telemetry.Pipeline.{
  metric, ItemPriority, critical, normal, debug, TelemetryItem, DropReason, tenant_quota,
  queue_full, PipelineDecision, TelemetryPipeline, cardinality_reason, is_priority, of_priority,
  ordered_items, PipelineReport, take_item, Intake, drop_item, with_units, ingest_counted,
  ingest_one, ingest_all, no_intake, ingest, is_forbidden, metric_reason, reason_for,
  forbidden_metric_label, metric_label_value_too_long,
}

abbrev pub units : List TelemetryItem → ℕ
units items = sum_by (λ i. i.size_units) items

-- The accepted units are within the capacity, those of each tenant within its quota, and all the
-- units seen are accepted or dropped.
record IsBounded (p : TelemetryPipeline) (seen : ℕ) (s : Intake) : Type 0 where
  total : s.accepted_units ≤ p.capacity_units
  tenants : (tenant : String) → s.tenant_units tenant ≤ p.per_tenant_units
  conserved : s.accepted_units + s.dropped_units ≡ seen

module _ (p : TelemetryPipeline) where
  quota_kept :
      (s : Intake) (item : TelemetryItem)
      → ((tenant : String) → s.tenant_units tenant ≤ p.per_tenant_units)
      → s.tenant_units item.tenant + item.size_units ≤ p.per_tenant_units
      → (tenant : String)
      → with_units item.tenant item.size_units s.tenant_units tenant ≤ p.per_tenant_units
  quota_kept s item h room tenant = ground (arith, h tenant, room)

  dropped-IsBounded :
      (seen : ℕ) (s : Intake) (item : TelemetryItem) (why : DropReason)
      → IsBounded p seen s
      → IsBounded p (seen + item.size_units) (drop_item item why s).1
  dropped-IsBounded seen s item why b = record {
    total = b.total;
    tenants = b.tenants;
    conserved = omega (arith, b.conserved);
  }

  ingest_counted-IsBounded :
      (seen : ℕ) (s : Intake) (item : TelemetryItem) (why : Option DropReason)
      → IsBounded p seen s
      → IsBounded p (seen + item.size_units) (ingest_counted p s item why).1
  unfolding ingest_counted
  ingest_counted-IsBounded seen s item (some why) b = dropped-IsBounded seen s item why b
  ingest_counted-IsBounded seen s item none b =
      let P = λ (r : PipelineDecision × Intake). IsBounded p (seen + item.size_units) r.1 in
      if_ind P (ltb p.per_tenant_units (s.tenant_units item.tenant + item.size_units))
        (λ _. dropped-IsBounded seen s item tenant_quota b)
        λ quota.
          if_ind P (ltb p.capacity_units (s.accepted_units + item.size_units))
            (λ _. dropped-IsBounded seen s item queue_full b)
            λ room. record {
              total = ltb→ge _ _ room;
              tenants = quota_kept s item b.tenants (ltb→ge _ _ quota);
              conserved = omega (arith, b.conserved);
            }

  ingest_all-IsBounded :
      (seen : ℕ) (s : Intake) (items : List TelemetryItem)
      → IsBounded p seen s
      → IsBounded p (seen + units items) (ingest_all p s items).1
  unfolding ingest_all ingest_one
  ingest_all-IsBounded seen s [] b = record {
    total = b.total;
    tenants = b.tenants;
    conserved = omega (arith, b.conserved);
  }
  ingest_all-IsBounded seen s (item ∷ rest) b =
      let next =
        ingest_all-IsBounded (seen + item.size_units) (ingest_one p s item).1 rest
          (ingest_counted-IsBounded seen s item (cardinality_reason p item) b) in
      record {
        total = next.total;
        tenants = next.tenants;
        conserved = omega (arith, next.conserved);
      }

units-append : (xs ys : List TelemetryItem) → units (xs ++ ys) ≡ units xs + units ys
units-append [] ys = omega arith
units-append (x ∷ xs) ys = omega (arith, units-append xs ys)

units_with :
    (q : ItemPriority) (item : TelemetryItem) (rest : List TelemetryItem)
    → units (if is_priority q item.priority then item ∷ of_priority q rest else of_priority q rest)
      ≡ (if is_priority q item.priority then item.size_units else 0) + units (of_priority q rest)
units_with q item rest = ground arith

one_priority :
    (q : ItemPriority) (n : ℕ)
    → (if is_priority critical q then n else 0)
        + ((if is_priority normal q then n else 0) + (if is_priority debug q then n else 0))
      ≡ n
one_priority critical n = omega arith
one_priority normal n = omega arith
one_priority debug n = omega arith

units-of_priority :
    (items : List TelemetryItem)
    → units (of_priority critical items)
        + (units (of_priority normal items) + units (of_priority debug items))
      ≡ units items
units-of_priority [] = omega arith
units-of_priority (item ∷ rest) = omega (
  arith,
  units_with critical item rest,
  units_with normal item rest,
  units_with debug item rest,
  one_priority item.priority item.size_units,
  units-of_priority rest,
)

units-ordered_items : (items : List TelemetryItem) → units (ordered_items items) ≡ units items
unfolding ordered_items
units-ordered_items items = omega (
  arith,
  units-of_priority items,
  units-append (of_priority critical items) (of_priority normal items ++ of_priority debug items),
  units-append (of_priority normal items) (of_priority debug items),
)

no_intake-IsBounded : (p : TelemetryPipeline) → IsBounded p 0 no_intake
no_intake-IsBounded p = record {
  total = omega arith;
  tenants = λ tenant. omega arith;
  conserved = omega arith;
}

-- The units of the items of a kind that the decisions accept, or that they drop. Decisions stand in
-- the order of the items.
abbrev pub weight : (outcome : Bool) → (TelemetryItem → Bool) → TelemetryItem → PipelineDecision → ℕ
weight true kind i d = if d.accepted && kind i then i.size_units else 0
weight false kind i d = if not d.accepted && kind i then i.size_units else 0

unfoldable pub decided :
    (outcome : Bool) → (TelemetryItem → Bool) → List TelemetryItem → List PipelineDecision → ℕ
decided outcome kind [] _ = 0
decided outcome kind (_ ∷ _) [] = 0
decided outcome kind (i ∷ is) (d ∷ ds) = weight outcome kind i d + decided outcome kind is ds

abbrev pub any_kind : TelemetryItem → Bool
any_kind _ = true

abbrev pub of_tenant : String → TelemetryItem → Bool
of_tenant tenant i = str_eq tenant i.tenant

-- The counters grow by the units that are accepted, and that are dropped.
record IsCounted (s : Intake) (work : Bool → (TelemetryItem → Bool) → ℕ) (s' : Intake)
    : Type 0 where
  accepted_units : s'.accepted_units ≡ s.accepted_units + work true any_kind
  dropped_units : s'.dropped_units ≡ s.dropped_units + work false any_kind
  tenants : (t : String) → s'.tenant_units t ≡ s.tenant_units t + work true (of_tenant t)

with_units-tenant :
    (s : Intake) (i : TelemetryItem) (t : String)
    → with_units i.tenant i.size_units s.tenant_units t
      ≡ s.tenant_units t + (if str_eq t i.tenant then i.size_units else 0)
with_units-tenant s i t = elim (Bool-cases (str_eq t i.tenant)) [
  | inl same ↦
      rw same (ap (λ x. s.tenant_units x + i.size_units) (sym ((eq_iff t i.tenant).0 same)))
  | inr other ↦ rw other (omega arith)
]

abbrev IsCountedStep : Intake → TelemetryItem → PipelineDecision × Intake → Type 0
IsCountedStep s i r = IsCounted s (λ outcome kind. weight outcome kind i r.0) r.1

drop_item-IsCounted :
    (s : Intake) (i : TelemetryItem) (why : DropReason) → IsCountedStep s i (drop_item i why s)
drop_item-IsCounted s i why = record {
  accepted_units = omega arith;
  dropped_units = refl;
  tenants = λ t. omega arith;
}

take_item-IsCounted : (s : Intake) (i : TelemetryItem) → IsCountedStep s i (take_item i s)
unfolding take_item
take_item-IsCounted s i = record {
  accepted_units = refl;
  dropped_units = omega arith;
  tenants = with_units-tenant s i;
}

ingest_counted-IsCounted :
    (p : TelemetryPipeline) (s : Intake) (i : TelemetryItem) (why : Option DropReason)
    → IsCountedStep s i (ingest_counted p s i why)
unfolding ingest_counted
ingest_counted-IsCounted p s i (some why) = drop_item-IsCounted s i why
ingest_counted-IsCounted p s i none =
    if_ind (IsCountedStep s i) (ltb p.per_tenant_units (s.tenant_units i.tenant + i.size_units))
      (λ _. drop_item-IsCounted s i tenant_quota)
      λ _.
        if_ind (IsCountedStep s i) (ltb p.capacity_units (s.accepted_units + i.size_units))
          (λ _. drop_item-IsCounted s i queue_full) (λ _. take_item-IsCounted s i)

ingest_all-IsCounted :
    (p : TelemetryPipeline) (s : Intake) (is : List TelemetryItem)
    → IsCounted s
        (λ outcome kind. decided outcome kind is (ingest_all p s is).0)
        (ingest_all p s is).1
unfolding ingest_all ingest_one decided
ingest_all-IsCounted p s [] = record {
  accepted_units = omega arith;
  dropped_units = omega arith;
  tenants = λ t. omega arith;
}
ingest_all-IsCounted p s (i ∷ is) =
    let one = ingest_counted-IsCounted p s i (cardinality_reason p i) in
    let rest = ingest_all-IsCounted p (ingest_one p s i).1 is in
    record {
      accepted_units = omega (arith, one.accepted_units, rest.accepted_units);
      dropped_units = omega (arith, one.dropped_units, rest.dropped_units);
      tenants = λ t. omega (arith, one.tenants t, rest.tenants t);
    }

-- What a report says of the units, by the decisions that the loop makes.
pub record IsAccounted (p : TelemetryPipeline) (items : List TelemetryItem)
    (ds : List PipelineDecision) (r : PipelineReport) : Type 0 where
  pub accepted_units : r.accepted_units ≡ decided true any_kind (ordered_items items) ds
  pub dropped_units : r.dropped_units ≡ decided false any_kind (ordered_items items) ds
  pub all_units : r.accepted_units + r.dropped_units ≡ units items
  pub capacity : r.accepted_units ≤ p.capacity_units
  pub quotas :
      (tenant : String)
      → decided true (of_tenant tenant) (ordered_items items) ds ≤ p.per_tenant_units

-- Whatever the items, a report gives the units that the loop's decisions accept and those that they
-- drop, which are together the units of all the items; the accepted units are within the capacity,
-- and those accepted of each tenant within its quota.
pub ingest-IsAccounted :
    (p : TelemetryPipeline) (items : List TelemetryItem)
    → IsAccounted p items (ingest_all p no_intake (ordered_items items)).0 (ingest p items)
unfolding ingest
ingest-IsAccounted p items =
    let b = ingest_all-IsBounded p 0 no_intake (ordered_items items) (no_intake-IsBounded p) in
    let g = ingest_all-IsCounted p no_intake (ordered_items items) in
    record {
      accepted_units = omega (arith, g.accepted_units);
      dropped_units = omega (arith, g.dropped_units);
      all_units = omega (arith, b.conserved, units-ordered_items items);
      capacity = b.total;
      quotas = λ tenant. omega (arith, g.tenants tenant, b.tenants tenant);
    }

metric_reason-some :
    (limit : ℕ) (attributes : List (String × String))
    → (any (λ a. is_forbidden a.0) attributes || any (λ a. ltb limit (text_length a.1)) attributes)
      ≡ true
    → (why : DropReason) × (reason_for metric limit attributes ≡ some why)
unfolding reason_for metric_reason
metric_reason-some limit attributes bad =
    elim (Bool-cases (any (λ a. is_forbidden a.0) attributes)) [
      | inl label ↦ (forbidden_metric_label, rw label refl)
      | inr fine ↦
          let long : any (λ a. ltb limit (text_length a.1)) attributes ≡ true =
            ground (arith, fine, bad) in
          (metric_label_value_too_long, rw fine (rw long refl))
    ]

-- No metric with a forbidden label, and none with a label value over the limit, is accepted, whatever
-- came before it.
metric-cardinality :
    (p : TelemetryPipeline) (s : Intake) (item : TelemetryItem)
    → item.signal ≡ metric
    → (any (λ a. is_forbidden a.0) item.attributes
        || any (λ a. ltb p.metric_label_value_limit (text_length a.1)) item.attributes)
      ≡ true
    → ((ingest_one p s item).0.accepted ≡ false)
      × ((ingest_one p s item).1.accepted_units ≡ s.accepted_units)
unfolding ingest_one cardinality_reason
metric-cardinality p s item is_metric bad =
    let (why, e) = metric_reason-some p.metric_label_value_limit item.attributes bad in
    let found : reason_for item.signal p.metric_label_value_limit item.attributes ≡ some why =
      ap (λ g. reason_for g p.metric_label_value_limit item.attributes) is_metric ∙ e in
    subst
      (λ o.
        ((ingest_counted p s item o).0.accepted ≡ false)
        × ((ingest_counted p s item o).1.accepted_units ≡ s.accepted_units))
      (sym found) (refl, refl)
