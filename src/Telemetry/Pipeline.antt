-- ===== src/Telemetry/Pipeline.antt =====
-- telemetry_lab.py: `TelemetryPipeline` and the sampling of traces. Sizes, ages and limits are natural
-- numbers: the source rejects the negative ones, and 0 where it is checked here.
use Prim.Native.String.{count as text_length}
use staff_sre_platform_engin.Shared.{
  ℕ, ◌+◌, ◌-◌, ◌*◌, ◌^◌, String, Bool, true, false, ◌||◌, ◌==◌, ltb, leb, Option, none, some, List,
  [], ◌∷◌, ◌++◌, map, any, filter, length, str_eq, if◌then◌else◌, Result, ok, ◌>>◌, raise_if,
}

pub data Signal : Type 0 where
  metric log trace synthetic : Signal

pub data ItemPriority : Type 0 where
  critical normal debug : ItemPriority

pub record TelemetryItem : Type 0 where
  pub item_id : String
  pub tenant : String
  pub signal : Signal
  pub priority : ItemPriority
  pub size_units : ℕ
  pub attributes : List (String × String)
  pub age_seconds : ℕ

pub data DropReason : Type 0 where
  forbidden_metric_label metric_label_value_too_long tenant_quota queue_full : DropReason

pub data PipelineReason : Type 0 where
  accepted : PipelineReason
  dropped : DropReason → PipelineReason

pub record PipelineDecision : Type 0 where
  pub item_id : String
  pub accepted : Bool
  pub reason : PipelineReason

pub record PipelineReport : Type 0 where
  pub decisions : List PipelineDecision
  pub accepted_units : ℕ
  pub dropped_units : ℕ
  pub accepted_items : ℕ
  pub dropped_items : ℕ
  pub max_accepted_age_seconds : ℕ

pub record TelemetryPipeline : Type 0 where
  pub capacity_units : ℕ
  pub per_tenant_units : ℕ
  pub metric_label_value_limit : ℕ

pub data PipelineError : Type 0 where
  no_size bad_capacity bad_tenant_units bad_value_limit bad_rate : PipelineError

unfoldable pub new_pipeline :
    (capacity per_tenant value_limit : ℕ) → Result PipelineError TelemetryPipeline
new_pipeline capacity per_tenant value_limit = do
  raise_if (capacity == 0) bad_capacity
  raise_if (per_tenant == 0) bad_tenant_units
  raise_if (value_limit == 0) bad_value_limit
  ok (record {
    capacity_units = capacity;
    per_tenant_units = per_tenant;
    metric_label_value_limit = value_limit;
  })

-- `__post_init__`: what else it tests is in the types.
unfoldable pub checked_item : TelemetryItem → Result PipelineError TelemetryItem
checked_item item = do raise_if (item.size_units == 0) no_size; ok item

abbrev pub forbidden_metric_labels : List String
forbidden_metric_labels =
    "user_id" ∷ "request_id" ∷ "trace_id" ∷ "timestamp" ∷ "raw_url" ∷ "error_message" ∷ []

abbrev pub is_forbidden : String → Bool
is_forbidden label = any (λ f. str_eq f label) forbidden_metric_labels

unfoldable pub metric_reason : (limit : ℕ) → List (String × String) → Option DropReason
metric_reason limit attributes =
    if any (λ a. is_forbidden a.0) attributes
    then some forbidden_metric_label
    else if any (λ a. ltb limit (text_length a.1)) attributes
    then some metric_label_value_too_long
    else none

unfoldable pub reason_for : Signal → (limit : ℕ) → List (String × String) → Option DropReason
unfolding metric_reason
reason_for metric limit attributes = metric_reason limit attributes
reason_for log limit attributes = none
reason_for trace limit attributes = none
reason_for synthetic limit attributes = none

unfoldable pub cardinality_reason : TelemetryPipeline → TelemetryItem → Option DropReason
unfolding reason_for
cardinality_reason p item = reason_for item.signal p.metric_label_value_limit item.attributes

abbrev pub is_priority : ItemPriority → ItemPriority → Bool
is_priority critical critical = true
is_priority normal normal = true
is_priority debug debug = true
is_priority _ _ = false

abbrev pub of_priority : ItemPriority → List TelemetryItem → List TelemetryItem
of_priority p items = filter (λ i. is_priority p i.priority) items

-- The key is the rank of the priority and then the place, and so the order within a priority stays.
unfoldable pub ordered_items : List TelemetryItem → List TelemetryItem
ordered_items items =
    of_priority critical items ++ (of_priority normal items ++ of_priority debug items)

-- What the loop keeps; `tenant_units`, which is read with the default 0, is a function.
pub record Intake : Type 0 where
  pub accepted_units : ℕ
  pub dropped_units : ℕ
  pub tenant_units : String → ℕ
  pub accepted_ages : List ℕ

abbrev pub drop_item : TelemetryItem → DropReason → Intake → PipelineDecision × Intake
drop_item item why s = (
  record { item_id = item.item_id; accepted = false; reason = dropped why },
  record s { dropped_units = s.dropped_units + item.size_units },
)

abbrev pub with_units : String → ℕ → (String → ℕ) → String → ℕ
with_units tenant units used t = if str_eq t tenant then used tenant + units else used t

unfoldable pub take_item : TelemetryItem → Intake → PipelineDecision × Intake
take_item item s = (
  record { item_id = item.item_id; accepted = true; reason = accepted },
  record {
    accepted_units = s.accepted_units + item.size_units;
    dropped_units = s.dropped_units;
    tenant_units = with_units item.tenant item.size_units s.tenant_units;
    accepted_ages = s.accepted_ages ++ item.age_seconds ∷ [];
  },
)

-- The loop's body behind the cardinality test, and the body.
unfoldable pub ingest_counted :
    TelemetryPipeline → Intake → TelemetryItem → Option DropReason → PipelineDecision × Intake
unfolding take_item
ingest_counted p s item (some why) = drop_item item why s
ingest_counted p s item none =
    if ltb p.per_tenant_units (s.tenant_units item.tenant + item.size_units)
    then drop_item item tenant_quota s
    else if ltb p.capacity_units (s.accepted_units + item.size_units)
    then drop_item item queue_full s
    else take_item item s

unfoldable pub ingest_one : TelemetryPipeline → Intake → TelemetryItem → PipelineDecision × Intake
unfolding ingest_counted
ingest_one p s item = ingest_counted p s item (cardinality_reason p item)

unfoldable pub ingest_all :
    TelemetryPipeline → Intake → List TelemetryItem → List PipelineDecision × Intake
ingest_all p s [] = ([], s)
ingest_all p s (item ∷ rest) =
    let (d, s') = ingest_one p s item in let (ds, s'') = ingest_all p s' rest in (d ∷ ds, s'')

abbrev pub no_intake : Intake
no_intake = record {
  accepted_units = 0;
  dropped_units = 0;
  tenant_units = λ _. 0;
  accepted_ages = [];
}

-- `by_id[item_id]`: a later decision on the same id replaces an earlier one. Every id that is looked up
-- has a decision; the default is never used.
unfoldable pub find_decision : String → List PipelineDecision → Option PipelineDecision
find_decision item_id [] = none
find_decision item_id (d ∷ rest) =
    let later = find_decision item_id rest in
    elim later [ some x ↦ some x | none ↦ if str_eq d.item_id item_id then some d else none ]

abbrev pub or_dropped : TelemetryItem → Option PipelineDecision → PipelineDecision
or_dropped item (some d) = d
or_dropped item none = record {
  item_id = item.item_id;
  accepted = false;
  reason = dropped queue_full;
}

-- `max(ages, default=0)`
unfoldable pub max_age : List ℕ → ℕ
max_age [] = 0
max_age (a ∷ rest) = let later = max_age rest in if ltb a later then later else a

unfoldable pub ingest : TelemetryPipeline → List TelemetryItem → PipelineReport
unfolding ordered_items ingest_all find_decision max_age
ingest p items =
    let (ds, s) = ingest_all p no_intake (ordered_items items) in
    let stable = map (λ i. or_dropped i (find_decision i.item_id ds)) items in
    let accepted_items = length (filter (λ d. d.accepted) stable) in
    record {
      decisions = stable;
      accepted_units = s.accepted_units;
      dropped_units = s.dropped_units;
      accepted_items = accepted_items;
      dropped_items = length items - accepted_items;
      max_accepted_age_seconds = max_age s.accepted_ages;
    }

-- The rate counts thousandths. `digest` is the number that the first 8 bytes of the trace's SHA-256
-- make, and is a parameter.
unfoldable pub deterministic_trace_sample :
    (digest : String → ℕ)
    → String
    → (is_error : Bool) → (latency_ms rate slow_threshold_ms : ℕ) → Result PipelineError Bool
deterministic_trace_sample digest trace_id is_error latency_ms rate slow_threshold_ms = do
  raise_if (ltb 1000 rate) bad_rate
  ok (
      if is_error || leb slow_threshold_ms latency_ms
      then true
      else ltb (digest trace_id * 1000) (rate * 2 ^ 64))
