-- ===== src/Telemetry/Examples.antt =====
-- The scenario of telemetry_lab.py as tests, and the theorems at concrete inputs.
use staff_sre_platform_engin.Shared.{ℕ, ◌^◌, String, true, false, List, [], ◌∷◌, ◌≡◌, refl, map, ok}
use staff_sre_platform_engin.Telemetry.Pipeline.{
  Signal, metric, log, trace, synthetic, ItemPriority, critical, normal, debug, TelemetryItem,
  TelemetryPipeline, PipelineReport, accepted, dropped, forbidden_metric_label, queue_full,
  new_pipeline, checked_item, metric_reason, reason_for, cardinality_reason, ordered_items,
  take_item, ingest_counted, ingest_one, ingest_all, no_intake, find_decision, max_age, ingest,
  deterministic_trace_sample,
}
use staff_sre_platform_engin.Telemetry.Bounds.{IsAccounted, ingest-IsAccounted}

abbrev item :
    String → String → Signal → ItemPriority → ℕ → List (String × String) → ℕ → TelemetryItem
item id tenant signal priority size attributes age = record {
  item_id = id;
  tenant = tenant;
  signal = signal;
  priority = priority;
  size_units = size;
  attributes = attributes;
  age_seconds = age;
}

abbrev bad_metric : TelemetryItem
bad_metric =
    item "bad-metric" "tenant-a" metric normal 2
      (("service", "checkout") ∷ ("user_id", "customer-123") ∷ []) 1

abbrev items : List TelemetryItem
items =
    item "synth" "platform" synthetic critical 1 (("route", "collector-to-backend") ∷ []) 2
    ∷ item "slo-metric" "tenant-a" metric critical 2
        (("service", "checkout") ∷ ("operation", "purchase") ∷ []) 3
    ∷ bad_metric
    ∷ item "normal-trace" "tenant-b" trace normal 3 (("service", "catalog") ∷ []) 4
    ∷ item "debug-log-1" "tenant-c" log debug 3 (("service", "search") ∷ []) 8
    ∷ item "debug-log-2" "tenant-c" log debug 3 (("service", "search") ∷ []) 9
    ∷ []

abbrev pipeline : TelemetryPipeline
pipeline = record { capacity_units = 8; per_tenant_units = 4; metric_label_value_limit = 64 }

-- To open this opens the pipeline.
run : TelemetryPipeline → List TelemetryItem → PipelineReport
unfolding new_pipeline checked_item metric_reason reason_for cardinality_reason ordered_items
    take_item ingest_counted ingest_one ingest_all find_decision max_age ingest
    deterministic_trace_sample
run = ingest

scenario_reasons :
    map (λ d. d.reason) (run pipeline items).decisions
    ≡ accepted
      ∷ accepted
      ∷ dropped forbidden_metric_label
      ∷ accepted
      ∷ dropped queue_full
      ∷ dropped queue_full
      ∷ []
unfolding run
scenario_reasons = refl

scenario_freshness : (run pipeline items).max_accepted_age_seconds ≡ 4
unfolding run
scenario_freshness = refl

scenario_samples :
    (deterministic_trace_sample (λ _. 2 ^ 63) "trace-error" true 50 0 500 ≡ ok true)
    × (deterministic_trace_sample (λ _. 2 ^ 63) "trace-slow" false 900 0 500 ≡ ok true)
    × (deterministic_trace_sample (λ _. 2 ^ 63) "trace-normal" false 50 0 500 ≡ ok false)
unfolding run
scenario_samples = (refl, refl, refl)

ingest-IsAccounted_example :
    IsAccounted pipeline items
      (ingest_all pipeline no_intake (ordered_items items)).0
      (ingest pipeline items)
ingest-IsAccounted_example = ingest-IsAccounted pipeline items
