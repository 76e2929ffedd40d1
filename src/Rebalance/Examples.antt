-- ===== src/Rebalance/Examples.antt =====
-- `simulate_rebalance` of shard_rebalance_demo.py as tests, and the theorems at concrete inputs.
use staff_sre_platform_engin.Shared.{
  ℕ, zero, String, Bool, true, false, Option, none, some, [], ◌∷◌, ◌≡◌, refl, arith, Result, ok,
  ◌>>=◌, ◌==◌, str_eq, eq_iff, ◌≢◌, if◌then◌else◌,
}
use staff_sre_platform_engin.Shared.{err, pos, negsuc, sort_by, text_lt}
use staff_sre_platform_engin.Rebalance.Partition.{range_partition, tenant_skew, unsorted_bounds}
use staff_sre_platform_engin.Rebalance.Types.{
  MigrationPhase, clean, cut, catching_up, accepted, Record, ShardEntry, Migration, WriteResult,
  Store, get, put, Cluster, ClusterError,
}
use staff_sre_platform_engin.Rebalance.Cluster.{
  name_at, new_cluster, require_node, require_shard, require_phase, set_owner, snapshot_routes,
  store_write, begin_migration, replay, catch_up, cutover, read_from, hash_partition, write,
  copy_records, copy_snapshot, cleanup, read_authoritative, rejected,
}
use staff_sre_platform_engin.Rebalance.Ownership.{
  cutover-write_stale, read_authoritative-write, expected, read_authoritative-cleanup,
}

-- A hash that sends every key to the shard of the scenario.
abbrev to_three : String → ℕ
to_three _ = 3

abbrev Values : Type 0
Values = Option String × Option String × Option String × Bool × MigrationPhase

abbrev value_of : Option Record → Option String
value_of none = none
value_of (some r) = some r.value

abbrev no_result : WriteResult
no_result = record { accepted = true; owner = ""; epoch = 0; reason = accepted; sequence = none }

-- The steps that depend on the mode.
abbrev when {ℓ} : {A : Type ℓ} → Bool → Result ClusterError A → A → Result ClusterError A
when true m a = m
when false m a = ok a

-- `simulate_rebalance`, with whether a write arrives between the catch-up and the cutover.
scenario : (safe late : Bool) → Result ClusterError Values
unfolding get put name_at new_cluster require_node require_shard require_phase set_owner
    snapshot_routes store_write begin_migration replay catch_up cutover read_from hash_partition
    write copy_records copy_snapshot cleanup read_authoritative
scenario safe late = do
  c₀ ← new_cluster ("node-a" ∷ "node-b" ∷ []) 8
  c₁ ← set_owner c₀ 3 "node-a" 7
  (_, c₂) ← write to_three c₁ (snapshot_routes c₁) "key" "value-v1" safe
  m₀ ← begin_migration c₂ 3 "node-b"
  (c₃, m₁) ← copy_snapshot to_three c₂ m₀
  (_, c₄) ← write to_three c₃ (snapshot_routes c₂) "key" "value-v2" safe
  (_, c₅, m₂) ← when safe (catch_up c₄ m₁) (zero, c₄, m₁)
  (_, c₆) ←
      when late (write to_three c₅ (snapshot_routes c₅) "key" "value-late" safe) (no_result, c₅)
  (_, c₇, m₃) ← cutover c₆ m₂ safe
  (stale, c₈) ← write to_three c₇ (snapshot_routes c₂) "key" "value-v3-from-stale-router" safe
  (_, c₉, m₄) ← when safe (cleanup to_three c₈ m₃) (zero, c₈, m₃)
  source ← read_from c₉ "node-a" "key"
  target ← read_from c₉ "node-b" "key"
  ok (
    value_of (read_authoritative to_three c₉ "key"),
    value_of source,
    value_of target,
    stale.accepted,
    m₄.phase,
  )

safe_rebalance : scenario true false ≡ ok (some "value-v2", none, some "value-v2", false, clean)
unfolding scenario
safe_rebalance = refl

unsafe_rebalance :
    scenario false false
    ≡ ok (some "value-v1", some "value-v3-from-stale-router", some "value-v1", true, cut)
unfolding scenario
unsafe_rebalance = refl

-- A write that the current owner accepts after the catch-up is lost by the cutover and the cleanup.
late_write_lost : scenario true true ≡ ok (some "value-v2", none, some "value-v2", false, clean)
unfolding scenario
late_write_lost = refl

abbrev stored : Record
stored = record { key = "key"; value = "value-v2"; sequence = 2 }

abbrev entry : String → ℕ → ShardEntry
entry owner epoch = record { owner = owner; epoch = epoch }

abbrev on_both : String → Store
on_both _ = ("key", stored) ∷ []

abbrev cluster : ShardEntry → Cluster
cluster e = record {
  virtual_shards = 8;
  node_names = "node-a" ∷ "node-b" ∷ [];
  nodes = on_both;
  shard_map = λ _. e;
  sequence = 2;
  write_log = [];
}

abbrev migration : MigrationPhase → Migration
migration phase = record {
  virtual_shard = 3;
  source = "node-a";
  target = "node-b";
  source_epoch = 7;
  baseline_sequence = 1;
  replayed_through = 2;
  phase = phase;
}

abbrev old_routes : ℕ → Option ShardEntry
old_routes _ = some (entry "node-a" 7)

abbrev moved : Cluster
moved = record (cluster (entry "node-a" 7)) {
  shard_map = λ s. if s == 3 then entry "node-b" 8 else entry "node-a" 7;
}

moves :
    cutover (cluster (entry "node-a" 7)) (migration catching_up) true ≡ ok (8, moved, migration cut)
unfolding scenario
moves = refl

known_node : require_node moved "node-a" ≡ ok tt
unfolding scenario
known_node = refl

cutover-write_stale_example :
    write to_three moved old_routes "key" "late" true
    ≡ ok (rejected (entry "node-a" 7) (entry "node-b" 8), moved)
cutover-write_stale_example =
    cutover-write_stale to_three (cluster (entry "node-a" 7)) (migration catching_up) true moves
      old_routes (entry "node-a" 7) "key" "late" refl refl (omega arith) known_node

abbrev written : WriteResult × Cluster
unfolding scenario
written = store_write (cluster (entry "node-a" 7)) 3 (entry "node-a" 7) "key" "value-v3"

writes :
    write to_three (cluster (entry "node-a" 7)) old_routes "key" "value-v3" true
    ≡ ok (written.0, written.1)
unfolding scenario
writes = refl

is_accepted : written.0.accepted ≡ true
unfolding scenario
is_accepted = refl

read_authoritative-write_example :
    read_authoritative to_three written.1 "key"
    ≡ expected to_three (cluster (entry "node-a" 7)) old_routes "key" "value-v3" "key"
read_authoritative-write_example =
    read_authoritative-write to_three (cluster (entry "node-a" 7)) old_routes "key" "value-v3"
      writes is_accepted "key"

abbrev tidy : Cluster
tidy = record moved { nodes = λ n. if str_eq n "node-a" then [] else on_both n }

cleans : cleanup to_three moved (migration cut) ≡ ok (1, tidy, migration clean)
unfolding scenario
cleans = refl

other_node : (entry "node-b" 8).owner ≢ "node-a"
other_node h = absurd (cc ((eq_iff "node-b" "node-a").1 h))

read_authoritative-cleanup_example :
    read_authoritative to_three tidy "key" ≡ read_authoritative to_three moved "key"
read_authoritative-cleanup_example =
    read_authoritative-cleanup to_three moved (migration cut) cleans other_node "key"

on_a_bound : range_partition (pos 5) (negsuc 2 ∷ pos 5 ∷ pos 9 ∷ []) ≡ ok 2
unfolding range_partition
on_a_bound = refl

unsorted : range_partition (pos 5) (pos 9 ∷ pos 5 ∷ []) ≡ err unsorted_bounds
unfolding range_partition
unsorted = refl

dominant : tenant_skew (("b", 60) ∷ ("a", 50) ∷ ("c", 10) ∷ []) 40 ≡ ok ("a" ∷ "b" ∷ [])
unfolding tenant_skew sort_by text_lt
dominant = refl
