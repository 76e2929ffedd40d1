-- ===== src/Rebalance/Cluster.antt =====
-- shard_rebalance_demo.py: the methods of `Cluster`. The hash of a key, the first 8 bytes of its
-- SHA-256, is a parameter.
use staff_sre_platform_engin.Shared.{
  ℕ, zero, suc, ◌%◌, filter, String, Bool, true, false, not, ◌&&◌, ◌||◌, ◌==◌, ltb, Option, none,
  some, List, [], ◌∷◌, ◌++◌, any, length, str_eq, if◌then◌else◌, Result, ok, err, ◌>>◌, raise_if,
}
use staff_sre_platform_engin.Rebalance.Types.{
  MigrationPhase, prepare, copy, catching_up, cut, clean, Record, ShardEntry, Migration,
  WriteResult, accepted, stale_route, LogEntry, Store, get, put, drop_keys, Cluster, ClusterError,
  no_nodes, no_shards, bad_epoch, target_owns_shard, needs_catch_up, ownership_changed, no_route,
  invalid_shard, unknown_node, wrong_phase, catch_up_not_allowed, cutover_not_allowed,
}

-- `names[n]`
unfoldable pub name_at : List String → ℕ → String
name_at [] n = ""
name_at (x ∷ xs) zero = x
name_at (x ∷ xs) (suc n) = name_at xs n

abbrev pub is_empty : List String → Bool
is_empty [] = true
is_empty (_ ∷ _) = false

unfoldable pub new_cluster : List String → ℕ → Result ClusterError Cluster
unfolding name_at
new_cluster names virtual_shards = do
  raise_if (is_empty names) no_nodes
  raise_if (virtual_shards == 0) no_shards
  ok (record {
    virtual_shards = virtual_shards;
    node_names = names;
    nodes = λ _. [];
    shard_map = λ shard. record { owner = name_at names (shard % length names); epoch = 1 };
    sequence = 0;
    write_log = [];
  })

unfoldable pub require_node : Cluster → String → Result ClusterError (Unit {0})
require_node c owner =
    raise_if (not (any (λ name. str_eq name owner) c.node_names)) (unknown_node owner)

unfoldable pub require_shard : Cluster → ℕ → Result ClusterError (Unit {0})
require_shard c virtual_shard =
    raise_if (not (ltb virtual_shard c.virtual_shards)) (invalid_shard virtual_shard)

abbrev pub same_phase : MigrationPhase → MigrationPhase → Bool
same_phase prepare prepare = true
same_phase copy copy = true
same_phase catching_up catching_up = true
same_phase cut cut = true
same_phase clean clean = true
same_phase _ _ = false

unfoldable pub require_phase : Migration → MigrationPhase → Result ClusterError (Unit {0})
require_phase m expected =
    raise_if (not (same_phase m.phase expected)) (wrong_phase expected m.phase)

-- `self.shard_map[shard] = entry`
abbrev pub set_entry : ℕ → ShardEntry → (ℕ → ShardEntry) → ℕ → ShardEntry
set_entry shard entry shards s = if s == shard then entry else shards s

-- `self.nodes[name]`, changed.
abbrev pub set_node : String → Store → (String → Store) → String → Store
set_node name store nodes n = if str_eq n name then store else nodes n

unfoldable pub set_owner : Cluster → ℕ → String → ℕ → Result ClusterError Cluster
unfolding require_node require_shard
set_owner c virtual_shard owner epoch = do
  require_node c owner
  require_shard c virtual_shard
  raise_if (epoch == 0) bad_epoch
  ok (record c {
    shard_map = set_entry virtual_shard (record { owner = owner; epoch = epoch }) c.shard_map;
  })

unfoldable pub snapshot_routes : Cluster → ℕ → Option ShardEntry
snapshot_routes c shard = if ltb shard c.virtual_shards then some (c.shard_map shard) else none

-- `route.epoch != current.epoch or route.owner != current.owner`
abbrev pub is_stale : ShardEntry → ShardEntry → Bool
is_stale route current =
    not (route.epoch == current.epoch) || not (str_eq route.owner current.owner)

abbrev pub rejected : ShardEntry → ShardEntry → WriteResult
rejected route current = record {
  accepted = false;
  owner = route.owner;
  epoch = route.epoch;
  reason = stale_route route current;
  sequence = none;
}

abbrev pub new_record : Cluster → String → String → Record
new_record c key value = record { key = key; value = value; sequence = suc c.sequence }

-- The end of `write`, where the write is accepted.
unfoldable pub store_write : Cluster → ℕ → ShardEntry → String → String → WriteResult × Cluster
store_write c shard route key value =
    let r = new_record c key value in
    (
      record {
        accepted = true;
        owner = route.owner;
        epoch = route.epoch;
        reason = accepted;
        sequence = some (suc c.sequence);
      },
      record c {
        sequence = suc c.sequence;
        nodes = set_node route.owner (put key r (c.nodes route.owner)) c.nodes;
        write_log =
            c.write_log
            ++ record {
              sequence = suc c.sequence;
              virtual_shard = shard;
              owner = route.owner;
              record_ = r;
            }
              ∷ [];
      },
    )

unfoldable pub begin_migration : Cluster → ℕ → String → Result ClusterError Migration
unfolding require_node require_shard
begin_migration c virtual_shard target = do
  require_shard c virtual_shard
  require_node c target
  raise_if (str_eq (c.shard_map virtual_shard).owner target) target_owns_shard
  ok (record {
    virtual_shard = virtual_shard;
    source = (c.shard_map virtual_shard).owner;
    target = target;
    source_epoch = (c.shard_map virtual_shard).epoch;
    baseline_sequence = 0;
    replayed_through = 0;
    phase = prepare;
  })

abbrev pub may_catch_up : MigrationPhase → Bool
may_catch_up copy = true
may_catch_up catching_up = true
may_catch_up _ = false

-- What the loop of `catch_up` changes.
pub record Replay : Type 0 where
  pub store : Store
  pub replayed_through : ℕ
  pub replayed : ℕ

abbrev pub replay_entry : Migration → LogEntry → Replay → Replay
replay_entry m e s =
    if ltb s.replayed_through e.sequence
      && (e.virtual_shard == m.virtual_shard && str_eq e.owner m.source)
    then record {
      store = put e.record_.key e.record_ s.store;
      replayed_through = e.sequence;
      replayed = suc s.replayed;
    }
    else s

unfoldable pub replay : Migration → List LogEntry → Replay → Replay
replay m [] s = s
replay m (e ∷ rest) s = replay m rest (replay_entry m e s)

unfoldable pub catch_up : Cluster → Migration → Result ClusterError (ℕ × Cluster × Migration)
unfolding replay
catch_up c m = do
  raise_if (not (may_catch_up m.phase)) (catch_up_not_allowed m.phase)
  let s =
      replay m c.write_log
        (record { store = c.nodes m.target; replayed_through = m.replayed_through; replayed = 0 })
  ok (
    s.replayed,
    record c { nodes = set_node m.target s.store c.nodes },
    record m {
      replayed_through =
          if ltb s.replayed_through c.sequence then c.sequence else s.replayed_through;
      phase = catching_up;
    },
  )

unfoldable pub cutover :
    Cluster → Migration → (require_catch_up : Bool) → Result ClusterError (ℕ × Cluster × Migration)
cutover c m require_catch_up = do
  raise_if (require_catch_up && not (same_phase m.phase catching_up)) needs_catch_up
  raise_if (not require_catch_up && not (may_catch_up m.phase)) (cutover_not_allowed m.phase)
  let current = c.shard_map m.virtual_shard
  raise_if (not (str_eq current.owner m.source) || not (current.epoch == m.source_epoch))
      ownership_changed
  ok (
    suc current.epoch,
    record c {
      shard_map =
          set_entry m.virtual_shard (record { owner = m.target; epoch = suc current.epoch })
            c.shard_map;
    },
    record m { phase = cut },
  )

unfoldable pub read_from : Cluster → String → String → Result ClusterError (Option Record)
unfolding require_node
read_from c owner key = do require_node c owner; ok (get key (c.nodes owner))

module _ (key_hash : String → ℕ) where
  unfoldable pub hash_partition : String → ℕ → Result ClusterError ℕ
  hash_partition key virtual_shards = do
    raise_if (virtual_shards == 0) no_shards
    ok (key_hash key % virtual_shards)

  -- `virtual_shard_for`: a cluster has at least one shard.
  abbrev pub shard_for : Cluster → String → ℕ
  shard_for c key = key_hash key % c.virtual_shards

  unfoldable pub write :
      Cluster
      → (ℕ → Option ShardEntry)
      → String
      → String
      → (enforce_fencing : Bool) → Result ClusterError (WriteResult × Cluster)
  unfolding require_node store_write
  write c routes key value enforce_fencing =
      let shard = shard_for c key in
      elim (routes shard) [
        | none ↦ err (no_route shard)
        | some route ↦ do
          require_node c route.owner
          ok (
              if enforce_fencing && is_stale route (c.shard_map shard)
              then (rejected route (c.shard_map shard), c)
              else store_write c shard route key value)
      ]

  -- The copied records of the source, put into the target.
  unfoldable pub copy_records : Cluster → ℕ → Store → Store → Store
  copy_records c shard [] target = target
  copy_records c shard ((key, r) ∷ rest) target =
      copy_records c shard rest (if shard_for c key == shard then put key r target else target)

  unfoldable pub copy_snapshot : Cluster → Migration → Result ClusterError (Cluster × Migration)
  unfolding require_phase copy_records
  copy_snapshot c m = do
    require_phase m prepare
    ok (
      record c {
        nodes =
            set_node m.target (copy_records c m.virtual_shard (c.nodes m.source) (c.nodes m.target))
              c.nodes;
      },
      record m { baseline_sequence = c.sequence; replayed_through = c.sequence; phase = copy },
    )

  abbrev pub in_shard : Cluster → ℕ → String → Bool
  in_shard c shard key = shard_for c key == shard

  unfoldable pub cleanup : Cluster → Migration → Result ClusterError (ℕ × Cluster × Migration)
  unfolding require_phase
  cleanup c m = do
    require_phase m cut
    let kept = drop_keys (in_shard c m.virtual_shard) (c.nodes m.source)
    ok (
      length (filter (λ x. in_shard c m.virtual_shard x.0) (c.nodes m.source)),
      record c { nodes = set_node m.source kept c.nodes },
      record m { phase = clean },
    )

  unfoldable pub read_authoritative : Cluster → String → Option Record
  read_authoritative c key = get key (c.nodes (c.shard_map (shard_for c key)).owner)
