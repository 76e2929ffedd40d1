-- ===== src/Rebalance/Ownership.antt =====
-- shard_rebalance_demo.py: who may write to a shard, and whose records are read, around a migration.
use staff_sre_platform_engin.Shared.{
  ℕ, suc, ◌≤◌, ◌<◌, String, Bool, true, Option, none, some, ◌≡◌, ◌≢◌, refl, sym, ap, subst, arith,
  str_eq, eq_iff, ok, if◌then◌else◌, Bool-cases, inl, inr, if_ind, ==_iff,
}
use staff_sre_platform_engin.Rebalance.Types.{
  cut, ShardEntry, Migration, WriteResult, get, drop_keys, get-put, get-put_other, Record,
  get-drop_keys, Cluster,
}
use staff_sre_platform_engin.Rebalance.Cluster.{
  require_node, set_entry, set_node, rejected, new_record, store_write, cutover, shard_for, write,
  in_shard, cleanup, read_authoritative,
}

abbrev entry_of : Cluster → Migration → ShardEntry
entry_of c m = c.shard_map m.virtual_shard

-- The cluster after a cutover.
abbrev cut_over : Cluster → Migration → Cluster
cut_over c m = record c {
  shard_map =
      set_entry m.virtual_shard (record { owner = m.target; epoch = suc (entry_of c m).epoch })
        c.shard_map;
}

cutover-eq_ok :
    (c : Cluster) (m : Migration) (required : Bool) {r : ℕ × Cluster × Migration}
    → cutover c m required ≡ ok r
    → ((entry_of c m).epoch ≡ m.source_epoch)
      × (r ≡ (suc (entry_of c m).epoch, cut_over c m, record m { phase = cut }))
unfolding cutover
cutover-eq_ok c m required h = ground arith

module _ (key_hash : String → ℕ) (c : Cluster) where
  -- A fenced write through a route that is older than the shard's entry.
  write-eq_stale :
      (routes : ℕ → Option ShardEntry) (route : ShardEntry) (key value : String)
      → routes (shard_for key_hash c key) ≡ some route
      → require_node c route.owner ≡ ok tt
      → route.epoch < (c.shard_map (shard_for key_hash c key)).epoch
      → write key_hash c routes key value true
        ≡ ok (rejected route (c.shard_map (shard_for key_hash c key)), c)
  unfolding write
  write-eq_stale routes route key value known node old = ground arith

-- Once a shard is cut over, a fenced write of one of its keys through a route of the old epoch, or
-- of an earlier one, is rejected as stale and changes nothing. The route names a node of the
-- cluster.
pub cutover-write_stale :
    (key_hash : String → ℕ) (c : Cluster) (m : Migration) (required : Bool) {epoch : ℕ}
    {after : Cluster} {done : Migration}
    → cutover c m required ≡ ok (epoch, after, done)
    → (routes : ℕ → Option ShardEntry) (route : ShardEntry) (key value : String)
    → shard_for key_hash c key ≡ m.virtual_shard
    → routes m.virtual_shard ≡ some route
    → route.epoch ≤ m.source_epoch
    → require_node after route.owner ≡ ok tt
    → write key_hash after routes key value true
      ≡ ok (rejected route (after.shard_map m.virtual_shard), after)
unfolding write
cutover-write_stale key_hash c m required h routes route key value here known old node =
    let (same, e) = cutover-eq_ok c m required h in
    let at : routes (shard_for key_hash c key) ≡ some route =
      subst (λ s. routes s ≡ some route) (sym here) known in
    subst
      (λ x.
        require_node x route.owner ≡ ok tt
        → write key_hash x routes key value true
          ≡ ok (rejected route (x.shard_map m.virtual_shard), x))
      (sym (ap (λ r. r.1) e))
      (λ n.
        subst
          (λ s.
            write key_hash (cut_over c m) routes key value true
            ≡ ok (rejected route ((cut_over c m).shard_map s), cut_over c m))
          here
          (write-eq_stale key_hash (cut_over c m) routes route key value at n (older_epoch same)))
      node
  where
    older_epoch :
        (entry_of c m).epoch ≡ m.source_epoch
        → route.epoch < ((cut_over c m).shard_map (shard_for key_hash c key)).epoch
    older_epoch same = rw here (ground (arith, same, old))

module _ (key_hash : String → ℕ) (c : Cluster) (routes : ℕ → Option ShardEntry)
    (key value : String) where
  -- A write that is accepted has a route to the owner.
  write-eq_stored :
      (o : Option ShardEntry) {w : WriteResult} {after : Cluster}
      → routes (shard_for key_hash c key) ≡ o
      → write key_hash c routes key value true ≡ ok (w, after)
      → w.accepted ≡ true
      → (route : ShardEntry) × (route.owner ≡ (c.shard_map (shard_for key_hash c key)).owner)
        × (after ≡ (store_write c (shard_for key_hash c key) route key value).1)
  unfolding write
  write-eq_stored none known h done = absurd (ground (arith, known, h))
  write-eq_stored (some route) known h done =
      let same : str_eq route.owner (c.shard_map (shard_for key_hash c key)).owner ≡ true =
        ground arith in
      (route, (eq_iff _ _).0 same, ground arith)

  -- What is read of a key after the write: the new record of the key that is written, and for every
  -- other key what was read before.
  abbrev pub expected : String → Option Record
  expected other =
      if str_eq key other
      then some (new_record c key value)
      else read_authoritative key_hash c other

  stored-read :
      (route : ShardEntry)
      → route.owner ≡ (c.shard_map (shard_for key_hash c key)).owner
      → (other : String)
      → read_authoritative key_hash
          (store_write c (shard_for key_hash c key) route key value).1
          other
        ≡ expected other
  unfolding read_authoritative store_write
  stored-read route same other = elim (Bool-cases (str_eq key other)) [
    | inl here ↦
        let found : str_eq (c.shard_map (shard_for key_hash c key)).owner route.owner ≡ true =
          (eq_iff _ _).1 (sym same) in
        rw here (
          rw (sym ((eq_iff key other).0 here))
            (rw found (get-put key (new_record c key value) (c.nodes route.owner))))
    | inr there ↦
        let owner = (c.shard_map (shard_for key_hash c other)).owner in
        rw there (
          if_ind (λ s. get other s ≡ get other (c.nodes owner)) (str_eq owner route.owner)
            (λ e.
              rw ((eq_iff owner route.owner).0 e)
                (get-put_other other key (new_record c key value) (c.nodes route.owner) there))
            (λ _. refl))
  ]

-- Right after a fenced write that is accepted, and for every key: the owner's record of the key that
-- is written is the new one, and that of every other key is what it was before the write.
pub read_authoritative-write :
    (key_hash : String → ℕ) (c : Cluster) (routes : ℕ → Option ShardEntry) (key value : String)
    {w : WriteResult} {after : Cluster}
    → write key_hash c routes key value true ≡ ok (w, after)
    → w.accepted ≡ true
    → (other : String)
    → read_authoritative key_hash after other ≡ expected key_hash c routes key value other
read_authoritative-write key_hash c routes key value h done other =
    let (route, same, e) = write-eq_stored key_hash c routes key value _ refl h done in
    subst (λ x. read_authoritative key_hash x other ≡ expected key_hash c routes key value other)
      (sym e) (stored-read key_hash c routes key value route same other)

module _ (key_hash : String → ℕ) (c : Cluster) (m : Migration) where
  -- The cluster after a cleanup.
  abbrev cleaned : Cluster
  cleaned = record c {
    nodes =
        set_node m.source (drop_keys (in_shard key_hash c m.virtual_shard) (c.nodes m.source))
          c.nodes;
  }

  cleanup-eq_cleaned :
      {deleted : ℕ} {after : Cluster} {done : Migration}
      → cleanup key_hash c m ≡ ok (deleted, after, done)
      → after ≡ cleaned
  unfolding cleanup
  cleanup-eq_cleaned h = ground arith

  read-cleaned :
      (entry_of c m).owner ≢ m.source
      → (key : String) → read_authoritative key_hash cleaned key ≡ read_authoritative key_hash c key
  unfolding read_authoritative
  read-cleaned moved key =
      let owner = (c.shard_map (shard_for key_hash c key)).owner in
      if_ind (λ s. get key s ≡ get key (c.nodes owner)) (str_eq owner m.source)
        (λ same. elim (Bool-cases (in_shard key_hash c m.virtual_shard key)) [
          | inl here ↦
              absurd (moved (rw (sym ((==_iff _ _).0 here)) ((eq_iff owner m.source).0 same)))
          | inr other ↦
              rw ((eq_iff owner m.source).0 same) (get-drop_keys _ key (c.nodes m.source) other)
        ])
        (λ _. refl)

-- The cleanup of a shard that its source no longer owns changes no authoritative record, of this
-- shard or of another.
pub read_authoritative-cleanup :
    (key_hash : String → ℕ) (c : Cluster) (m : Migration) {deleted : ℕ} {after : Cluster}
    {done : Migration}
    → cleanup key_hash c m ≡ ok (deleted, after, done)
    → (entry_of c m).owner ≢ m.source
    → (key : String) → read_authoritative key_hash after key ≡ read_authoritative key_hash c key
read_authoritative-cleanup key_hash c m h moved key =
    subst (λ x. read_authoritative key_hash x key ≡ read_authoritative key_hash c key)
      (sym (cleanup-eq_cleaned key_hash c m h)) (read-cleaned key_hash c m moved key)
