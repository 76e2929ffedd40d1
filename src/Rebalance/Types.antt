-- ===== src/Rebalance/Types.antt =====
-- shard_rebalance_demo.py: the data of the cluster. Shards, epochs and sequences are natural
-- numbers: the source rejects a negative shard as it does one that is too large, and a negative
-- epoch as it does 0.
use staff_sre_platform_engin.Shared.{
  ℕ, String, Bool, false, not, Option, none, some, List, [], ◌∷◌, ◌≡◌, refl, str_eq, if◌then◌else◌,
  if_ind, eq_refl, eq_iff, filter, Bool-cases, inl, inr, subst, sym, arith,
}

pub data MigrationPhase : Type 0 where
  prepare copy catching_up cut clean : MigrationPhase

pub record Record : Type 0 where
  pub key : String
  pub value : String
  pub sequence : ℕ

-- `ShardEntry`, and `Route`, which has the same fields.
pub record ShardEntry : Type 0 where
  pub owner : String
  pub epoch : ℕ

pub record Migration : Type 0 where
  pub virtual_shard : ℕ
  pub source : String
  pub target : String
  pub source_epoch : ℕ
  pub baseline_sequence : ℕ
  pub replayed_through : ℕ
  pub phase : MigrationPhase

pub data WriteReason : Type 0 where
  accepted : WriteReason
  stale_route : (route current : ShardEntry) → WriteReason

pub record WriteResult : Type 0 where
  pub accepted : Bool
  pub owner : String
  pub epoch : ℕ
  pub reason : WriteReason
  pub sequence : Option ℕ

-- The tuples of `write_log`.
pub record LogEntry : Type 0 where
  pub sequence : ℕ
  pub virtual_shard : ℕ
  pub owner : String
  pub record_ : Record

-- The dictionary of one node, in the order of its keys.
abbrev pub Store : Type 0
Store = List (String × Record)

unfoldable pub get : String → Store → Option Record
get key [] = none
get key ((k, r) ∷ rest) = let later = get key rest in if str_eq k key then some r else later

unfoldable pub put : String → Record → Store → Store
put key r [] = (key, r) ∷ []
put key r ((k, x) ∷ rest) =
    let later = put key r rest in if str_eq k key then (k, r) ∷ rest else (k, x) ∷ later

-- The store without the keys of a kind.
abbrev pub drop_keys : (String → Bool) → Store → Store
drop_keys p store = filter (λ x. not (p x.0)) store

-- The cluster. `shard_map` has each shard from 0 to `virtual_shards` - 1 as a key, and `nodes` each
-- of the names: neither ever changes its keys, and both are functions.
pub record Cluster : Type 0 where
  pub virtual_shards : ℕ
  pub node_names : List String
  pub nodes : String → Store
  pub shard_map : ℕ → ShardEntry
  pub sequence : ℕ
  pub write_log : List LogEntry

pub data ClusterError : Type 0 where
  no_nodes no_shards bad_epoch target_owns_shard needs_catch_up ownership_changed : ClusterError
  no_route invalid_shard : ℕ → ClusterError
  unknown_node : String → ClusterError
  wrong_phase : (expected found : MigrationPhase) → ClusterError
  catch_up_not_allowed cutover_not_allowed : MigrationPhase → ClusterError

pub get-put : (key : String) (r : Record) (store : Store) → get key (put key r store) ≡ some r
unfolding get put
get-put key r [] = rw (eq_refl key) refl
get-put key r ((k, x) ∷ rest) =
    if_ind (λ s. get key s ≡ some r) (str_eq k key) (λ h. rw h refl)
      (λ h. rw h (get-put key r rest))

pub get-put_other :
    (other key : String) (r : Record) (store : Store)
    → str_eq key other ≡ false
    → get other (put key r store) ≡ get other store
unfolding get put
get-put_other other key r [] h = rw h refl
get-put_other other key r ((k, x) ∷ rest) h = elim (Bool-cases (str_eq k key)) [
  | inl same ↦
      let apart : str_eq k other ≡ false =
        subst (λ t. str_eq t other ≡ false) (sym ((eq_iff k key).0 same)) h in
      rw same (rw apart refl)
  | inr differs ↦ rw differs (ground (arith, get-put_other other key r rest h))
]

pub get-drop_keys :
    (p : String → Bool) (key : String) (store : Store)
    → p key ≡ false
    → get key (drop_keys p store) ≡ get key store
unfolding get
get-drop_keys p key [] h = refl
get-drop_keys p key ((k, x) ∷ rest) h = elim (Bool-cases (str_eq k key)) [
  | inl same ↦
      let kept : p k ≡ false = subst (λ t. p t ≡ false) (sym ((eq_iff k key).0 same)) h in
      rw kept (rw same refl)
  | inr other ↦ rw other (
      if_ind (λ s. get key s ≡ get key rest) (not (p k))
        (λ _. rw other (get-drop_keys p key rest h)) (λ _. get-drop_keys p key rest h))
]
