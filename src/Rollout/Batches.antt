-- ===== src/Rollout/Batches.antt =====
-- plan_rollout.py: `create_batches`.
use staff_sre_platform_engin.Shared.{
  ℕ, zero, suc, leb, String, Bool, true, false, List, [], ◌∷◌, ◌++◌, length, filter, if◌then◌else◌,
  Result, ok, err, ◌>>=◌, str_eq, text_lt, sort_by, not,
}
use staff_sre_platform_engin.Rollout.Input.{InputError, no_progress}
use staff_sre_platform_engin.Rollout.Decide.{ClusterDecision}

pub record Batch : Type 0 where
  pub ring : String
  pub number : ℕ
  pub members : List ClusterDecision

-- `(item.failure_domain, item.cluster_id)`: may x stand before y?
unfoldable pub item_before : ClusterDecision → ClusterDecision → Bool
item_before x y =
    if text_lt x.failure_domain y.failure_domain
    then true
    else if text_lt y.failure_domain x.failure_domain
    then false
    else not (text_lt y.cluster_id x.cluster_id)

-- The lists and the counter of one batch.
pub record Selection : Type 0 where
  pub selected : List ClusterDecision
  pub counts : String → ℕ
  pub deferred_for_batch : List ClusterDecision

abbrev pub no_selection : Selection
no_selection = record { selected = []; counts = λ _. 0; deferred_for_batch = [] }

abbrev pub defer : ClusterDecision → Selection → Selection
defer item s = record s { deferred_for_batch = s.deferred_for_batch ++ item ∷ [] }

abbrev pub take_item : ClusterDecision → Selection → Selection
take_item item s = record s {
  selected = s.selected ++ item ∷ [];
  counts = λ domain.
      if str_eq item.failure_domain domain then suc (s.counts domain) else s.counts domain;
}

unfoldable pub choose :
    (max_batch_size max_per_failure_domain : ℕ) → ClusterDecision → Selection → Selection
choose max_batch_size max_per_failure_domain item s =
    if leb max_batch_size (length s.selected)
    then defer item s
    else if leb max_per_failure_domain (s.counts item.failure_domain)
    then defer item s
    else take_item item s

unfoldable pub choose_all :
    (max_batch_size max_per_failure_domain : ℕ) → List ClusterDecision → Selection → Selection
unfolding choose
choose_all size per_domain [] s = s
choose_all size per_domain (item ∷ rest) s =
    choose_all size per_domain rest (choose size per_domain item s)

-- One round of `while remaining`: raises where nothing was selected.
abbrev pub batch_of : String → ℕ → List ClusterDecision → Result InputError Batch
batch_of ring number [] = err (no_progress ring)
batch_of ring number (x ∷ xs) = ok (record { ring = ring; number = number; members = x ∷ xs })

-- The loop on fuel: each round selects a cluster, so the number of clusters is enough.
unfoldable pub ring_batches :
    (max_batch_size max_per_failure_domain : ℕ)
    → String
    → (fuel batch_number : ℕ) → List ClusterDecision
    → Result InputError (List Batch)
unfolding choose_all
ring_batches size per_domain ring fuel number [] = ok []
ring_batches size per_domain ring zero number (x ∷ xs) = err (no_progress ring)
ring_batches size per_domain ring (suc fuel) number (x ∷ xs) = do
  let s = choose_all size per_domain (x ∷ xs) no_selection
  batch ← batch_of ring number s.selected
  later ← ring_batches size per_domain ring fuel (suc number) s.deferred_for_batch
  ok (batch ∷ later)

-- `by_ring.get(ring, [])`
abbrev pub by_ring : String → List ClusterDecision → List ClusterDecision
by_ring ring = filter (λ item. str_eq ring item.ring)

unfoldable pub create_batches :
    List ClusterDecision
    → (ring_order : List String) → (max_batch_size max_per_failure_domain : ℕ)
    → Result InputError (List Batch)
unfolding ring_batches item_before
create_batches eligible [] size per_domain = ok []
create_batches eligible (ring ∷ rings) size per_domain = do
  let remaining = sort_by item_before (by_ring ring eligible)
  first ← ring_batches size per_domain ring (length remaining) 1 remaining
  later ← create_batches eligible rings size per_domain
  ok (first ++ later)
