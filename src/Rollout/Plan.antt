-- ===== src/Rollout/Plan.antt =====
-- plan_rollout.py: `main` between reading the files and printing.
use staff_sre_platform_engin.Shared.{
  DateTime, top, ℕ, suc, String, Bool, true, false, not, Option, List, [], ◌∷◌, map, filter, Result,
  ok, err, ◌>>=◌, ◌>>◌, raise_if, Json, arr, items, all_distinct,
}
use staff_sre_platform_engin.Rollout.Input.{InputError, no_clusters, not_unique, parse_time}
use staff_sre_platform_engin.Rollout.Policy.{Policy, parse_policy}
use staff_sre_platform_engin.Rollout.Decide.{ClusterDecision, eligible, decide_cluster}
use staff_sre_platform_engin.Rollout.Batches.{Batch, create_batches}

pub record Plan : Type 0 where
  pub policy : Policy
  pub decisions : List ClusterDecision
  pub batches : List Batch

unfoldable pub clusters_of : Json → Result InputError (List Json)
clusters_of (arr vs) = elim (items vs) [ [] ↦ err no_clusters | c ∷ cs ↦ ok (c ∷ cs) ]
clusters_of _ = err no_clusters

unfoldable pub decide_all :
    (String → Option DateTime)
    → Policy
    → (now index : ℕ) → List Json
    → Result InputError (List ClusterDecision)
unfolding decide_cluster
decide_all from_iso policy now i [] = ok []
decide_all from_iso policy now i (raw ∷ rest) = do
  decision ← decide_cluster from_iso raw i policy now
  others ← decide_all from_iso policy now (suc i) rest
  ok (decision ∷ others)

abbrev pub is_eligible : ClusterDecision → Bool
is_eligible d = elim d.status [ eligible ↦ true | _ ↦ false ]

abbrev pub eligible_of : List ClusterDecision → List ClusterDecision
eligible_of = filter is_eligible

abbrev pub cluster_ids : List ClusterDecision → List String
cluster_ids = map (λ d. d.cluster_id)

-- The decisions, where no two are of one cluster.
unfoldable pub decide_clusters :
    (String → Option DateTime) → Policy → ℕ → List Json → Result InputError (List ClusterDecision)
unfolding decide_all
decide_clusters from_iso policy now raw_clusters = do
  decisions ← decide_all from_iso policy now 0 raw_clusters
  raise_if (not (all_distinct (cluster_ids decisions))) not_unique
  ok decisions

unfoldable pub make_plan :
    (String → Option DateTime)
    → (raw_clusters raw_policy : Json) → (now : String) → Result InputError Plan
unfolding clusters_of parse_policy decide_clusters create_batches parse_time
make_plan from_iso raw_clusters raw_policy now_text = do
  raw ← clusters_of raw_clusters
  policy ← parse_policy raw_policy
  now ← parse_time from_iso now_text (top "--now")
  decisions ← decide_clusters from_iso policy now raw
  batches ←
      create_batches (eligible_of decisions) policy.ring_order policy.maximum_batch_size
        policy.maximum_per_failure_domain
  ok (record { policy = policy; decisions = decisions; batches = batches })

-- What `main` returns.
unfoldable pub exit_code : Result InputError Plan → ℕ
exit_code (err _) = 2
exit_code (ok plan) = elim plan.batches [ [] ↦ 1 | _ ∷ _ ↦ 0 ]
