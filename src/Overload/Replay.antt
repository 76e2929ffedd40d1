-- ===== src/Overload/Replay.antt =====
-- overload_lab.py: `plan_replay` and `layered_retry_attempts`. Ages and the greatest age are natural
-- numbers, as a backlog has them; a batch size that is not positive is rejected, as 0 is here.
use staff_sre_platform_engin.Shared.{
  ℕ, zero, suc, ◌+◌, ◌-◌, ◌*◌, ◌≤◌, Bool, ◌==◌, ltb, leb, List, [], ◌∷◌, ◌≡◌, arith, filter, length,
  sum_by, ◌<◌, ◌⊎◌, refl, leb→le, leb→gt, Result, ok, ◌>>◌, raise_if, if◌then◌else◌, Bool-cases,
  inl, inr,
}

pub record ReplayPlan : Type 0 where
  pub original_backlog : ℕ
  pub expired : ℕ
  pub replayed : ℕ
  pub batches : List ℕ

pub data ReplayError : Type 0 where
  bad_batch_size : ReplayError

abbrev pub min_units : ℕ → ℕ → ℕ
min_units a b = if ltb b a then b else a

-- The sizes for the offsets 0, batch, 2 * batch, ... below the number of live ages, on fuel and on
-- what is left from the offset on. As many rounds as there are ages are enough.
unfoldable pub batches_of : ℕ → (batch left : ℕ) → List ℕ
batches_of zero batch left = []
batches_of (suc rounds) batch left =
    let later = batches_of rounds batch (left - batch) in
    if left == 0 then [] else min_units batch left ∷ later

unfoldable pub plan_replay : List ℕ → (max_age batch_size : ℕ) → Result ReplayError ReplayPlan
unfolding batches_of
plan_replay ages max_age batch_size = do
  raise_if (batch_size == 0) bad_batch_size
  let live = length (filter (λ age. leb age max_age) ages)
  ok (record {
    original_backlog = length ages;
    expired = length ages - live;
    replayed = live;
    batches = batches_of live batch_size live;
  })

-- The worst case of layers that each retry on their own; the source rejects a negative count.
unfoldable pub layered_retry_attempts : List ℕ → ℕ
layered_retry_attempts [] = 1
layered_retry_attempts (retries ∷ rest) = (retries + 1) * layered_retry_attempts rest

length-filter : {A : Type 0} (p : A → Bool) (xs : List A) → length (filter p xs) ≤ length xs
length-filter p [] = omega arith
length-filter p (x ∷ xs) = ground (arith, length-filter p xs)

-- The batches make up all that is left.
batches_of-sum :
    (rounds batch left : ℕ)
    → 1 ≤ batch
    → left ≤ rounds
    → sum_by (λ n. n) (batches_of rounds batch left) ≡ left
unfolding batches_of
batches_of-sum zero batch left b h = omega (arith, h)
batches_of-sum (suc rounds) batch left b h =
    ground (arith, b, h, batches_of-sum rounds batch (left - batch) b (omega (arith, b, h)))

-- Every batch but the last is full, and the last is not empty and not over the size.
abbrev pub AreFull : ℕ → List ℕ → Type 0
AreFull batch [] = Unit
AreFull batch (n ∷ []) = (1 ≤ n) × (n ≤ batch)
AreFull batch (n ∷ m ∷ rest) = (n ≡ batch) × AreFull batch (m ∷ rest)

put_first :
    (batch n : ℕ) (rest : List ℕ)
    → AreFull batch rest
    → (1 ≤ n) × (n ≤ batch)
    → (rest ≡ []) ⊎ (n ≡ batch)
    → AreFull batch (n ∷ rest)
put_first batch n [] full last h = last
put_first batch n (m ∷ rest) full last (inl e) = absurd (cc e)
put_first batch n (m ∷ rest) full last (inr e) = (e, full)

batches_of-none : (rounds batch : ℕ) → batches_of rounds batch 0 ≡ []
unfolding batches_of
batches_of-none zero batch = refl
batches_of-none (suc rounds) batch = refl

batches_of-AreFull :
    (rounds batch left : ℕ) → 1 ≤ batch → AreFull batch (batches_of rounds batch left)
unfolding batches_of
batches_of-AreFull zero batch left b = tt
batches_of-AreFull (suc rounds) batch left b = elim (Bool-cases (left == 0)) [
  | inl done ↦ rw done tt
  | inr more ↦ rw more (
      put_first batch (min_units batch left) (batches_of rounds batch (left - batch))
        (batches_of-AreFull rounds batch (left - batch) b) (ground (arith, b, more), ground arith)
        (elim (Bool-cases (ltb batch left)) [
          | inl many ↦ inr (ground (arith, many))
          | inr few ↦
              let none_left : left - batch ≡ 0 = ground (arith, few) in
              inl (rw none_left (batches_of-none rounds batch))
        ]))
]

-- The ages of the backlog that are at most the greatest age.
pub data Within (max_age : ℕ) : List ℕ → ℕ → Type 0 where
  none_left : Within max_age [] 0
  kept :
      {age n : ℕ} {ages : List ℕ}
      → age ≤ max_age
      → Within max_age ages n
      → Within max_age (age ∷ ages) (suc n)
  expires :
      {age n : ℕ} {ages : List ℕ}
      → max_age < age
      → Within max_age ages n
      → Within max_age (age ∷ ages) n

live-Within :
    (max_age : ℕ) (ages : List ℕ)
    → Within max_age ages (length (filter (λ age. leb age max_age) ages))
live-Within max_age [] = none_left
live-Within max_age (age ∷ ages) = elim (Bool-cases (leb age max_age)) [
  | inl young ↦ rw young (kept (leb→le _ _ young) (live-Within max_age ages))
  | inr old ↦ rw old (expires (leb→gt _ _ old) (live-Within max_age ages))
]

-- A replay plan for a positive batch size is returned, and it accounts for the whole backlog: it
-- replays as many messages as have an age of at most the greatest age, the expired are all the others,
-- and the batches are together the replayed, every one full but the last, which is not empty.
pub plan_replay-paced :
    (ages : List ℕ) (max_age batch_size : ℕ)
    → 1 ≤ batch_size
    → (plan : ReplayPlan) × (plan_replay ages max_age batch_size ≡ ok plan)
      × Within max_age ages plan.replayed
      × (plan.expired + plan.replayed ≡ length ages)
      × (sum_by (λ n. n) plan.batches ≡ plan.replayed)
      × AreFull batch_size plan.batches
unfolding plan_replay
plan_replay-paced ages max_age batch_size h =
    let live = length (filter (λ age. leb age max_age) ages) in
    (
      record {
        original_backlog = length ages;
        expired = length ages - live;
        replayed = live;
        batches = batches_of live batch_size live;
      },
      ground (arith, h),
      live-Within max_age ages,
      omega (arith, length-filter (λ age. leb age max_age) ages),
      batches_of-sum live batch_size live h (omega arith),
      batches_of-AreFull live batch_size live h,
    )
