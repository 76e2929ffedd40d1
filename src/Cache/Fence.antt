-- ===== src/Cache/Fence.antt =====
-- Every interleaving of commits, invalidations and delayed fills of cache_race_demo.py.
use staff_sre_platform_engin.Shared.{
  ℤ, ◌<ℤ◌, ◌≤ℤ◌, ltb_ℤ, max_ℤ, max_ℤ_bounds, Bool, false, Option, none, some, List, [], ◌∷◌, ◌≡◌,
  refl, ap, subst, arith, All, All-map, Pairwise, if_ind, pos_part, neg_part,
}
use staff_sre_platform_engin.Cache.State.{
  VersionedValue, CacheState, FillReason, safe_invalidate, safe_fill, fill_over, store_fill,
}
use staff_sre_platform_engin.Cache.Race.{empty_cache}

-- The values that the database has had, the newest first, the cache, and the versions for which the
-- cache was invalidated.
pub record World : Type 0 where
  pub history : List VersionedValue
  pub cache : CacheState
  pub invalidated : List ℤ

pub data Committed (item : VersionedValue) : List VersionedValue → Type 0 where
  latest : {rest : List VersionedValue} → Committed item (item ∷ rest)
  before :
      {x : VersionedValue} {rest : List VersionedValue}
      → Committed item rest
      → Committed item (x ∷ rest)

-- A writer commits a version above all earlier ones, and may invalidate at any later time; a reader
-- fills the cache, at any later time, with a value that it once read.
pub data Reachable : World → Type 0 where
  start :
      (first : VersionedValue)
      → Reachable (record { history = first ∷ []; cache = empty_cache; invalidated = [] })
  commits :
      {w : World} (item : VersionedValue)
      → Reachable w
      → All (λ old. old.version <ℤ item.version) w.history
      → Reachable (record w { history = item ∷ w.history })
  invalidates :
      {w : World} (item : VersionedValue)
      → Reachable w
      → Committed item w.history
      → Reachable (record w {
        cache = safe_invalidate w.cache item.version;
        invalidated = item.version ∷ w.invalidated;
      })
  fills :
      {w : World} (item : VersionedValue)
      → Reachable w
      → Committed item w.history
      → Reachable (record w { cache = (safe_fill w.cache item).1 })

-- The cache is empty, or holds a committed value at the fence.
pub data Holds (history : List VersionedValue) (c : CacheState) : Type 0 where
  empty : c.value ≡ none → c.value_version ≡ none → Holds history c
  holds :
      (item : VersionedValue)
      → Committed item history
      → c.value ≡ some item.value
      → c.value_version ≡ some item.version
      → item.version ≡ c.version_fence
      → Holds history c

pub record IsFenced (w : World) : Type 0 where
  pub content : Holds w.history w.cache
  pub fenced : All (λ v. v ≤ℤ w.cache.version_fence) w.invalidated
  pub growing : Pairwise (λ new old. old.version <ℤ new.version) w.history

Holds-commit :
    (item : VersionedValue) {history : List VersionedValue} {c : CacheState}
    → Holds history c
    → Holds (item ∷ history) c
Holds-commit item (empty v n) = empty v n
Holds-commit item (holds x m v n f) = holds x (before m) v n f

max_fence : (a b : ℤ) → ltb_ℤ b a ≡ false → b ≡ max_ℤ a b
unfolding max_ℤ
max_fence a b h = ground arith

module _ (w : World) (f : IsFenced w) (item : VersionedValue) (m : Committed item w.history) where
  stored-IsFenced :
      ltb_ℤ item.version w.cache.version_fence ≡ false
      → IsFenced (record w { cache = (store_fill w.cache item).1 })
  unfolding store_fill
  stored-IsFenced fresh = record {
    content = holds item m refl refl (max_fence w.cache.version_fence item.version fresh);
    fenced =
        All-map _ _ (λ v h. omega (arith, h, max_ℤ_bounds w.cache.version_fence item.version))
          w.invalidated f.fenced;
    growing = f.growing;
  }

  fill_over-IsFenced :
      (cached : Option ℤ)
      → ltb_ℤ item.version w.cache.version_fence ≡ false
      → IsFenced (record w { cache = (fill_over cached w.cache item).1 })
  unfolding fill_over
  fill_over-IsFenced none fresh = stored-IsFenced fresh
  fill_over-IsFenced (some cached) fresh =
      if_ind {A = (Bool × FillReason) × CacheState} (λ r. IsFenced (record w { cache = r.1 }))
        (ltb_ℤ item.version cached) (λ _. f) (λ _. stored-IsFenced fresh)

  fills-IsFenced : IsFenced (record w { cache = (safe_fill w.cache item).1 })
  unfolding safe_fill
  fills-IsFenced =
      if_ind {A = (Bool × FillReason) × CacheState} (λ r. IsFenced (record w { cache = r.1 }))
        (ltb_ℤ item.version w.cache.version_fence) (λ _. f)
        (fill_over-IsFenced w.cache.value_version)

  invalidates-IsFenced : IsFenced (record w {
    cache = safe_invalidate w.cache item.version;
    invalidated = item.version ∷ w.invalidated;
  })
  unfolding safe_invalidate
  invalidates-IsFenced =
      let bounds = max_ℤ_bounds w.cache.version_fence item.version in
      record {
        content = empty refl refl;
        fenced = (bounds.1, All-map _ _ (λ v h. omega (arith, h, bounds)) w.invalidated f.fenced);
        growing = f.growing;
      }

pub Reachable-IsFenced : {w : World} → Reachable w → IsFenced w
Reachable-IsFenced (start first) = record {
  content = empty refl refl;
  fenced = tt;
  growing = (tt, tt);
}
Reachable-IsFenced (commits {w = w} item r newer) =
    let f = Reachable-IsFenced r in
    record {
      content = Holds-commit item f.content;
      fenced = f.fenced;
      growing = (newer, f.growing);
    }
Reachable-IsFenced (invalidates {w = w} item r m) =
    invalidates-IsFenced w (Reachable-IsFenced r) item m
Reachable-IsFenced (fills {w = w} item r m) = fills-IsFenced w (Reachable-IsFenced r) item m

-- A version is among those that were invalidated.
pub data Invalidated (v : ℤ) : List ℤ → Type 0 where
  now : {rest : List ℤ} → Invalidated v (v ∷ rest)
  earlier : {x : ℤ} {rest : List ℤ} → Invalidated v rest → Invalidated v (x ∷ rest)

fence_of : (P : ℤ → Type 0) {v : ℤ} {vs : List ℤ} → Invalidated v vs → All P vs → P v
fence_of P now h = h.0
fence_of P (earlier i) h = fence_of P i h.1

older_version :
    {item : VersionedValue} (new : VersionedValue) {rest : List VersionedValue}
    → Committed item rest
    → All (λ old. old.version <ℤ new.version) rest
    → item.version <ℤ new.version
older_version new latest h = h.0
older_version new (before m) h = older_version new m h.1

-- The cache holds nothing, or just this value.
pub data HoldsAtMost (c : CacheState) (item : VersionedValue) : Type 0 where
  nothing : c.value ≡ none → c.value_version ≡ none → HoldsAtMost c item
  only : c.value ≡ some item.value → c.value_version ≡ some item.version → HoldsAtMost c item

at_most_newest :
    (new : VersionedValue) (rest : List VersionedValue) (c : CacheState)
    → new.version ≤ℤ c.version_fence
    → All (λ old. old.version <ℤ new.version) rest
    → Holds (new ∷ rest) c
    → HoldsAtMost c new
at_most_newest new rest c above older (empty v n) = nothing v n
at_most_newest new rest c above older (holds item latest v n e) = only v n
at_most_newest new rest c above older (holds item (before m) v n e) =
    let below = older_version new m older in
    absurd (omega (arith, above, below, ap pos_part e, ap neg_part e))

-- Once the newest version has been invalidated, the cache holds nothing or the newest value: no
-- fill with an older value that a reader kept, however late, brings that value back.
pub Reachable-HoldsAtMost :
    {w : World} (new : VersionedValue) (rest : List VersionedValue)
    → Reachable w
    → w.history ≡ new ∷ rest
    → Invalidated new.version w.invalidated
    → HoldsAtMost w.cache new
Reachable-HoldsAtMost {w = w} new rest r e i =
    let f = Reachable-IsFenced r in
    let growing = subst (Pairwise (λ a b. b.version <ℤ a.version)) e f.growing in
    at_most_newest new rest w.cache (fence_of (λ v. v ≤ℤ w.cache.version_fence) i f.fenced)
      growing.0 (subst (λ h. Holds h w.cache) e f.content)
