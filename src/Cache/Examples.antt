-- ===== src/Cache/Examples.antt =====
-- The two races of cache_race_demo.py as tests, and the theorem at a concrete run.
use staff_sre_platform_engin.Shared.{
  pos, ◌-ℤ◌, max_ℤ, Bool, true, false, none, some, List, [], ◌∷◌, ◌≡◌, refl, map, arith, ok, err,
}
use staff_sre_platform_engin.Cache.State.{
  VersionedValue, unsafe_delete, safe_invalidate, unsafe_fill, store_fill, fill_over, safe_fill,
  stampede, single_flight, no_requests,
}
use staff_sre_platform_engin.Cache.Race.{RaceEvent, stale_fill_race}
use staff_sre_platform_engin.Cache.Fence.{
  World, Reachable, start, commits, invalidates, fills, latest, before, now, HoldsAtMost,
  Reachable-HoldsAtMost,
}

-- To open this opens the cache.
race : Bool → List RaceEvent
unfolding unsafe_delete safe_invalidate unsafe_fill store_fill fill_over safe_fill stale_fill_race
    stampede max_ℤ ◌-ℤ◌
race = stale_fill_race

safe_race :
    (map (λ e. e.cache.value) (race true) ≡ none ∷ none ∷ none ∷ none ∷ [])
    × (map (λ e. e.cache.version_fence) (race true) ≡ pos 0 ∷ pos 0 ∷ pos 2 ∷ pos 2 ∷ [])
unfolding race
safe_race = (refl, refl)

unsafe_race : map (λ e. e.cache.value) (race false) ≡ none ∷ none ∷ none ∷ some "profile-v1" ∷ []
unfolding race
unsafe_race = refl

one_flight :
    stampede (pos 100) true
    ≡ ok (record {
      requests = pos 100;
      origin_loads = pos 1;
      cache_hits_after_fill = pos 99;
      mode = single_flight;
    })
unfolding race
one_flight = refl

no_flight : stampede (pos 0) true ≡ err no_requests
unfolding race
no_flight = refl

abbrev v₁ : VersionedValue
v₁ = record { value = "profile-v1"; version = pos 1 }

abbrev v₂ : VersionedValue
v₂ = record { value = "profile-v2"; version = pos 2 }

-- The writer commits and invalidates, the reader fills late.
abbrev world : World
world = record {
  history = v₂ ∷ v₁ ∷ [];
  cache = record { value = none; value_version = none; version_fence = pos 2 };
  invalidated = pos 2 ∷ [];
}

world-Reachable : Reachable world
unfolding race
world-Reachable =
    fills v₁ (invalidates v₂ (commits v₂ (start v₁) (omega arith, tt)) latest) (before latest)

Reachable-HoldsAtMost_example : HoldsAtMost world.cache v₂
Reachable-HoldsAtMost_example = Reachable-HoldsAtMost v₂ (v₁ ∷ []) world-Reachable refl now
