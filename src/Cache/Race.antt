-- ===== src/Cache/Race.antt =====
-- cache_race_demo.py: `stale_fill_race`, the events of one reader and one writer.
use staff_sre_platform_engin.Shared.{ℕ, pos, String, Bool, true, false, none, List, [], ◌∷◌}
use staff_sre_platform_engin.Cache.State.{
  VersionedValue, CacheState, FillReason, unsafe_delete, safe_invalidate, unsafe_fill, safe_fill,
}

-- The texts of `outcome`.
pub data RaceOutcome : Type 0 where
  captured committed fence_advanced deleted : RaceOutcome
  fill_outcome : Bool × FillReason → RaceOutcome

pub record RaceEvent : Type 0 where
  pub step : ℕ
  pub actor : String
  pub action : String
  pub outcome : RaceOutcome
  pub database : VersionedValue
  pub cache : CacheState

abbrev pub empty_cache : CacheState
empty_cache = record { value = none; value_version = none; version_fence = pos 0 }

-- `accepted, reason = cache.safe_fill(...)` or the unsafe one.
abbrev pub fill : Bool → CacheState → VersionedValue → (Bool × FillReason) × CacheState
fill true c item = safe_fill c item
fill false c item = unsafe_fill c item

abbrev pub invalidate : Bool → CacheState → VersionedValue → CacheState × RaceOutcome
invalidate true c new = (safe_invalidate c new.version, fence_advanced)
invalidate false c new = (unsafe_delete c, deleted)

unfoldable pub stale_fill_race : (safe : Bool) → List RaceEvent
stale_fill_race safe =
    let v₁ : VersionedValue = record { value = "profile-v1"; version = pos 1 } in
    let v₂ : VersionedValue = record { value = "profile-v2"; version = pos 2 } in
    let (cleared, invalidation) = invalidate safe empty_cache v₂ in
    let (result, filled) = fill safe cleared v₁ in
    record {
      step = 1;
      actor = "reader-A";
      action = "cache miss; read database";
      outcome = captured;
      database = v₁;
      cache = empty_cache;
    }
    ∷ record {
      step = 2;
      actor = "writer";
      action = "commit database update";
      outcome = committed;
      database = v₂;
      cache = empty_cache;
    }
    ∷ record {
      step = 3;
      actor = "writer";
      action = "invalidate cache";
      outcome = invalidation;
      database = v₂;
      cache = cleared;
    }
    ∷ record {
      step = 4;
      actor = "reader-A";
      action = "resume and fill cached snapshot";
      outcome = fill_outcome result;
      database = v₂;
      cache = filled;
    }
    ∷ []
