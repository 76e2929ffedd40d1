-- ===== src/Cache/State.antt =====
-- cache_race_demo.py: `VersionedValue`, `CacheState` and its methods, and `stampede`.
use staff_sre_platform_engin.Shared.{
  ℤ, pos, ◌-ℤ◌, String, Bool, true, false, Option, none, some, ltb_ℤ, leb_ℤ, max_ℤ, if◌then◌else◌,
  Result, ok, ◌>>◌, raise_if,
}

pub record VersionedValue : Type 0 where
  pub value : String
  pub version : ℤ

pub record CacheState : Type 0 where
  pub value : Option String
  pub value_version : Option ℤ
  pub version_fence : ℤ

pub data FillReason : Type 0 where
  accepted_fill : ℤ → FillReason
  below_fence below_cached : (version bound : ℤ) → FillReason

unfoldable pub unsafe_delete : CacheState → CacheState
unsafe_delete c = record c { value = none; value_version = none }

unfoldable pub safe_invalidate : CacheState → ℤ → CacheState
safe_invalidate c new_version = record c {
  value = none;
  value_version = none;
  version_fence = max_ℤ c.version_fence new_version;
}

unfoldable pub unsafe_fill : CacheState → VersionedValue → (Bool × FillReason) × CacheState
unsafe_fill c item = (
  (true, accepted_fill item.version),
  record c { value = some item.value; value_version = some item.version },
)

-- The end of `safe_fill`, where the fill is accepted.
unfoldable pub store_fill : CacheState → VersionedValue → (Bool × FillReason) × CacheState
store_fill c item = (
  (true, accepted_fill item.version),
  record {
    value = some item.value;
    value_version = some item.version;
    version_fence = max_ℤ c.version_fence item.version;
  },
)

-- The second test, against the cached version.
unfoldable pub fill_over : Option ℤ → CacheState → VersionedValue → (Bool × FillReason) × CacheState
unfolding store_fill
fill_over none c item = store_fill c item
fill_over (some cached) c item =
    if ltb_ℤ item.version cached
    then ((false, below_cached item.version cached), c)
    else store_fill c item

unfoldable pub safe_fill : CacheState → VersionedValue → (Bool × FillReason) × CacheState
unfolding fill_over
safe_fill c item =
    if ltb_ℤ item.version c.version_fence
    then ((false, below_fence item.version c.version_fence), c)
    else fill_over c.value_version c item

pub data StampedeMode : Type 0 where
  single_flight independent_miss : StampedeMode

pub record StampedeResult : Type 0 where
  pub requests : ℤ
  pub origin_loads : ℤ
  pub cache_hits_after_fill : ℤ
  pub mode : StampedeMode

pub data StampedeError : Type 0 where
  no_requests : StampedeError

unfoldable pub stampede : ℤ → Bool → Result StampedeError StampedeResult
stampede requests one_flight = do
  raise_if (leb_ℤ requests (pos 0)) no_requests
  ok (
      if one_flight
      then record {
        requests = requests;
        origin_loads = pos 1;
        cache_hits_after_fill = requests -ℤ pos 1;
        mode = single_flight;
      }
      else record {
        requests = requests;
        origin_loads = requests;
        cache_hits_after_fill = pos 0;
        mode = independent_miss;
      })
