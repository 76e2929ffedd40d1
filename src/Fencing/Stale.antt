-- ===== src/Fencing/Stale.antt =====
-- What the two resources of fencing_demo.py do with a former holder's writes, and the end of `simulate`.
use staff_sre_platform_engin.Shared.{
  ℕ, ◌<◌, ◌≤◌, ℤ, pos, ◌+ℤ◌, ltb_ℤ, leb_ℤ, String, Bool, false, Option, none, some, List, [], ◌∷◌,
  ◌≡◌, arith, Result, ok, err, ◌>>=◌, if◌then◌else◌,
}
use staff_sre_platform_engin.Fencing.Lease.{
  FencingError, FencedResource, stale_token, new_coordinator, held_lease, acquire, write_fenced,
  write_unsafe, simulate, story, write, Event, still_held, bad_lease_duration,
}

-- Any writes, one after the other.
unfoldable pub write_all : FencedResource → List (String × ℕ) → FencedResource
write_all r [] = r
write_all r ((value, token) ∷ rest) = write_all (write_fenced r value token).1 rest

highest-write :
    (r : FencedResource) (value : String) (token : ℕ)
    → r.highest_token ≤ (write_fenced r value token).1.highest_token
unfolding write_fenced
highest-write r value token = ground arith

highest-write_all :
    (r : FencedResource) (ws : List (String × ℕ)) → r.highest_token ≤ (write_all r ws).highest_token
unfolding write_all
highest-write_all r [] = omega arith
highest-write_all r ((value, token) ∷ rest) =
    omega
      (arith, highest-write r value token, highest-write_all (write_fenced r value token).1 rest)

highest-write_new :
    (r : FencedResource) (value : String) (token : ℕ)
    → token ≤ (write_fenced r value token).1.highest_token
unfolding write_fenced
highest-write_new r value token = ground arith

write-eq_stale :
    (r : FencedResource) (value : String) (token : ℕ)
    → token < r.highest_token
    → write_fenced r value token ≡ ((false, stale_token token r.highest_token), r)
unfolding write_fenced
write-eq_stale r value token h = ground arith

-- After a write with a token, whatever is written then, a write with a smaller token is rejected as
-- stale and leaves the resource as it is.
pub write_all-write_stale :
    (r : FencedResource) (value : String) (token : ℕ) (between : List (String × ℕ)) (late : String)
    (old : ℕ)
    → old < token
    → write_fenced (write_all (write_fenced r value token).1 between) late old ≡ (
      (false, stale_token old (write_all (write_fenced r value token).1 between).highest_token),
      write_all (write_fenced r value token).1 between,
    )
write_all-write_stale r value token between late old h =
    write-eq_stale (write_all (write_fenced r value token).1 between) late old (
      omega (
        arith,
        h,
        highest-write_new r value token,
        highest-write_all (write_fenced r value token).1 between,
      ))

-- The value of the last event.
abbrev pub last_value : List Event → Option String
last_value [] = none
last_value (e ∷ []) = e.resource_value
last_value (_ ∷ e ∷ rest) = last_value (e ∷ rest)

abbrev pub final_value : Result FencingError (List Event) → Result FencingError (Option String)
final_value m = m >>= λ events. ok (last_value events)

-- For every lease duration: one that is not positive is rejected; while the first lease lasts the
-- second worker gets none; and otherwise the value at the end is the second worker's with the
-- fenced resource, and the former holder's with the unsafe one.
pub final_value-simulate :
    (is_fenced : Bool) (duration : ℤ)
    → final_value (simulate is_fenced duration) ≡ (
        if leb_ℤ duration (pos 0)
        then err bad_lease_duration
        else if ltb_ℤ (pos 60) (pos 0 +ℤ duration)
        then err (still_held "worker-A" (pos 0 +ℤ duration))
        else if is_fenced
        then ok (some "B:authoritative-write")
        else ok (some "A:stale-resumed-write"))
unfolding simulate new_coordinator acquire held_lease story write write_fenced write_unsafe
final_value-simulate is_fenced duration = ground arith
