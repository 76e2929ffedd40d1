-- ===== src/Fencing/Examples.antt =====
-- The run of fencing_demo.py and its tests as tests, and the theorems at concrete inputs.
use staff_sre_platform_engin.Shared.{
  ℕ, ℤ, pos, ◌+ℤ◌, Bool, true, false, Option, none, some, List, [], ◌∷◌, ◌≡◌, refl, arith, Result,
  ok, err,
}
use staff_sre_platform_engin.Fencing.Lease.{
  Lease, LeaseCoordinator, FencedResource, FencingError, stale_token, new_coordinator, held_lease,
  acquire, write_fenced, write_unsafe, simulate, story, write, Event, still_held,
}
use staff_sre_platform_engin.Fencing.Traces.{
  World, Reachable, start, acquired, wrote, newest, older, IsFenced, first_world,
  Reachable-IsFenced,
}
use staff_sre_platform_engin.Fencing.Stale.{
  write_all, write_all-write_stale, final_value, final_value-simulate,
}

-- To open this opens the demonstration.
demo : Bool → ℤ → Result FencingError (List Event)
unfolding new_coordinator held_lease acquire write_fenced write_unsafe write story simulate
    write_all ◌+ℤ◌
demo = simulate

abbrev coordinator : ℕ → Option Lease → LeaseCoordinator
coordinator next active = record { lease_duration = pos 50; next_token = next; active = active }

abbrev lease_a : Lease
lease_a = record { owner = "worker-A"; token = 1; issued_at = pos 0; expires_at = pos 50 }

abbrev lease_b : Lease
lease_b = record { owner = "worker-B"; token = 2; issued_at = pos 60; expires_at = pos 110 }

abbrev last_world : World
last_world = record {
  coordinator = coordinator 3 (some lease_b);
  resource = record { value = some "B:authoritative-write"; highest_token = 2 };
  leases = lease_b ∷ lease_a ∷ [];
  accepted = 2 ∷ 1 ∷ [];
}

last_world-Reachable : Reachable last_world
unfolding demo
last_world-Reachable =
    wrote "A:stale-resumed-write" 1
      (wrote "B:authoritative-write" 2
        (acquired "worker-B" (pos 60)
          (wrote "A:initial-write" 1
            (acquired {w = first_world (coordinator 1 none)} "worker-A" (pos 0)
              (start (pos 50) refl) refl)
            (newest refl))
          refl)
        (newest refl))
      (older (newest refl))

Reachable-IsFenced_example : IsFenced last_world
Reachable-IsFenced_example = Reachable-IsFenced last_world-Reachable

abbrev empty : FencedResource
empty = record { value = none; highest_token = 0 }

write_all-write_stale_example :
    write_fenced (write_all (write_fenced empty "B" 2).1 (("C", 3) ∷ ("A", 1) ∷ [])) "A" 1 ≡ (
      (
        false,
        stale_token 1
            (write_all (write_fenced empty "B" 2).1 (("C", 3) ∷ ("A", 1) ∷ [])).highest_token,
      ),
      write_all (write_fenced empty "B" 2).1 (("C", 3) ∷ ("A", 1) ∷ []),
    )
write_all-write_stale_example =
    write_all-write_stale empty "B" 2 (("C", 3) ∷ ("A", 1) ∷ []) "A" 1 (omega arith)

final_value-simulate_example :
    final_value (simulate true (pos 50)) ≡ ok (some "B:authoritative-write")
unfolding demo
final_value-simulate_example = final_value-simulate true (pos 50)

unsafe_run : final_value (demo false (pos 50)) ≡ ok (some "A:stale-resumed-write")
unfolding demo
unsafe_run = refl

long_lease : final_value (demo true (pos 61)) ≡ err (still_held "worker-A" (pos 61))
unfolding demo
long_lease = refl
