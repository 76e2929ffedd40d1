-- ===== src/Overload/Headroom.antt =====
-- overload_lab.py: `Cell` and `plan_failover`. Capacities, loads and traffic are natural numbers; the
-- source rejects the negative ones. The safety margin counts hundredths, and the required capacity is
-- computed exactly where the source computes with floating point.
use staff_sre_platform_engin.Shared.{
  ℕ, ◌+◌, ◌-◌, ◌*◌, ◌/◌, ◌≤◌, String, Bool, true, false, not, ◌==◌, ltb, leb, ◌≡◌, ◌↔◌, arith,
  Result, ok, ◌>>◌, raise_if, if◌then◌else◌, with_margin-covers,
}

pub record Cell : Type 0 where
  pub name : String
  pub capacity : ℕ
  pub baseline_load : ℕ
  pub is_healthy : Bool

pub data CellError : Type 0 where
  bad_capacity bad_baseline_load : CellError

unfoldable pub new_cell : String → ℕ → ℕ → Bool → Result CellError Cell
new_cell name capacity baseline_load is_healthy = do
  raise_if (capacity == 0) bad_capacity
  raise_if (not (leb baseline_load capacity)) bad_baseline_load
  ok (record {
    name = name;
    capacity = capacity;
    baseline_load = baseline_load;
    is_healthy = is_healthy;
  })

unfoldable pub headroom : Cell → ℕ
headroom c = if c.is_healthy then c.capacity - c.baseline_load else 0

pub data ShiftReason : Type 0 where
  destination_unhealthy insufficient_headroom safe_to_shift : ShiftReason

pub record FailoverDecision : Type 0 where
  pub allowed : Bool
  pub reason : ShiftReason
  pub required_capacity : ℕ
  pub destination_headroom : ℕ

-- `int(source_traffic * (1 + safety_margin) + 0.999999)`
abbrev pub required_capacity : (source_traffic margin : ℕ) → ℕ
required_capacity source_traffic margin =
    (source_traffic * (100 + margin) * 10000 + 999999) / 1000000

unfoldable pub plan_failover : ℕ → Cell → (margin : ℕ) → FailoverDecision
plan_failover source_traffic destination margin =
    let required = required_capacity source_traffic margin in
    if not destination.is_healthy
    then record {
      allowed = false;
      reason = destination_unhealthy;
      required_capacity = required;
      destination_headroom = 0;
    }
    else if ltb (headroom destination) required
    then record {
      allowed = false;
      reason = insufficient_headroom;
      required_capacity = required;
      destination_headroom = headroom destination;
    }
    else record {
      allowed = true;
      reason = safe_to_shift;
      required_capacity = required;
      destination_headroom = headroom destination;
    }

-- A failover is allowed exactly where the destination is healthy and, on top of its own load, has
-- room for the traffic with its margin. The destination's load is within its capacity, as its
-- constructor demands.
pub plan_failover-allowed_iff :
    (source_traffic : ℕ) (destination : Cell) (margin : ℕ)
    → destination.baseline_load ≤ destination.capacity
    → ((plan_failover source_traffic destination margin).allowed ≡ true) ↔ (
        (destination.is_healthy ≡ true)
        × (100 * destination.baseline_load + source_traffic * (100 + margin)
            ≤ 100 * destination.capacity))
unfolding plan_failover headroom
plan_failover-allowed_iff source_traffic destination margin load =
    let (enough, least) = with_margin-covers source_traffic margin in
    (
      λ h. (ground (arith, h), ground (arith, h, enough, load)),
      λ (up, room). ground (arith, up, room, enough, least, load),
    )
