-- ===== src/Queue/Traces.antt =====
-- The brokers of queue_delivery_demo.py that any sequence of calls leads to.
use staff_sre_platform_engin.Shared.{subst, ℕ, ℤ, String, Bool, ◌≡◌, Option, ok, Ensures-at}
use staff_sre_platform_engin.Queue.Broker.{
  Broker, Delivery, new_broker, enqueue, receive, ack, nack,
}
use staff_sre_platform_engin.Queue.Invariant.{
  IsWellFormed, new_broker-IsWellFormed, enqueue-IsWellFormed, receive-IsWellFormed,
}
use staff_sre_platform_engin.Queue.Receipts.{ack-IsWellFormed, nack-IsWellFormed}

-- The calls that return, in any order; one that raises changes nothing.
pub data Reachable : Broker → Type 0 where
  start : (limit : ℤ) (strict : Bool) {b : Broker} → new_broker limit strict ≡ ok b → Reachable b
  enqueued :
      {b b' : Broker} (message_id payload group_key : String)
      → Reachable b
      → enqueue b message_id payload group_key ≡ ok b'
      → Reachable b'
  received :
      {b b' : Broker} (now timeout : ℤ) (d : Option Delivery)
      → Reachable b
      → receive b now timeout ≡ ok (d, b')
      → Reachable b'
  acknowledged :
      {b b' : Broker} (token : ℕ) (found : Bool)
      → Reachable b
      → ack b token ≡ (found, b')
      → Reachable b'
  returned :
      {b b' : Broker} (token : ℕ) (now delay : ℤ) (found : Bool)
      → Reachable b
      → nack b token now delay ≡ ok (found, b')
      → Reachable b'

-- Every broker that calls of its operations lead to is well formed: distinct ids, increasing sequence numbers,
-- distinct receipts that have been issued, no message received more often than the limit allows, and
-- only messages over the limit, without a receipt, in the dead-letter queue.
pub Reachable-IsWellFormed : {b : Broker} → Reachable b → IsWellFormed b
Reachable-IsWellFormed (start limit strict e) =
    Ensures-at IsWellFormed (new_broker limit strict) (new_broker-IsWellFormed limit strict) e
Reachable-IsWellFormed (enqueued {b} message_id payload group_key r e) =
    Ensures-at IsWellFormed _
      (enqueue-IsWellFormed b message_id payload group_key (Reachable-IsWellFormed r)) e
Reachable-IsWellFormed (received {b} now timeout d r e) =
    Ensures-at (λ v. IsWellFormed v.1) _
      (receive-IsWellFormed b now timeout (Reachable-IsWellFormed r)) e
Reachable-IsWellFormed (acknowledged {b} token found r e) =
    subst (λ v. IsWellFormed v.1) e (ack-IsWellFormed b token (Reachable-IsWellFormed r))
Reachable-IsWellFormed (returned {b} token now delay found r e) =
    Ensures-at (λ v. IsWellFormed v.1) _
      (nack-IsWellFormed b token now delay (Reachable-IsWellFormed r)) e
