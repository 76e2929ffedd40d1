-- ===== src/Queue/Examples.antt =====
-- The scenarios of queue_delivery_demo.py as tests, and the theorems at concrete inputs.
use staff_sre_platform_engin.Shared.{
  pos, Bool, true, false, List, [], ◌∷◌, ◌++◌, Option, none, some, ◌≡◌, ◌≢◌, refl, Result, ok, err,
  map, ◌+ℤ◌, All, arith, Ensures,
}
use staff_sre_platform_engin.Queue.Broker.{
  Broker, Message, Delivery, BrokerError, new_broker, enqueue, blocked, deliver, scan, receive,
  take_out, ack, release, nack,
}
use staff_sre_platform_engin.Queue.Consumer.{new_consumer, effects}
use staff_sre_platform_engin.Queue.Invariant.{IsWellFormed}
use staff_sre_platform_engin.Queue.Delivery.{receive-ack, receive-IsHeld, IsHeld}
use staff_sre_platform_engin.Queue.Leases.{receive-receive_before_lease, redelivery-ack_stale}
use staff_sre_platform_engin.Queue.Order.{FirstOfGroup, receive-FirstOfGroup, held, held-receive}
use staff_sre_platform_engin.Queue.Effects.{
  Attempt, process_all, attempts, at_most_one, effects_exactly_once, effects_repeated,
}
use staff_sre_platform_engin.Queue.Traces.{
  Reachable, start, enqueued, received, Reachable-IsWellFormed,
}

-- To open this opens the broker.
all_operations : Broker → Bool × Broker
unfolding new_broker enqueue blocked deliver scan receive take_out ack release nack ◌+ℤ◌
all_operations b = ack b 0

abbrev empty : Broker
empty = record {
  max_receive_count = pos 5;
  strict_group_ordering = true;
  messages = [];
  dlq = [];
  last_sequence = 0;
  receipt_sequence = 0;
}

abbrev broker_of : Result BrokerError Broker → Broker
broker_of (ok b) = b
broker_of (err e) = empty

abbrev after : Result BrokerError (Option Delivery × Broker) → Broker
after (ok (d, b)) = b
after (err e) = empty

abbrev no_delivery : Delivery
no_delivery = record {
  message_id = "";
  payload = "";
  group_key = "";
  sequence = 0;
  receive_count = 0;
  receipt_token = 0;
  lease_until = pos 0;
}

abbrev delivered : Result BrokerError (Option Delivery × Broker) → Delivery
delivered (ok (some d, b)) = d
delivered (ok (none, b)) = no_delivery
delivered (err e) = no_delivery

-- `ordered_group_scenario`, `visibility_timeout_scenario` and `poison_message_scenario` on one queue.
abbrev one : Broker
one = broker_of (enqueue empty "account-1-event-1" "debit" "account-1")

abbrev queue : Broker
queue = broker_of (enqueue one "account-1-event-2" "credit" "account-1")

receive-first :
    receive queue (pos 0) (pos 5)
    ≡ ok (some (delivered (receive queue (pos 0) (pos 5))), after (receive queue (pos 0) (pos 5)))
unfolding all_operations
receive-first = refl

abbrev leased : Broker
leased = after (receive queue (pos 0) (pos 5))

abbrev first : Delivery
first = delivered (receive queue (pos 0) (pos 5))

blocked_behind_first : receive leased (pos 1) (pos 5) ≡ ok (none, leased)
unfolding all_operations
blocked_behind_first = refl

abbrev redelivered : Broker
redelivered = after (receive leased (pos 6) (pos 5))

abbrev second : Delivery
second = delivered (receive leased (pos 6) (pos 5))

receive-second : receive leased (pos 6) (pos 5) ≡ ok (some (second), redelivered)
unfolding all_operations
receive-second = refl

late_ack : ack (redelivered) 1 ≡ (false, redelivered)
unfolding all_operations
late_ack = refl

-- A queue of one message that may be received once: the next receive buries it.
abbrev poison : Broker
poison =
    broker_of
      (enqueue (record empty { max_receive_count = pos 1 }) "poison-1" "invalid schema" "default")

buried :
    map
      (λ m. m.message_id)
      (after (receive (after (receive poison (pos 0) (pos 5))) (pos 6) (pos 5))).dlq
    ≡ "poison-1" ∷ []
unfolding all_operations
buried = refl

queue-Reachable : Reachable queue
unfolding all_operations
queue-Reachable =
    enqueued "account-1-event-2" "credit" "account-1"
      (enqueued "account-1-event-1" "debit" "account-1" (start (pos 5) true refl) refl) refl

leased-Reachable : Reachable leased
leased-Reachable = received (pos 0) (pos 5) (some first) queue-Reachable receive-first

Reachable-IsWellFormed_example : IsWellFormed queue
Reachable-IsWellFormed_example = Reachable-IsWellFormed queue-Reachable

queue-IsWellFormed : IsWellFormed queue
queue-IsWellFormed = Reachable-IsWellFormed queue-Reachable

receive-ack_example :
    (kept : List Message) × (m : Message) × (rest : List Message) × (leased.messages
      ≡ kept ++ m ∷ rest)
    × (m.message_id ≡ first.message_id)
    × (ack leased first.receipt_token ≡ (true, record leased { messages = kept ++ rest }))
receive-ack_example = receive-ack queue (pos 0) (pos 5) queue-IsWellFormed receive-first

receive-IsHeld_example : IsHeld (pos 0) (pos 5) first leased
receive-IsHeld_example = receive-IsHeld queue (pos 0) (pos 5) queue-IsWellFormed receive-first

redelivery-ack_stale_example : ack (redelivered) 1 ≡ (false, redelivered)
unfolding all_operations
redelivery-ack_stale_example =
    redelivery-ack_stale leased (pos 6) (pos 5) 1 [] _ _ (Reachable-IsWellFormed leased-Reachable)
      refl refl receive-second refl

receive-FirstOfGroup_example : All (FirstOfGroup first.group_key first.sequence) leased.messages
unfolding all_operations
receive-FirstOfGroup_example =
    receive-FirstOfGroup queue (pos 0) (pos 5) queue-IsWellFormed refl receive-first

held-receive_example :
    Ensures
      (λ r. held "account-1-event-1" r.1 ≡ held "account-1-event-1" queue)
      (receive queue (pos 0) (pos 5))
held-receive_example = held-receive queue (pos 0) (pos 5) "account-1-event-1"

-- `duplicate_delivery_scenario`: a crash before the acknowledgement, then a redelivery.
abbrev both : List Attempt
both = (first, true) ∷ (second, false) ∷ []

effects_exactly_once_example :
    effects
      (process_all (new_consumer "inventory") leased true both).0.side_effects
      "account-1-event-1"
    ≡ at_most_one (attempts "account-1-event-1" both)
effects_exactly_once_example = effects_exactly_once "inventory" leased both "account-1-event-1"

effects_repeated_example :
    effects
      (process_all (new_consumer "inventory") leased false both).0.side_effects
      "account-1-event-1"
    ≡ attempts "account-1-event-1" both
effects_repeated_example = effects_repeated "inventory" leased both "account-1-event-1"

applied_twice : attempts "account-1-event-1" both ≡ 2
unfolding attempts all_operations
applied_twice = refl

-- With a message of another group, a second receive finds it while the first is leased.
abbrev two_groups : Broker
two_groups = broker_of (enqueue queue "account-2-event-1" "debit" "account-2")

abbrev two_leased : Broker
two_leased = after (receive two_groups (pos 0) (pos 10))

abbrev two_first : Delivery
two_first = delivered (receive two_groups (pos 0) (pos 10))

receive-two_first : receive two_groups (pos 0) (pos 10) ≡ ok (some two_first, two_leased)
unfolding all_operations
receive-two_first = refl

abbrev two_second : Delivery
two_second = delivered (receive two_leased (pos 0) (pos 10))

receive-two_second :
    receive two_leased (pos 0) (pos 10)
    ≡ ok (some two_second, after (receive two_leased (pos 0) (pos 10)))
unfolding all_operations
receive-two_second = refl

two_groups-Reachable : Reachable two_groups
unfolding all_operations
two_groups-Reachable = enqueued "account-2-event-1" "debit" "account-2" queue-Reachable refl

receive-receive_before_lease_example : two_second.message_id ≢ two_first.message_id
unfolding all_operations
receive-receive_before_lease_example =
    receive-receive_before_lease two_groups (pos 0) (pos 10) (pos 0) (pos 10)
      (Reachable-IsWellFormed two_groups-Reachable) receive-two_first (omega arith)
      receive-two_second
