-- ===== src/Outbox/Examples.antt =====
-- The demonstration of outbox_lab.py as tests, and the theorem at its end.
use staff_sre_platform_engin.Shared.{
  pos, negsuc, true, false, none, length, ◌≡◌, refl, All, Result, ok, err,
}
use staff_sre_platform_engin.Outbox.Tables.{
  AppDb, BrokerDb, has_fulfillment, create_order, OutboxError, integrity_error, negative_amount,
}
use staff_sre_platform_engin.Outbox.Relay.{
  insert_row, sort_rows, first_rows, limited, pending_outbox, insert_delivery, publish,
  mark_published, relay_rows, relay, RelayEnd, crashed, published,
}
use staff_sre_platform_engin.Outbox.Consumer.{
  unconsumed_deliveries, upsert, process_delivery, mark_consumed, consume_rows, consume, Consumed,
}
use staff_sre_platform_engin.Outbox.Settled.{
  Reachable, start, created, relayed, consumes, empty_app, empty_broker, is_settled,
  settled_orders_fulfilled,
}

abbrev app_of : Result OutboxError AppDb → AppDb
app_of (ok a) = a
app_of (err _) = empty_app

abbrev after_relay : Result OutboxError (RelayEnd × AppDb × BrokerDb) → RelayEnd × AppDb × BrokerDb
after_relay (ok r) = r
after_relay (err _) = (crashed, empty_app, empty_broker)

-- The demonstration: an order, a relay that crashes, a second relay, and the consumer.
app₁ : AppDb
unfolding create_order insert_row sort_rows first_rows limited pending_outbox insert_delivery
    publish mark_published relay_rows relay unconsumed_deliveries upsert process_delivery
    mark_consumed consume_rows consume
app₁ = app_of (create_order empty_app "order-1001" "customer-42" (pos 12900) "event-1" 1)

relay₁ : RelayEnd × AppDb × BrokerDb
unfolding app₁
relay₁ = after_relay (relay app₁ empty_broker (pos 10) true (pos 1) 2)

relay₂ : RelayEnd × AppDb × BrokerDb
unfolding relay₁
relay₂ = after_relay (relay relay₁.1 relay₁.2 (pos 10) false (pos 1) 3)

final : Consumed × AppDb × BrokerDb
unfolding relay₂
final = consume relay₂.1 relay₂.2 "fulfillment-service" (pos 100) 4

-- Two deliveries of one event, and one effect.
demo_result :
    (length final.2.deliveries ≡ 2)
    × (final.0 ≡ record { processed = 1; duplicates = 1 })
    × (length final.1.inbox ≡ 1)
    × (length final.1.fulfillment ≡ 1)
unfolding final
demo_result = (refl, refl, refl, refl)

crash_code : (relay₁.0 ≡ crashed) × (relay₂.0 ≡ published 1)
unfolding relay₂
crash_code = (refl, refl)

same_order : create_order app₁ "order-1001" "customer-7" (pos 5) "event-2" 9 ≡ err integrity_error
unfolding app₁
same_order = refl

bad_amount : create_order app₁ "order-2" "customer-7" (negsuc 4) "event-2" 9 ≡ err negative_amount
unfolding app₁
bad_amount = refl

-- The inbox has one key, the event: a second consumer's deliveries of an event count as duplicates.
second_consumer :
    (process_delivery final.1
      (record {
        delivery_id = 3;
        event_id = "event-1";
        event_type = "OrderCreated";
        payload = record {
          event_id = "event-1";
          order_id = "order-1001";
          customer_id = "customer-42";
          amount_cents = pos 12900;
          status = "CREATED";
        };
        consumed_at = none;
      })
      "billing-service").0
    ≡ false
unfolding final
second_consumer = refl

final-Reachable : Reachable final.1 final.2
unfolding final
final-Reachable = consumes "fulfillment-service" (pos 100) 4 (
    relayed (pos 10) false (pos 1) 3
      (relayed (pos 10) true (pos 1) 2
        (created "order-1001" "customer-42" (pos 12900) "event-1" 1 start refl) refl)
      refl)

final-settled : is_settled final.1 final.2 ≡ true
unfolding final
final-settled = refl

settled_orders_fulfilled_example :
    All (λ o. has_fulfillment o.order_id final.1.fulfillment ≡ true) final.1.orders
settled_orders_fulfilled_example = settled_orders_fulfilled final-Reachable final-settled
