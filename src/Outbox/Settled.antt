-- ===== src/Outbox/Settled.antt =====
-- outbox_lab.py: every sequence of calls of `create_order`, `relay` and `consume`, and what it comes to.
use staff_sre_platform_engin.Shared.{
  ℕ, ℤ, String, Bool, true, false, not, ◌&&◌, Option, none, some, [], any, ◌≡◌, sym, ◌∙◌, subst,
  inl, inr, str_eq, eq_iff, All, All-map, All-both, any-All, any-none, and-true, not-true, ok,
  Ensures-at,
}
use staff_sre_platform_engin.Outbox.Tables.{
  AppDb, BrokerDb, has_inbox, has_fulfillment, create_order,
}
use staff_sre_platform_engin.Outbox.Relay.{is_pending, RelayEnd, relay}
use staff_sre_platform_engin.Outbox.Consumer.{consume}
use staff_sre_platform_engin.Outbox.Invariant.{has_delivery, has_row_for, IsConsistent}
use staff_sre_platform_engin.Outbox.Runs.{
  create_order-IsConsistent, relay-IsConsistent, consume-IsConsistent,
}

abbrev pub empty_app : AppDb
empty_app = record { orders = []; outbox = []; inbox = []; fulfillment = [] }

abbrev pub empty_broker : BrokerDb
empty_broker = record { deliveries = []; last_delivery_id = 0 }

-- The databases that calls lead to, from empty ones. A relay may crash after any number of events.
pub data Reachable : AppDb → BrokerDb → Type 0 where
  start : Reachable empty_app empty_broker
  created :
      {app next : AppDb} {b : BrokerDb} (order_id customer_id : String) (amount : ℤ)
      (event_id : String) (now : ℕ)
      → Reachable app b
      → create_order app order_id customer_id amount event_id now ≡ ok next
      → Reachable next b
  relayed :
      {app next : AppDb} {b after : BrokerDb} {end : RelayEnd} (limit : ℤ) (crash : Bool)
      (copies : ℤ) (now : ℕ)
      → Reachable app b
      → relay app b limit crash copies now ≡ ok (end, next, after)
      → Reachable next after
  consumes :
      {app : AppDb} {b : BrokerDb} (consumer_name : String) (limit : ℤ) (now : ℕ)
      → Reachable app b
      → Reachable
          (consume app b consumer_name limit now).1
          (consume app b consumer_name limit now).2

pub Reachable-IsConsistent : {app : AppDb} {b : BrokerDb} → Reachable app b → IsConsistent app b
Reachable-IsConsistent start = record {
  outboxed = tt;
  rows = tt;
  published = tt;
  fulfilled = tt;
  inboxed = tt;
  sourced = tt;
  processed = tt;
  numbered = tt;
  within = tt;
}
Reachable-IsConsistent (created {app = app} {b = b} order_id customer_id amount event_id now r h) =
    Ensures-at (λ x. IsConsistent x b) (create_order app order_id customer_id amount event_id now)
      (create_order-IsConsistent app b order_id customer_id amount event_id now
        (Reachable-IsConsistent r))
      h
Reachable-IsConsistent (relayed {app = app} {b = b} limit crash copies now r h) =
    Ensures-at (λ x. IsConsistent x.1 x.2) (relay app b limit crash copies now)
      (relay-IsConsistent app b limit crash copies now (Reachable-IsConsistent r)) h
Reachable-IsConsistent (consumes {app = app} {b = b} consumer_name limit now r) =
    consume-IsConsistent app b consumer_name limit now (Reachable-IsConsistent r)

-- No row waits for the relay, and no delivery for the consumer.
abbrev pub is_settled : AppDb → BrokerDb → Bool
is_settled app b =
    not (any (λ r. is_pending r.published_at) app.outbox)
    && not (any (λ d. is_pending d.consumed_at) b.deliveries)

not_pending : (o : Option ℕ) → is_pending o ≡ false → o ≡ none → ⊥
not_pending none h e = cc
not_pending (some t) h e = cc

module _ {app : AppDb} {b : BrokerDb} (c : IsConsistent app b) where
  -- An event that was delivered, with no delivery left to consume, is in the inbox.
  delivered-inbox :
      All (λ d. is_pending d.consumed_at ≡ false) b.deliveries
      → (event_id : String) → has_delivery event_id b.deliveries ≡ true
      → has_inbox event_id app.inbox ≡ true
  delivered-inbox read event_id h =
      let (d, same, (is_read, done)) =
        any-All (λ d. str_eq d.event_id event_id) _ b.deliveries h
          (All-both _ _ b.deliveries read c.processed) in
      subst (λ e. has_inbox e app.inbox ≡ true) ((eq_iff d.event_id event_id).0 same)
        (elim done [
          | inl open_ ↦ absurd (not_pending d.consumed_at is_read open_)
          | inr found ↦ found
        ])

  order-fulfilled :
      All (λ r. is_pending r.published_at ≡ false) app.outbox
      → All (λ d. is_pending d.consumed_at ≡ false) b.deliveries
      → (order_id : String) → has_row_for order_id app.outbox ≡ true
      → has_fulfillment order_id app.fulfillment ≡ true
  order-fulfilled sent read order_id h =
      let (r, same, (is_sent, (sending, effect))) =
        any-All (λ r. str_eq r.payload.order_id order_id) _ app.outbox h
          (All-both _ _ app.outbox sent (All-both _ _ app.outbox c.published c.fulfilled)) in
      let delivered : has_delivery r.event_id b.deliveries ≡ true = elim sending [
        | inl open_ ↦ absurd (not_pending r.published_at is_sent open_)
        | inr found ↦ found
      ] in
      subst (λ o. has_fulfillment o app.fulfillment ≡ true)
        ((eq_iff r.payload.order_id order_id).0 same)
        (elim effect [
          | inl absent ↦ absurd (cc (sym absent ∙ delivered-inbox read r.event_id delivered))
          | inr found ↦ found
        ])

-- Nothing is lost: whatever the orders, the relays with their crashes and their duplicates, and the
-- consumers, once no row waits for the relay and no delivery for the consumer, every order has its
-- fulfillment.
pub settled_orders_fulfilled :
    {app : AppDb} {b : BrokerDb}
    → Reachable app b
    → is_settled app b ≡ true
    → All (λ o. has_fulfillment o.order_id app.fulfillment ≡ true) app.orders
settled_orders_fulfilled {app = app} {b = b} r settled =
    let c = Reachable-IsConsistent r in
    let (rows_done, deliveries_done) = and-true _ _ settled in
    let sent = any-none (λ r. is_pending r.published_at) app.outbox (not-true _ rows_done) in
    let read = any-none (λ d. is_pending d.consumed_at) b.deliveries (not-true _ deliveries_done) in
    All-map _ _ (λ o h. order-fulfilled c sent read o.order_id h) app.orders c.outboxed
