-- ===== src/Outbox/Consumer.antt =====
-- outbox_lab.py: `unconsumed_deliveries`, `process_delivery` and `consume`.
use staff_sre_platform_engin.Shared.{
  ℕ, suc, ℤ, ◌==◌, String, Bool, true, false, some, List, [], ◌∷◌, ◌++◌, map, filter, str_eq,
  if◌then◌else◌,
}
use staff_sre_platform_engin.Outbox.Tables.{Fulfillment, Delivery, AppDb, BrokerDb, has_inbox}
use staff_sre_platform_engin.Outbox.Relay.{is_pending, limited}

-- Deliveries stand in the order of their ids.
unfoldable pub unconsumed_deliveries : BrokerDb → ℤ → List Delivery
unfolding limited
unconsumed_deliveries b limit = limited limit (filter (λ d. is_pending d.consumed_at) b.deliveries)

abbrev pub ready : String → String → Fulfillment
ready order_id event_id = record {
  order_id = order_id;
  state = "READY";
  source_event_id = event_id;
}

-- `INSERT ... ON CONFLICT(order_id) DO UPDATE`
unfoldable pub upsert : String → String → List Fulfillment → List Fulfillment
upsert order_id event_id [] = ready order_id event_id ∷ []
upsert order_id event_id (f ∷ rest) =
    let later = upsert order_id event_id rest in
    if str_eq f.order_id order_id then ready order_id event_id ∷ rest else f ∷ later

-- The inbox's primary key raises the integrity error, and the transaction is rolled back.
unfoldable pub process_delivery : AppDb → Delivery → (consumer_name : String) → Bool × AppDb
unfolding upsert
process_delivery app d consumer_name = if has_inbox d.event_id app.inbox then (false, app) else (
  true,
  record app {
    inbox = app.inbox ++ record { event_id = d.event_id; consumer_name = consumer_name } ∷ [];
    fulfillment = upsert d.payload.order_id d.event_id app.fulfillment;
  },
)

abbrev pub consume_row : ℕ → ℕ → Delivery → Delivery
consume_row delivery_id now d =
    if d.delivery_id == delivery_id then record d { consumed_at = some now } else d

unfoldable pub mark_consumed : BrokerDb → ℕ → ℕ → BrokerDb
mark_consumed b delivery_id now = record b {
  deliveries = map (consume_row delivery_id now) b.deliveries;
}

pub record Consumed : Type 0 where
  pub processed : ℕ
  pub duplicates : ℕ

abbrev pub tally : Bool → Consumed → Consumed
tally true c = record c { processed = suc c.processed }
tally false c = record c { duplicates = suc c.duplicates }

unfoldable pub consume_rows :
    String → ℕ → Consumed → AppDb → BrokerDb → List Delivery → Consumed × AppDb × BrokerDb
consume_rows consumer_name now c app broker [] = (c, app, broker)
consume_rows consumer_name now c app broker (d ∷ rest) =
    let (done, app') = process_delivery app d consumer_name in
    consume_rows consumer_name now (tally done c) app' (mark_consumed broker d.delivery_id now) rest

unfoldable pub consume :
    AppDb
    → BrokerDb
    → (consumer_name : String) → (limit : ℤ) → (now : ℕ) → Consumed × AppDb × BrokerDb
unfolding consume_rows
consume app broker consumer_name limit now =
    consume_rows consumer_name now (record { processed = 0; duplicates = 0 }) app broker
      (unconsumed_deliveries broker limit)
