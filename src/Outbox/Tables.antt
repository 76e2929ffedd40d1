-- ===== src/Outbox/Tables.antt =====
-- outbox_lab.py: the tables of the two databases, and `create_order`. A table is the list of its rows in
-- the order of insertion; a transaction that fails leaves the database as it was. The payload
-- stands for its JSON text. A time is the number of the second, and is an argument.
use staff_sre_platform_engin.Shared.{
  ℕ, ℤ, pos, ltb_ℤ, String, Bool, Option, none, List, [], ◌∷◌, ◌++◌, any, str_eq, Result, ok, ◌>>◌,
  raise_if,
}

pub record Payload : Type 0 where
  pub event_id : String
  pub order_id : String
  pub customer_id : String
  pub amount_cents : ℤ
  pub status : String

pub record Order : Type 0 where
  pub order_id : String
  pub customer_id : String
  pub amount_cents : ℤ
  pub status : String

pub record OutboxRow : Type 0 where
  pub event_id : String
  pub aggregate_type : String
  pub aggregate_id : String
  pub event_type : String
  pub payload : Payload
  pub created_at : ℕ
  pub published_at : Option ℕ

pub record InboxRow : Type 0 where
  pub event_id : String
  pub consumer_name : String

pub record Fulfillment : Type 0 where
  pub order_id : String
  pub state : String
  pub source_event_id : String

pub record Delivery : Type 0 where
  pub delivery_id : ℕ
  pub event_id : String
  pub event_type : String
  pub payload : Payload
  pub consumed_at : Option ℕ

pub record AppDb : Type 0 where
  pub orders : List Order
  pub outbox : List OutboxRow
  pub inbox : List InboxRow
  pub fulfillment : List Fulfillment

-- `delivery_id` is AUTOINCREMENT: the last that was given.
pub record BrokerDb : Type 0 where
  pub deliveries : List Delivery
  pub last_delivery_id : ℕ

pub data OutboxError : Type 0 where
  negative_amount integrity_error duplicate_each_below_one : OutboxError

-- The primary keys.
abbrev pub has_order : String → List Order → Bool
has_order id orders = any (λ o. str_eq o.order_id id) orders

abbrev pub has_event : String → List OutboxRow → Bool
has_event id rows = any (λ r. str_eq r.event_id id) rows

abbrev pub has_inbox : String → List InboxRow → Bool
has_inbox id rows = any (λ r. str_eq r.event_id id) rows

abbrev pub has_fulfillment : String → List Fulfillment → Bool
has_fulfillment id rows = any (λ f. str_eq f.order_id id) rows

abbrev pub new_order : (order_id customer_id : String) → ℤ → Order
new_order order_id customer_id amount_cents = record {
  order_id = order_id;
  customer_id = customer_id;
  amount_cents = amount_cents;
  status = "CREATED";
}

abbrev pub new_row : (event_id order_id customer_id : String) → ℤ → (now : ℕ) → OutboxRow
new_row event_id order_id customer_id amount_cents now = record {
  event_id = event_id;
  aggregate_type = "order";
  aggregate_id = order_id;
  event_type = "OrderCreated";
  payload = record {
    event_id = event_id;
    order_id = order_id;
    customer_id = customer_id;
    amount_cents = amount_cents;
    status = "CREATED";
  };
  created_at = now;
  published_at = none;
}

-- Both inserts stand in one transaction. `event_id` is the new UUID, which the source also returns.
unfoldable pub create_order :
    AppDb
    → (order_id customer_id : String) → ℤ
    → (event_id : String) → (now : ℕ) → Result OutboxError AppDb
create_order app order_id customer_id amount_cents event_id now = do
  raise_if (ltb_ℤ amount_cents (pos 0)) negative_amount
  raise_if (has_order order_id app.orders) integrity_error
  raise_if (has_event event_id app.outbox) integrity_error
  ok (record app {
    orders = app.orders ++ new_order order_id customer_id amount_cents ∷ [];
    outbox = app.outbox ++ new_row event_id order_id customer_id amount_cents now ∷ [];
  })
