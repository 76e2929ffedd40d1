-- ===== src/Outbox/Invariant.antt =====
-- outbox_lab.py: what the two databases keep to between transactions.
use staff_sre_platform_engin.Shared.{
  ℕ, ◌≤◌, ◌==◌, String, Bool, true, false, none, List, [], ◌∷◌, ◌++◌, any, ◌≡◌, refl, sym, ◌∙◌,
  subst, ◌⊎◌, inl, inr, str_eq, eq_iff, All, All-map, All-append, any-append, any-last, any-none,
  Bool-cases,
}
use staff_sre_platform_engin.Outbox.Tables.{
  OutboxRow, InboxRow, Delivery, AppDb, BrokerDb, has_event, has_inbox, has_fulfillment,
}

abbrev pub has_delivery : String → List Delivery → Bool
has_delivery id deliveries = any (λ d. str_eq d.event_id id) deliveries

abbrev pub has_row_for : String → List OutboxRow → Bool
has_row_for order_id rows = any (λ r. str_eq r.payload.order_id order_id) rows

-- The event is in the outbox, and always for this order.
abbrev pub Known : List OutboxRow → (event_id order_id : String) → Type 0
Known rows event_id order_id =
    (has_event event_id rows ≡ true)
    × All (λ r. (str_eq r.event_id event_id ≡ false) ⊎ (r.payload.order_id ≡ order_id)) rows

-- The deliveries with this id are of this event.
abbrev pub Numbered : List Delivery → ℕ → String → Type 0
Numbered deliveries id event_id =
    All (λ d. ((d.delivery_id == id) ≡ false) ⊎ (d.event_id ≡ event_id)) deliveries

abbrev pub Published : List Delivery → OutboxRow → Type 0
Published deliveries r = (r.published_at ≡ none) ⊎ (has_delivery r.event_id deliveries ≡ true)

abbrev pub Processed : List InboxRow → Delivery → Type 0
Processed inbox d = (d.consumed_at ≡ none) ⊎ (has_inbox d.event_id inbox ≡ true)

abbrev pub Fulfilled : AppDb → OutboxRow → Type 0
Fulfilled app r =
    (has_inbox r.event_id app.inbox ≡ false)
    ⊎ (has_fulfillment r.payload.order_id app.fulfillment ≡ true)

-- Every order has its event; a row is marked only when it was published, and a delivery only when it
-- was processed; an event in the inbox has its effect.
pub record IsConsistent (app : AppDb) (b : BrokerDb) : Type 0 where
  pub outboxed : All (λ o. has_row_for o.order_id app.outbox ≡ true) app.orders
  pub rows : All (λ r. Known app.outbox r.event_id r.payload.order_id) app.outbox
  pub published : All (Published b.deliveries) app.outbox
  pub fulfilled : All (Fulfilled app) app.outbox
  pub inboxed : All (λ i. has_event i.event_id app.outbox ≡ true) app.inbox
  pub sourced : All (λ d. Known app.outbox d.event_id d.payload.order_id) b.deliveries
  pub processed : All (Processed app.inbox) b.deliveries
  pub numbered : All (λ d. Numbered b.deliveries d.delivery_id d.event_id) b.deliveries
  pub within : All (λ d. d.delivery_id ≤ b.last_delivery_id) b.deliveries

-- An event that is not in the outbox is another one than any that is.
pub fresh_event :
    (rows : List OutboxRow) (new event_id : String)
    → has_event new rows ≡ false
    → has_event event_id rows ≡ true
    → str_eq new event_id ≡ false
fresh_event rows new event_id fresh old = elim (Bool-cases (str_eq new event_id)) [
  | inl same ↦
      absurd (
        cc (sym (subst (λ e. has_event e rows ≡ false) ((eq_iff new event_id).0 same) fresh) ∙ old))
  | inr other ↦ other
]

pub Known-append :
    (rows : List OutboxRow) (x : OutboxRow) (event_id order_id : String)
    → has_event x.event_id rows ≡ false
    → Known rows event_id order_id
    → Known (rows ++ x ∷ []) event_id order_id
Known-append rows x event_id order_id fresh (found, same) = (
  any-append (λ r. str_eq r.event_id event_id) rows (x ∷ []) found,
  All-append _ rows (x ∷ []) same (inl (fresh_event rows x.event_id event_id fresh found), tt),
)

other_rows :
    (rows : List OutboxRow) (event_id order_id : String)
    → has_event event_id rows ≡ false
    → All (λ r. (str_eq r.event_id event_id ≡ false) ⊎ (r.payload.order_id ≡ order_id)) rows
other_rows rows event_id order_id fresh =
    All-map _ _ (λ r h. inl h) rows (any-none (λ r. str_eq r.event_id event_id) rows fresh)

-- A new row is known, too.
pub Known-new :
    (rows : List OutboxRow) (x : OutboxRow)
    → has_event x.event_id rows ≡ false
    → Known (rows ++ x ∷ []) x.event_id x.payload.order_id
Known-new rows x fresh = (
  any-last (λ r. str_eq r.event_id x.event_id) rows x ((eq_iff x.event_id x.event_id).1 refl),
  All-append _ rows (x ∷ []) (other_rows rows x.event_id x.payload.order_id fresh) (inr refl, tt),
)
