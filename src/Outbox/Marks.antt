-- ===== src/Outbox/Marks.antt =====
-- outbox_lab.py: the UPDATE statements, which mark a row as published and a delivery as consumed, and
-- `process_delivery`, keep what the databases keep to.
use staff_sre_platform_engin.Shared.{
  ℕ, String, true, false, List, map, ◌≡◌, sym, ◌∙◌, ap, subst, ◌⊎◌, inr, arith, str_eq, eq_iff,
  All-map, All-map_items, any-map, if_ind,
}
use staff_sre_platform_engin.Outbox.Tables.{
  OutboxRow, Delivery, AppDb, BrokerDb, has_event, has_inbox, has_fulfillment,
}
use staff_sre_platform_engin.Outbox.Relay.{mark_row, mark_published}
use staff_sre_platform_engin.Outbox.Invariant.{
  has_delivery, has_row_for, Known, Published, IsConsistent,
}

module _ (event_id : String) (now : ℕ) where
  -- A mark changes neither the event nor the order of a row.
  mark_row-event_id : (r : OutboxRow) → (mark_row event_id now r).event_id ≡ r.event_id
  mark_row-event_id r = ground arith

  mark_row-payload : (r : OutboxRow) → (mark_row event_id now r).payload ≡ r.payload
  mark_row-payload r = ground arith

  has_event-mark :
      (e : String) (rows : List OutboxRow)
      → has_event e (map (mark_row event_id now) rows) ≡ has_event e rows
  has_event-mark e rows =
      any-map (λ r. str_eq r.event_id e) (mark_row event_id now) rows
        (λ r. ap (λ x. str_eq x e) (mark_row-event_id r))

  has_row_for-mark :
      (o : String) (rows : List OutboxRow)
      → has_row_for o (map (mark_row event_id now) rows) ≡ has_row_for o rows
  has_row_for-mark o rows =
      any-map (λ r. str_eq r.payload.order_id o) (mark_row event_id now) rows
        (λ r. ap (λ p. str_eq p.order_id o) (mark_row-payload r))

  pub Known-mark :
      (rows : List OutboxRow) (e o : String)
      → Known rows e o
      → Known (map (mark_row event_id now) rows) e o
  Known-mark rows e o (found, same) = (
    has_event-mark e rows ∙ found,
    All-map_items _ _ (mark_row event_id now) rows
        (λ r h.
          subst (λ p. (str_eq (mark_row event_id now r).event_id e ≡ false) ⊎ (p.order_id ≡ o))
            (sym (mark_row-payload r))
            (subst (λ x. (str_eq x e ≡ false) ⊎ (r.payload.order_id ≡ o))
              (sym (mark_row-event_id r)) h))
        same,
  )

  Published-mark :
      (deliveries : List Delivery)
      → has_delivery event_id deliveries ≡ true
      → (r : OutboxRow) → Published deliveries r
      → Published deliveries (mark_row event_id now r)
  Published-mark deliveries sent r h =
      if_ind (Published deliveries) (str_eq r.event_id event_id)
        (λ same.
          inr (subst (λ e. has_delivery e deliveries ≡ true) (sym ((eq_iff _ _).0 same)) sent))
        (λ _. h)

  module _ (app : AppDb) (b : BrokerDb) (c : IsConsistent app b) where
    pub mark_published-IsConsistent :
        has_delivery event_id b.deliveries ≡ true → IsConsistent (mark_published app event_id now) b
    unfolding mark_published
    mark_published-IsConsistent sent = record {
      outboxed =
          All-map _ _ (λ o h. has_row_for-mark o.order_id app.outbox ∙ h) app.orders c.outboxed;
      rows =
          All-map_items _ _ (mark_row event_id now) app.outbox
            (λ r h.
              subst
                (λ p.
                  Known (map (mark_row event_id now) app.outbox) (mark_row event_id now r).event_id
                    p.order_id)
                (sym (mark_row-payload r))
                (subst (λ e. Known (map (mark_row event_id now) app.outbox) e r.payload.order_id)
                  (sym (mark_row-event_id r))
                  (Known-mark app.outbox r.event_id r.payload.order_id h)))
            c.rows;
      published =
          All-map_items _ _ (mark_row event_id now) app.outbox (Published-mark b.deliveries sent)
            c.published;
      fulfilled =
          All-map_items _ _ (mark_row event_id now) app.outbox
            (λ r h.
              subst
                (λ p.
                  (has_inbox (mark_row event_id now r).event_id app.inbox ≡ false)
                  ⊎ (has_fulfillment p.order_id app.fulfillment ≡ true))
                (sym (mark_row-payload r))
                (subst
                  (λ e.
                    (has_inbox e app.inbox ≡ false)
                    ⊎ (has_fulfillment r.payload.order_id app.fulfillment ≡ true))
                  (sym (mark_row-event_id r)) h))
            c.fulfilled;
      inboxed = All-map _ _ (λ i h. has_event-mark i.event_id app.outbox ∙ h) app.inbox c.inboxed;
      sourced =
          All-map _ _ (λ d h. Known-mark app.outbox d.event_id d.payload.order_id h) b.deliveries
            c.sourced;
      processed = c.processed;
      numbered = c.numbered;
      within = c.within;
    }
