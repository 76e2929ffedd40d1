-- ===== src/Outbox/Effects.antt =====
-- outbox_lab.py: `process_delivery`, and the UPDATE that marks a delivery as consumed, keep what the
-- databases keep to.
use staff_sre_platform_engin.Shared.{
  ℕ, ◌≤◌, ◌==◌, String, Bool, true, false, List, [], ◌∷◌, ◌++◌, map, ◌≡◌, refl, sym, ◌∙◌, ap, subst,
  ◌⊎◌, inl, inr, arith, str_eq, eq_iff, All-map, All-append, All-map_items, All-both, any-append,
  any-last, any-map, if_ind,
}
use staff_sre_platform_engin.Outbox.Tables.{
  OutboxRow, InboxRow, Fulfillment, Delivery, AppDb, BrokerDb, has_inbox, has_fulfillment,
}
use staff_sre_platform_engin.Outbox.Consumer.{upsert, process_delivery, consume_row, mark_consumed}
use staff_sre_platform_engin.Outbox.Invariant.{
  has_delivery, Known, Numbered, Published, Processed, Fulfilled, IsConsistent,
}

-- An upsert has its order, and keeps every other.
has_fulfillment-upsert :
    (order_id event_id : String) (rows : List Fulfillment)
    → has_fulfillment order_id (upsert order_id event_id rows) ≡ true
unfolding upsert
has_fulfillment-upsert order_id event_id [] = rw ((eq_iff order_id order_id).1 refl) refl
has_fulfillment-upsert order_id event_id (f ∷ rest) =
    if_ind (λ rows. has_fulfillment order_id rows ≡ true) (str_eq f.order_id order_id)
      (λ _. rw ((eq_iff order_id order_id).1 refl) refl)
      (λ other. rw other (has_fulfillment-upsert order_id event_id rest))

has_fulfillment-upsert_other :
    (order_id event_id o : String) (rows : List Fulfillment)
    → has_fulfillment o rows ≡ true
    → has_fulfillment o (upsert order_id event_id rows) ≡ true
unfolding upsert
has_fulfillment-upsert_other order_id event_id o [] h = absurd (cc h)
has_fulfillment-upsert_other order_id event_id o (f ∷ rest) h =
    ground
      (arith, eq_iff f.order_id order_id, has_fulfillment-upsert_other order_id event_id o rest)

module _ (app : AppDb) (b : BrokerDb) (c : IsConsistent app b) where
  -- The two tables after a delivery that is not a duplicate.
  abbrev accepted : Delivery → String → AppDb
  accepted d consumer_name = record app {
    inbox = app.inbox ++ record { event_id = d.event_id; consumer_name = consumer_name } ∷ [];
    fulfillment = upsert d.payload.order_id d.event_id app.fulfillment;
  }

  Fulfilled-accepted :
      (d : Delivery) (consumer_name : String) (r : OutboxRow)
      → (str_eq r.event_id d.event_id ≡ false) ⊎ (r.payload.order_id ≡ d.payload.order_id)
      → Fulfilled app r
      → Fulfilled (accepted d consumer_name) r
  Fulfilled-accepted d consumer_name r (inr same) h = inr (
      subst (λ o. has_fulfillment o (upsert d.payload.order_id d.event_id app.fulfillment) ≡ true)
        (sym same) (has_fulfillment-upsert d.payload.order_id d.event_id app.fulfillment))
  Fulfilled-accepted d consumer_name r (inl other) (inr done) = inr (
      has_fulfillment-upsert_other d.payload.order_id d.event_id r.payload.order_id app.fulfillment
        done)
  Fulfilled-accepted d consumer_name r (inl other) (inl absent) = inl (not_last app.inbox absent)
    where
      not_last :
          (rows : List InboxRow)
          → has_inbox r.event_id rows ≡ false
          → has_inbox r.event_id
              (rows ++ record { event_id = d.event_id; consumer_name = consumer_name } ∷ [])
            ≡ false
      not_last [] h =
          ground (arith, other, eq_iff d.event_id r.event_id, eq_iff r.event_id d.event_id)
      not_last (i ∷ rest) h = ground (arith, h, not_last rest)

  pub process_delivery-IsConsistent :
      (d : Delivery) (consumer_name : String)
      → Known app.outbox d.event_id d.payload.order_id
      → IsConsistent (process_delivery app d consumer_name).1 b
        × (has_inbox d.event_id (process_delivery app d consumer_name).1.inbox ≡ true)
  unfolding process_delivery
  process_delivery-IsConsistent d consumer_name (found, same) =
      if_ind (λ (r : Bool × AppDb). IsConsistent r.1 b × (has_inbox d.event_id r.1.inbox ≡ true))
        (has_inbox d.event_id app.inbox) (λ duplicate. (c, duplicate))
        (λ first. (
          record {
            outboxed = c.outboxed;
            rows = c.rows;
            published = c.published;
            fulfilled =
                All-map _ _ (λ r (s, f). Fulfilled-accepted d consumer_name r s f) app.outbox
                  (All-both _ _ app.outbox same c.fulfilled);
            inboxed = All-append _ app.inbox _ c.inboxed (found, tt);
            sourced = c.sourced;
            processed = All-map _ _ more_processed b.deliveries c.processed;
            numbered = c.numbered;
            within = c.within;
          },
          any-last (λ i. str_eq i.event_id d.event_id) app.inbox _ ((eq_iff _ _).1 refl),
        ))
    where
      more_processed :
          (x : Delivery) → Processed app.inbox x → Processed (accepted d consumer_name).inbox x
      more_processed x (inl e) = inl e
      more_processed x (inr e) = inr (any-append _ app.inbox _ e)

consume_row-same :
    (id now : ℕ) (d : Delivery)
    → ((consume_row id now d).event_id ≡ d.event_id)
      × ((consume_row id now d).payload ≡ d.payload)
      × ((consume_row id now d).delivery_id ≡ d.delivery_id)
consume_row-same id now d = ground arith

module _ (id now : ℕ) where
  -- What holds of a delivery's event, payload and id holds after the mark.
  over_mark :
      (P : String → String → ℕ → Type 0) (d : Delivery)
      → P d.event_id d.payload.order_id d.delivery_id
      → P
          (consume_row id now d).event_id
          (consume_row id now d).payload.order_id
          (consume_row id now d).delivery_id
  over_mark P d h =
      let (e, p, n) = consume_row-same id now d in
      subst (λ x. P x (consume_row id now d).payload.order_id (consume_row id now d).delivery_id)
        (sym e)
        (subst (λ x. P d.event_id x.order_id (consume_row id now d).delivery_id) (sym p)
          (subst (λ x. P d.event_id d.payload.order_id x) (sym n) h))

  has_delivery-mark :
      (e : String) (ds : List Delivery)
      → has_delivery e (map (consume_row id now) ds) ≡ has_delivery e ds
  has_delivery-mark e ds =
      any-map (λ d. str_eq d.event_id e) (consume_row id now) ds
        (λ d. ap (λ x. str_eq x e) (consume_row-same id now d).0)

  pub Numbered-mark :
      (ds : List Delivery) (n : ℕ) (e : String)
      → Numbered ds n e
      → Numbered (map (consume_row id now) ds) n e
  Numbered-mark ds n e h =
      All-map_items _ _ (consume_row id now) ds
        (λ d k. over_mark (λ x _ m. ((m == n) ≡ false) ⊎ (x ≡ e)) d k) h

  Processed-mark :
      (inbox : List InboxRow) (event_id : String)
      → has_inbox event_id inbox ≡ true
      → (d : Delivery) → ((d.delivery_id == id) ≡ false) ⊎ (d.event_id ≡ event_id)
      → Processed inbox d
      → Processed inbox (consume_row id now d)
  Processed-mark inbox event_id done d (inl other) h =
      if_ind (Processed inbox) (d.delivery_id == id) (λ same. absurd (cc (sym same ∙ other)))
        (λ _. h)
  Processed-mark inbox event_id done d (inr same) h =
      if_ind (Processed inbox) (d.delivery_id == id)
        (λ _. inr (subst (λ e. has_inbox e inbox ≡ true) (sym same) done)) (λ _. h)

  pub mark_consumed-IsConsistent :
      (app : AppDb) (b : BrokerDb) (event_id : String)
      → IsConsistent app b
      → Numbered b.deliveries id event_id
      → has_inbox event_id app.inbox ≡ true
      → IsConsistent app (mark_consumed b id now)
  unfolding mark_consumed
  mark_consumed-IsConsistent app b event_id c numbered done = record {
    outboxed = c.outboxed;
    rows = c.rows;
    published = All-map _ _ more_published app.outbox c.published;
    fulfilled = c.fulfilled;
    inboxed = c.inboxed;
    sourced =
        All-map_items _ _ (consume_row id now) b.deliveries
          (over_mark (λ e o _. Known app.outbox e o)) c.sourced;
    processed =
        All-map_items _ _ (consume_row id now) b.deliveries
          (λ d (n, p). Processed-mark app.inbox event_id done d n p)
          (All-both _ _ b.deliveries numbered c.processed);
    numbered =
        All-map_items _ _ (consume_row id now) b.deliveries
          (λ d h.
            over_mark (λ e _ n. Numbered (map (consume_row id now) b.deliveries) n e) d
              (Numbered-mark b.deliveries d.delivery_id d.event_id h))
          c.numbered;
    within =
        All-map_items _ _ (consume_row id now) b.deliveries
          (over_mark (λ _ _ n. n ≤ b.last_delivery_id)) c.within;
  }
    where
      more_published :
          (x : OutboxRow)
          → Published b.deliveries x
          → Published (map (consume_row id now) b.deliveries) x
      more_published x (inl e) = inl e
      more_published x (inr e) = inr (has_delivery-mark x.event_id b.deliveries ∙ e)
