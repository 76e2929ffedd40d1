-- ===== src/Outbox/Transactions.antt =====
-- outbox_lab.py: every transaction of the two databases keeps what they keep to.
use staff_sre_platform_engin.Shared.{
  String, true, false, none, [], ◌∷◌, ◌++◌, ◌≡◌, refl, sym, ◌∙◌, subst, inl, inr, arith, str_eq,
  eq_iff, All-map, All-append, All-both, any-append, any-last, any-All, Bool-cases,
}
use staff_sre_platform_engin.Outbox.Tables.{Order, OutboxRow, AppDb, BrokerDb, has_event, has_inbox}
use staff_sre_platform_engin.Outbox.Relay.{insert_delivery}
use staff_sre_platform_engin.Outbox.Invariant.{
  Known, Published, IsConsistent, Known-append, Known-new,
}

-- The order and its event, added.
abbrev pub with_order : AppDb → Order → OutboxRow → AppDb
with_order app o r = record app { orders = app.orders ++ o ∷ []; outbox = app.outbox ++ r ∷ [] }

module _ (app : AppDb) (b : BrokerDb) (c : IsConsistent app b) where
  not_inboxed :
      (event_id : String)
      → has_event event_id app.outbox ≡ false
      → has_inbox event_id app.inbox ≡ false
  not_inboxed event_id fresh = elim (Bool-cases (has_inbox event_id app.inbox)) [
    | inl found ↦
        let (i, same, known) =
          any-All (λ i. str_eq i.event_id event_id) _ app.inbox found c.inboxed in
        absurd
          (cc (sym fresh ∙ subst (λ e. has_event e app.outbox ≡ true) ((eq_iff _ _).0 same) known))
    | inr absent ↦ absent
  ]

  pub with_order-IsConsistent :
      (o : Order) (r : OutboxRow)
      → r.payload.order_id ≡ o.order_id
      → r.published_at ≡ none
      → has_event r.event_id app.outbox ≡ false
      → IsConsistent (with_order app o r) b
  with_order-IsConsistent o r same pending fresh = record {
    outboxed =
        All-append _ app.orders (o ∷ [])
          (All-map _ _ (λ x h. any-append _ app.outbox (r ∷ []) h) app.orders c.outboxed)
          (any-last _ app.outbox r ((eq_iff _ _).1 same), tt);
    rows =
        All-append _ app.outbox (r ∷ [])
          (All-map _ _ (λ x h. Known-append app.outbox r x.event_id x.payload.order_id fresh h)
            app.outbox c.rows)
          (Known-new app.outbox r fresh, tt);
    published = All-append _ app.outbox (r ∷ []) c.published (inl pending, tt);
    fulfilled =
        All-append _ app.outbox (r ∷ []) c.fulfilled (inl (not_inboxed r.event_id fresh), tt);
    inboxed = All-map _ _ (λ i h. any-append _ app.outbox (r ∷ []) h) app.inbox c.inboxed;
    sourced =
        All-map _ _ (λ d h. Known-append app.outbox r d.event_id d.payload.order_id fresh h)
          b.deliveries c.sourced;
    processed = c.processed;
    numbered = c.numbered;
    within = c.within;
  }

  pub insert_delivery-IsConsistent :
      (r : OutboxRow)
      → Known app.outbox r.event_id r.payload.order_id
      → IsConsistent app (insert_delivery b r)
  unfolding insert_delivery
  insert_delivery-IsConsistent r known = record {
    outboxed = c.outboxed;
    rows = c.rows;
    published = All-map _ _ more_published app.outbox c.published;
    fulfilled = c.fulfilled;
    inboxed = c.inboxed;
    sourced = All-append _ b.deliveries _ c.sourced (known, tt);
    processed = All-append _ b.deliveries _ c.processed (inl refl, tt);
    numbered =
        All-append _ b.deliveries _
          (All-map _ _ (λ d (h, n). All-append _ b.deliveries _ n (inl (ground (arith, h)), tt))
            b.deliveries (All-both _ _ b.deliveries c.within c.numbered))
          (
            All-append _ b.deliveries _
                (All-map _ _ (λ d h. inl (ground (arith, h))) b.deliveries c.within) (inr refl, tt),
            tt,
          );
    within =
        All-append _ b.deliveries _ (All-map _ _ (λ d h. omega (arith, h)) b.deliveries c.within)
          (omega arith, tt);
  }
    where
      more_published :
          (x : OutboxRow) → Published b.deliveries x → Published (insert_delivery b r).deliveries x
      more_published x (inl e) = inl e
      more_published x (inr e) = inr (any-append _ b.deliveries _ e)
