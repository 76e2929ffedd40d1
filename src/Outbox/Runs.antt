-- ===== src/Outbox/Runs.antt =====
-- outbox_lab.py: `create_order`, `relay` and `consume` as wholes keep what the databases keep to.
use staff_sre_platform_engin.Shared.{
  ℕ, zero, suc, ℤ, pos, negsuc, ltb_ℤ, String, Bool, true, false, List, [], ◌∷◌, filter, ◌≡◌, refl,
  sym, subst, arith, str_eq, eq_iff, All, All-map, All-both, any-append, any-last, ok, raise_if,
  if_ind, Ensures, Ensures-bind,
}
use staff_sre_platform_engin.Outbox.Tables.{
  OutboxRow, Delivery, AppDb, BrokerDb, has_order, has_event, has_inbox, new_order, new_row,
  create_order, negative_amount, integrity_error, duplicate_each_below_one,
}
use staff_sre_platform_engin.Outbox.Relay.{
  is_pending, row_before, insert_row, sort_rows, first_rows, limited, pending_outbox,
  insert_delivery, publish, mark_published, relay_rows, rounds_of, relay,
}
use staff_sre_platform_engin.Outbox.Consumer.{
  unconsumed_deliveries, process_delivery, mark_consumed, Consumed, tally, consume_rows, consume,
}
use staff_sre_platform_engin.Outbox.Invariant.{has_delivery, Known, Numbered, IsConsistent}
use staff_sre_platform_engin.Outbox.Transactions.{
  with_order-IsConsistent, insert_delivery-IsConsistent,
}
use staff_sre_platform_engin.Outbox.Marks.{Known-mark, mark_published-IsConsistent}
use staff_sre_platform_engin.Outbox.Effects.{
  process_delivery-IsConsistent, mark_consumed-IsConsistent, Numbered-mark,
}

-- What holds of all the rows of a table holds of those that a query returns.
module _ {ℓ} {A : Type ℓ} (P : A → Type 0) where
  All-filter : (p : A → Bool) (xs : List A) → All P xs → All P (filter p xs)
  All-filter p [] h = tt
  All-filter p (x ∷ xs) h =
      if_ind (All P) (p x) (λ _. (h.0, All-filter p xs h.1)) (λ _. All-filter p xs h.1)

  All-limited : (limit : ℤ) (xs : List A) → All P xs → All P (limited limit xs)
  unfolding limited
  All-limited (negsuc n) xs h = h
  All-limited (pos n) xs h = All-first n xs h
    where
      All-first : (m : ℕ) (ys : List A) → All P ys → All P (first_rows m ys)
      All-first zero ys k = tt
      All-first (suc m) [] k = tt
      All-first (suc m) (y ∷ ys) k = (k.0, All-first m ys k.1)

All-insert_row :
    (P : OutboxRow → Type 0) (r : OutboxRow) (xs : List OutboxRow)
    → P r
    → All P xs
    → All P (insert_row r xs)
unfolding insert_row
All-insert_row P r [] h hs = (h, tt)
All-insert_row P r (x ∷ xs) h hs =
    if_ind (All P) (row_before r x) (λ _. (h, hs)) (λ _. (hs.0, All-insert_row P r xs h hs.1))

All-sort_rows : (P : OutboxRow → Type 0) (xs : List OutboxRow) → All P xs → All P (sort_rows xs)
unfolding sort_rows
All-sort_rows P [] h = tt
All-sort_rows P (x ∷ xs) h = All-insert_row P x (sort_rows xs) h.0 (All-sort_rows P xs h.1)

has_delivery-publish :
    (n : ℕ) (b : BrokerDb) (r : OutboxRow) (e : String)
    → has_delivery e b.deliveries ≡ true
    → has_delivery e (publish n b r).deliveries ≡ true
unfolding publish insert_delivery
has_delivery-publish zero b r e h = h
has_delivery-publish (suc n) b r e h =
    has_delivery-publish n (insert_delivery b r) r e (any-append _ b.deliveries _ h)

publish-IsConsistent :
    (n : ℕ) (app : AppDb) (b : BrokerDb) (r : OutboxRow)
    → IsConsistent app b
    → Known app.outbox r.event_id r.payload.order_id
    → IsConsistent app (publish n b r)
unfolding publish
publish-IsConsistent zero app b r c known = c
publish-IsConsistent (suc n) app b r c known =
    publish-IsConsistent n app (insert_delivery b r) r
      (insert_delivery-IsConsistent app b c r known) known

-- A row that was published once or more often has a delivery.
publish-has_delivery :
    (n : ℕ) (b : BrokerDb) (r : OutboxRow)
    → has_delivery r.event_id (publish (suc n) b r).deliveries ≡ true
unfolding publish insert_delivery
publish-has_delivery n b r = has_delivery-publish n (insert_delivery b r) r r.event_id (
    any-last (λ d. str_eq d.event_id r.event_id) b.deliveries _
      ((eq_iff r.event_id r.event_id).1 refl))

abbrev AllKnown : AppDb → List OutboxRow → Type 0
AllKnown app rows = All (λ r. Known app.outbox r.event_id r.payload.order_id) rows

AllKnown-mark :
    (app : AppDb) (event_id : String) (now : ℕ) (rows : List OutboxRow)
    → AllKnown app rows
    → AllKnown (mark_published app event_id now) rows
unfolding mark_published
AllKnown-mark app event_id now rows k =
    All-map _ _ (λ r h. Known-mark event_id now app.outbox r.event_id r.payload.order_id h) rows k

relay_rows-IsConsistent :
    (n : ℕ) (crash : Bool) (now count : ℕ) (app : AppDb) (b : BrokerDb) (rows : List OutboxRow)
    → IsConsistent app b
    → AllKnown app rows
    → IsConsistent
        (relay_rows (suc n) crash now count app b rows).1
        (relay_rows (suc n) crash now count app b rows).2
unfolding relay_rows
relay_rows-IsConsistent n crash now count app b [] c known = c
relay_rows-IsConsistent n true now count app b (r ∷ rest) c known =
    publish-IsConsistent (suc n) app b r c known.0
relay_rows-IsConsistent n false now count app b (r ∷ rest) c known =
    relay_rows-IsConsistent n false now (suc count) (mark_published app r.event_id now)
      (publish (suc n) b r) rest
      (mark_published-IsConsistent r.event_id now app (publish (suc n) b r)
        (publish-IsConsistent (suc n) app b r c known.0) (publish-has_delivery n b r))
      (AllKnown-mark app r.event_id now rest known.1)

AllKnown-pending :
    (app : AppDb) (b : BrokerDb) (limit : ℤ)
    → IsConsistent app b
    → AllKnown app (pending_outbox app limit)
unfolding pending_outbox
AllKnown-pending app b limit c =
    let P = λ (r : OutboxRow). Known app.outbox r.event_id r.payload.order_id in
    All-limited P limit (sort_rows (filter (λ r. is_pending r.published_at) app.outbox)) (
      All-sort_rows P (filter (λ r. is_pending r.published_at) app.outbox)
        (All-filter P (λ r. is_pending r.published_at) app.outbox c.rows))

not_raised {ℓ} :
    {E : Type ℓ} (bad : Bool) (e : E) {u : Unit {0}} → raise_if bad e ≡ ok u → bad ≡ false
not_raised true e h = cc
not_raised false e h = refl

rounds_of-positive :
    (copies : ℤ) → ltb_ℤ copies (pos 1) ≡ false → (k : ℕ) × (rounds_of copies ≡ suc k)
rounds_of-positive (pos zero) h = absurd (cc h)
rounds_of-positive (pos (suc k)) h = (k, refl)
rounds_of-positive (negsuc k) h = absurd (ground (arith, h))

pub relay-IsConsistent :
    (app : AppDb) (b : BrokerDb) (limit : ℤ) (crash : Bool) (copies : ℤ) (now : ℕ)
    → IsConsistent app b
    → Ensures (λ r. IsConsistent r.1 r.2) (relay app b limit crash copies now)
unfolding relay
relay-IsConsistent app b limit crash copies now c =
    Ensures-bind _ (raise_if (ltb_ℤ copies (pos 1)) duplicate_each_below_one) _ λ _ e.
      let (k, positive) = rounds_of-positive copies (not_raised _ _ e) in
      subst
        (λ n.
          IsConsistent (relay_rows n crash now 0 app b (pending_outbox app limit)).1
            (relay_rows n crash now 0 app b (pending_outbox app limit)).2)
        (sym positive)
        (relay_rows-IsConsistent k crash now 0 app b (pending_outbox app limit) c
          (AllKnown-pending app b limit c))

-- The deliveries that `consume` has read, against the tables as they are.
abbrev AllRead : AppDb → BrokerDb → List Delivery → Type 0
AllRead app b ds =
    All
      (λ d.
        Known app.outbox d.event_id d.payload.order_id
        × Numbered b.deliveries d.delivery_id d.event_id)
      ds

AllRead-next :
    (app : AppDb) (b : BrokerDb) (d : Delivery) (consumer_name : String) (now : ℕ)
    (rest : List Delivery)
    → AllRead app b rest
    → AllRead (process_delivery app d consumer_name).1 (mark_consumed b d.delivery_id now) rest
unfolding process_delivery mark_consumed
AllRead-next app b d consumer_name now rest k =
    if_ind {A = Bool × AppDb} (λ r. AllRead r.1 (mark_consumed b d.delivery_id now) rest)
      (has_inbox d.event_id app.inbox) (λ _. marked) (λ _. marked)
  where
    marked : AllRead app (mark_consumed b d.delivery_id now) rest
    marked =
        All-map _ _
          (λ x (s, n). (s, Numbered-mark d.delivery_id now b.deliveries x.delivery_id x.event_id n))
          rest k

consume_rows-IsConsistent :
    (consumer_name : String) (now : ℕ) (t : Consumed) (app : AppDb) (b : BrokerDb)
    (ds : List Delivery)
    → IsConsistent app b
    → AllRead app b ds
    → IsConsistent
        (consume_rows consumer_name now t app b ds).1
        (consume_rows consumer_name now t app b ds).2
unfolding consume_rows
consume_rows-IsConsistent consumer_name now t app b [] c k = c
consume_rows-IsConsistent consumer_name now t app b (d ∷ rest) c k =
    let (next, done) = process_delivery-IsConsistent app b c d consumer_name k.0.0 in
    consume_rows-IsConsistent consumer_name now (tally (process_delivery app d consumer_name).0 t)
      (process_delivery app d consumer_name).1 (mark_consumed b d.delivery_id now) rest
      (mark_consumed-IsConsistent d.delivery_id now (process_delivery app d consumer_name).1 b
        d.event_id next k.0.1 done)
      (AllRead-next app b d consumer_name now rest k.1)

pub consume-IsConsistent :
    (app : AppDb) (b : BrokerDb) (consumer_name : String) (limit : ℤ) (now : ℕ)
    → IsConsistent app b
    → IsConsistent
        (consume app b consumer_name limit now).1
        (consume app b consumer_name limit now).2
unfolding consume unconsumed_deliveries
consume-IsConsistent app b consumer_name limit now c =
    let P = λ (d : Delivery).
      Known app.outbox d.event_id d.payload.order_id
      × Numbered b.deliveries d.delivery_id d.event_id in
    consume_rows-IsConsistent consumer_name now (record { processed = 0; duplicates = 0 }) app b
      (unconsumed_deliveries b limit) c
      (All-limited P limit (filter (λ d. is_pending d.consumed_at) b.deliveries) (
        All-filter P (λ d. is_pending d.consumed_at) b.deliveries
          (All-both _ _ b.deliveries c.sourced c.numbered)))

pub create_order-IsConsistent :
    (app : AppDb) (b : BrokerDb) (order_id customer_id : String) (amount : ℤ) (event_id : String)
    (now : ℕ)
    → IsConsistent app b
    → Ensures (λ x. IsConsistent x b) (create_order app order_id customer_id amount event_id now)
unfolding create_order
create_order-IsConsistent app b order_id customer_id amount event_id now c =
    Ensures-bind _ (raise_if (ltb_ℤ amount (pos 0)) negative_amount) _ λ _ _.
      Ensures-bind _ (raise_if (has_order order_id app.orders) integrity_error) _ λ _ _.
        Ensures-bind _ (raise_if (has_event event_id app.outbox) integrity_error) _ λ _ e.
          with_order-IsConsistent app b c (new_order order_id customer_id amount)
            (new_row event_id order_id customer_id amount now) refl refl (not_raised _ _ e)
