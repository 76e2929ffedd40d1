-- ===== src/Queue/Delivery.antt =====
-- What a delivery of queue_delivery_demo.py promises.
use staff_sre_platform_engin.Shared.{
  ℕ, suc, ◌<◌, ℤ, pos, true, false, ◌&&◌, List, [], ◌∷◌, ◌++◌, Option, none, some, ◌≡◌, refl, ◌∙◌,
  ap, subst, ◌≤ℤ◌, ◌+ℤ◌, arith, Pairwise, All-middle, Ensures, Ensures-at, if_ind, leb_ℤ, ok,
}
use staff_sre_platform_engin.Queue.Broker.{
  Broker, Message, Delivery, to_dlq, count_receive, deliver, receive, blocked, ack,
}
use staff_sre_platform_engin.Queue.Rule.{at, scan_ind}
use staff_sre_platform_engin.Queue.Invariant.{
  IsWellFormed, OtherReceipt, buried-IsWellFormed, receive-IsWellFormed,
}
use staff_sre_platform_engin.Queue.Receipts.{
  TakesOut, here, there, NoHolder, removed, refused, ack-Acked,
}

-- `Q` holds of a delivery and of the broker after it.
abbrev pub OnDelivery : (Delivery → Broker → Type 0) → Option Delivery × Broker → Type 0
OnDelivery Q (none, b) = Unit
OnDelivery Q (some d, b) = Q d b

-- The rule for `receive`, with the invariant at hand: `P` holds of the broker throughout the loop.
module _ (now timeout : ℤ) (P : Broker → Type 0) (Q : Delivery → Broker → Type 0)
    (bury : (b : Broker) (kept : List Message) (m : Message) (rest : List Message)
      → IsWellFormed (at b (kept ++ m ∷ rest))
      → P (at b (kept ++ m ∷ rest))
      → P (at (to_dlq b m) (kept ++ rest)))
    (send : (b : Broker) (kept : List Message) (m : Message) (rest : List Message)
      → IsWellFormed (at b (kept ++ m ∷ rest))
      → P (at b (kept ++ m ∷ rest))
      → m.visible_at ≤ℤ now
      → (b.strict_group_ordering && blocked (kept ++ m ∷ rest) m) ≡ false
      → pos (suc m.receive_count) ≤ℤ b.max_receive_count
      → OnDelivery Q (deliver b kept m rest now timeout)) where
  pub receive_ind :
      (b : Broker) {d : Delivery} {b' : Broker}
      → IsWellFormed b
      → P b
      → receive b now timeout ≡ ok (some d, b')
      → Q d b'
  unfolding receive
  receive_ind b w h e =
      Ensures-at (OnDelivery Q) (receive b now timeout)
        (if_ind (Ensures (OnDelivery Q)) (leb_ℤ timeout (pos 0)) (λ _. tt)
          λ _.
            scan_ind now timeout (λ x. IsWellFormed x × P x) (OnDelivery Q) (λ _ _. tt)
              (λ d kept m rest (v, g) _ over.
                (buried-IsWellFormed d kept m rest v over, bury d kept m rest v g))
              (λ d kept m rest (v, g) visible free under. send d kept m rest v g visible free under)
              b [] b.messages (w, h))
        e

-- A delivered message stands in the queue after the delivery, held by the receipt.
pub record IsHeld (now timeout : ℤ) (d : Delivery) (b : Broker) : Type 0 where
  pub before : List Message
  pub message : Message
  pub after : List Message
  pub place : b.messages ≡ before ++ message ∷ after
  pub same_id : message.message_id ≡ d.message_id
  pub receipt : message.receipt_token ≡ some d.receipt_token
  pub hidden : message.visible_at ≡ d.lease_until
  pub lease : d.lease_until ≡ now +ℤ timeout
  pub counted : d.receive_count ≡ message.receive_count
  pub within_limit : (0 < d.receive_count) × (pos d.receive_count ≤ℤ b.max_receive_count)

pub receive-IsHeld :
    (b : Broker) (now timeout : ℤ) {d : Delivery} {b' : Broker}
    → IsWellFormed b
    → receive b now timeout ≡ ok (some d, b')
    → IsHeld now timeout d b'
unfolding deliver
receive-IsHeld b now timeout w e =
    receive_ind now timeout (λ _. Unit) (IsHeld now timeout) (λ _ _ _ _ _ _. tt)
      (λ c kept m rest _ _ _ _ under. record {
        before = kept;
        message = record (count_receive m) {
          receipt_token = some (suc c.receipt_sequence);
          visible_at = now +ℤ timeout;
        };
        after = rest;
        place = refl;
        same_id = refl;
        receipt = refl;
        hidden = refl;
        lease = refl;
        counted = refl;
        within_limit = (omega arith, under);
      })
      b w tt e

-- The message that holds a receipt is the first to hold it.
take_held :
    (token : ℕ) (kept : List Message) (m : Message) (rest left : List Message)
    → Pairwise OtherReceipt (kept ++ m ∷ rest)
    → m.receipt_token ≡ some token
    → TakesOut token (kept ++ m ∷ rest) left
    → left ≡ kept ++ rest
take_held token [] m rest left w h t = first t
  where
    first : {l : List Message} → TakesOut token (m ∷ rest) l → l ≡ rest
    first (here e) = refl
    first (there n t) = absurd (n h)
take_held token (x ∷ kept) m rest left w h t = step (λ l s. take_held token kept m rest l w.1 h s) t
  where
    step :
        ((l : List Message) → TakesOut token (kept ++ m ∷ rest) l → l ≡ kept ++ rest)
        → {l : List Message} → TakesOut token (x ∷ (kept ++ m ∷ rest)) l
        → l ≡ x ∷ (kept ++ rest)
    step ih (here e) = absurd (All-middle (OtherReceipt x) kept m rest w.0 token e h)
    step ih (there {left = l} n s) = ap (λ r. x ∷ r) (ih l s)

NoHolder-absurd :
    (token : ℕ) (kept : List Message) (m : Message) (rest : List Message)
    → NoHolder token (kept ++ m ∷ rest)
    → m.receipt_token ≡ some token
    → ⊥
NoHolder-absurd token kept m rest n h = All-middle _ kept m rest n h

-- An acknowledgement with the receipt of a delivery takes out the delivered message, and nothing
-- else.
pub receive-ack :
    (b : Broker) (now timeout : ℤ) {d : Delivery} {b' : Broker}
    → IsWellFormed b
    → receive b now timeout ≡ ok (some d, b')
    → (kept : List Message) × (m : Message) × (rest : List Message) × (b'.messages
        ≡ kept ++ m ∷ rest)
      × (m.message_id ≡ d.message_id)
      × (ack b' d.receipt_token ≡ (true, record b' { messages = kept ++ rest }))
receive-ack b now timeout {d} {b'} w e =
    let held = receive-IsHeld b now timeout w e in
    let after =
      Ensures-at (λ r. IsWellFormed r.1) (receive b now timeout)
        (receive-IsWellFormed b now timeout w) e in
    (
      held.before,
      held.message,
      held.after,
      held.place,
      held.same_id,
      elim (ack-Acked b' d.receipt_token) [
        | removed left t r ↦
            r
            ∙ ap (λ l. (true, record b' { messages = l }))
                (take_held d.receipt_token held.before held.message held.after left
                  (subst (Pairwise OtherReceipt) held.place after.receipts) held.receipt
                  (subst (λ l. TakesOut d.receipt_token l left) held.place t))
        | refused n r ↦ absurd (
            NoHolder-absurd d.receipt_token held.before held.message held.after
              (subst (NoHolder d.receipt_token) held.place n) held.receipt)
      ],
    )
