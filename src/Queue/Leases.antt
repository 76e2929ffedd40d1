-- ===== src/Queue/Leases.antt =====
-- Redelivery in queue_delivery_demo.py: hidden messages, stale receipts, group order, and no loss.
use staff_sre_platform_engin.Shared.{
  ℕ, ◌≤◌, ℤ, String, false, List, [], ◌∷◌, ◌++◌, some, ◌≡◌, ◌≢◌, refl, sym, ◌∙◌, subst, ◌<ℤ◌, arith,
  All, Pairwise, All-map, All-append, All-beside, All-middle, All-remove, Pairwise-middle,
  Ensures-at, ok, some-eq,
}
use staff_sre_platform_engin.Queue.Broker.{Broker, Message, Delivery, deliver, receive, ack}
use staff_sre_platform_engin.Queue.Invariant.{
  IsWellFormed, OtherId, OtherReceipt, Issued, receive-IsWellFormed,
}
use staff_sre_platform_engin.Queue.Receipts.{
  TakesOut, here, there, NoHolder, removed, refused, ack-Acked,
}
use staff_sre_platform_engin.Queue.Delivery.{receive_ind, receive-IsHeld}

abbrev HiddenUntil : ℤ → String → Message → Type 0
HiddenUntil now key m = m.message_id ≡ key → now <ℤ m.visible_at

-- A message that is hidden at the time of a receive is not delivered by it.
receive-hidden :
    (b : Broker) (now timeout : ℤ) (key : String) {d : Delivery} {b' : Broker}
    → IsWellFormed b
    → All (HiddenUntil now key) b.messages
    → receive b now timeout ≡ ok (some d, b')
    → d.message_id ≢ key
unfolding deliver
receive-hidden b now timeout key w h e =
    receive_ind now timeout (λ c. All (HiddenUntil now key) c.messages) (λ d _. d.message_id ≢ key)
      (λ c kept m rest _ g. All-remove _ kept m rest g)
      (λ c kept m rest _ g visible _ _ same. omega (arith, All-middle _ kept m rest g same)) b w h e

others_hidden :
    (now : ℤ) (key : String) (kept : List Message) (m : Message) (rest : List Message)
    → Pairwise OtherId (kept ++ m ∷ rest)
    → m.message_id ≡ key
    → now <ℤ m.visible_at
    → All (HiddenUntil now key) (kept ++ m ∷ rest)
others_hidden now key kept m rest ids same later =
    let (before, after) = Pairwise-middle OtherId kept m rest ids in
    All-append _ kept (m ∷ rest)
      (All-map (λ x. OtherId x m) (HiddenUntil now key) (λ x n e. absurd (n (e ∙ sym same))) kept
        before)
      (
        (λ _. later),
        All-map (OtherId m) (HiddenUntil now key) (λ x n e. absurd (n (same ∙ sym e))) rest after,
      )

-- While its lease lasts, a delivered message is not delivered again: a receive that follows at a
-- time before the end of the lease returns another message, or none.
pub receive-receive_before_lease :
    (b : Broker) (now timeout : ℤ) {d : Delivery} {b' : Broker} (now' timeout' : ℤ) {d' : Delivery}
    {b'' : Broker}
    → IsWellFormed b
    → receive b now timeout ≡ ok (some d, b')
    → now' <ℤ d.lease_until
    → receive b' now' timeout' ≡ ok (some d', b'')
    → d'.message_id ≢ d.message_id
receive-receive_before_lease b now timeout {d} {b'} now' timeout' w e early e' =
    let held = receive-IsHeld b now timeout w e in
    let v =
      Ensures-at (λ r. IsWellFormed r.1) (receive b now timeout)
        (receive-IsWellFormed b now timeout w) e in
    let hidden =
      others_hidden now' d.message_id held.before held.message held.after
        (subst (Pairwise OtherId) held.place v.ids) held.same_id (rw held.hidden early) in
    receive-hidden b' now' timeout' d.message_id v
      (subst (All (HiddenUntil now' d.message_id)) (sym held.place) hidden) e'

TakesOut-holder : {token : ℕ} {l left : List Message} → TakesOut token l left → NoHolder token l → ⊥
TakesOut-holder (here e) n = n.0 e
TakesOut-holder (there _ t) n = TakesOut-holder t n.1

-- The token is held by nobody but the message `key`, and has been issued.
record OnlyHolder (token : ℕ) (key : String) (b : Broker) : Type 0 where
  old : token ≤ b.receipt_sequence
  holder : All (λ x. x.receipt_token ≡ some token → x.message_id ≡ key) b.messages

redelivered-NoHolder :
    (b : Broker) (now timeout : ℤ) (token : ℕ) (key : String) {d : Delivery} {b' : Broker}
    → IsWellFormed b
    → OnlyHolder token key b
    → receive b now timeout ≡ ok (some d, b')
    → d.message_id ≡ key
    → NoHolder token b'.messages
unfolding deliver
redelivered-NoHolder b now timeout token key w h e =
    receive_ind now timeout (OnlyHolder token key)
      (λ d b'. d.message_id ≡ key → NoHolder token b'.messages)
      (λ c kept m rest _ g. record { old = g.old; holder = All-remove _ kept m rest g.holder })
      (λ c kept m rest v g _ _ _ same.
        let (left, right) = All-beside _ kept m rest g.holder in
        let (before, after) = Pairwise-middle OtherId kept m rest v.ids in
        All-append _ kept _ (others kept left before (λ x n e. n (e ∙ sym same))) (
          (λ f. omega (arith, some-eq f, g.old)),
          others rest right after (λ x n e. n (same ∙ sym e)),
        ))
      b w h e
  where
    others :
        {R : Message → Type 0} (l : List Message)
        → All (λ x. x.receipt_token ≡ some token → x.message_id ≡ key) l
        → All R l
        → ((x : Message) → R x → x.message_id ≡ key → ⊥)
        → NoHolder token l
    others [] g r f = tt
    others (x ∷ l) g r f = ((λ t. f x r.0 (g.0 t)), others l g.1 r.1 f)

-- A receipt goes stale when its message is delivered again: an acknowledgement with the receipt of
-- an earlier delivery is then refused and changes nothing.
pub redelivery-ack_stale :
    (b : Broker) (now timeout : ℤ) (token : ℕ) (kept : List Message) (m : Message)
    (rest : List Message) {d : Delivery} {b' : Broker}
    → IsWellFormed b
    → b.messages ≡ kept ++ m ∷ rest
    → m.receipt_token ≡ some token
    → receive b now timeout ≡ ok (some d, b')
    → d.message_id ≡ m.message_id
    → ack b' token ≡ (false, b')
redelivery-ack_stale b now timeout token kept m rest {d} {b'} w place holds e same =
    let receipts = subst (Pairwise OtherReceipt) place w.receipts in
    let (before, after) = Pairwise-middle OtherReceipt kept m rest receipts in
    let holder =
      All-append (λ x. x.receipt_token ≡ some token → x.message_id ≡ m.message_id) kept (m ∷ rest)
        (All-map (λ x. OtherReceipt x m) _ (λ x n f. absurd (n token f holds)) kept before)
        ((λ _. refl), All-map (OtherReceipt m) _ (λ x n f. absurd (n token holds f)) rest after) in
    let issued =
      All-middle (Issued b.receipt_sequence) kept m rest
        (subst (All (Issued b.receipt_sequence)) place w.issued) in
    let stale =
      redelivered-NoHolder b now timeout token m.message_id w
        (record {
          old = (issued token holds).1;
          holder =
              subst (All (λ x. x.receipt_token ≡ some token → x.message_id ≡ m.message_id))
                (sym place) holder;
        })
        e same in
    elim (ack-Acked b' token) [
      | removed left t r ↦ absurd (TakesOut-holder t stale)
      | refused n r ↦ r
    ]
