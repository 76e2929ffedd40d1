-- ===== src/Queue/Invariant.antt =====
-- What holds of every broker of queue_delivery_demo.py.
use staff_sre_platform_engin.Shared.{
  some-eq, Pairwise-put, All-put, All-beside, ℕ, suc, ℤ, pos, String, Bool, false, List, [], ◌∷◌,
  ◌++◌, none, some, ◌≡◌, ◌≢◌, refl, sym, ◌≤ℤ◌, ◌<ℤ◌, ◌<◌, ◌≤◌, arith, All, Pairwise, All-append,
  All-remove, All-replace, All-map, Pairwise-remove, Pairwise-replace, Pairwise-snoc, any, or-false,
  eq_iff, Ensures, leb_ℤ, if_ind, leb→gt, ◌+ℤ◌,
}
use staff_sre_platform_engin.Queue.Broker.{
  Broker, Message, new_broker, has_id, new_message, enqueue, to_dlq, count_receive, deliver,
  receive,
}
use staff_sre_platform_engin.Queue.Rule.{at, scan_ind}

abbrev pub OtherId : Message → Message → Type 0
OtherId x y = x.message_id ≢ y.message_id

abbrev pub Earlier : Message → Message → Type 0
Earlier x y = x.sequence < y.sequence

abbrev pub OtherReceipt : Message → Message → Type 0
OtherReceipt x y = (t : ℕ) → x.receipt_token ≡ some t → y.receipt_token ≡ some t → ⊥

-- A receipt that has been issued: numbered from 1 up to `n`.
abbrev pub Issued : ℕ → Message → Type 0
Issued n m = (t : ℕ) → m.receipt_token ≡ some t → (0 < t) × (t ≤ n)

abbrev pub Dead : ℤ → Message → Type 0
Dead limit m = (limit <ℤ pos m.receive_count) × (m.receipt_token ≡ none)

pub record IsWellFormed (b : Broker) : Type 0 where
  pub limit : pos 0 <ℤ b.max_receive_count
  pub ids : Pairwise OtherId b.messages
  pub ordered : Pairwise Earlier b.messages
  pub numbered : All (λ m. m.sequence ≤ b.last_sequence) b.messages
  pub receipts : Pairwise OtherReceipt b.messages
  pub issued : All (Issued b.receipt_sequence) b.messages
  pub counted : All (λ m. pos m.receive_count ≤ℤ b.max_receive_count) b.messages
  pub dead : All (Dead b.max_receive_count) b.dlq

pub new_broker-IsWellFormed :
    (limit : ℤ) (strict : Bool) → Ensures IsWellFormed (new_broker limit strict)
unfolding new_broker
new_broker-IsWellFormed limit strict =
    if_ind (Ensures IsWellFormed) (leb_ℤ limit (pos 0)) (λ _. tt)
      λ h. record {
        limit = leb→gt _ _ h;
        ids = tt;
        ordered = tt;
        numbered = tt;
        receipts = tt;
        issued = tt;
        counted = tt;
        dead = tt;
      }

absent_id :
    (key : String) (l : List Message) → any (has_id key) l ≡ false → All (λ x. x.message_id ≢ key) l
absent_id key [] h = tt
absent_id key (x ∷ l) h =
    let (here, later) = or-false (has_id key x) (any (has_id key) l) h in
    ((λ e. ground (arith, eq_iff x.message_id key)), absent_id key l later)

enqueued-IsWellFormed :
    (b : Broker) (message_id payload group_key : String)
    → IsWellFormed b
    → any (has_id message_id) b.messages ≡ false
    → IsWellFormed (record b {
      last_sequence = suc b.last_sequence;
      messages = b.messages ++ new_message message_id payload group_key (suc b.last_sequence) ∷ [];
    })
enqueued-IsWellFormed b message_id payload group_key w h =
    let m = new_message message_id payload group_key (suc b.last_sequence) in
    record {
      limit = w.limit;
      ids = Pairwise-snoc OtherId _ m w.ids (absent_id message_id b.messages h);
      ordered =
          Pairwise-snoc Earlier _ m w.ordered
            (All-map _ (λ x. Earlier x m) (λ x le. omega (arith, le)) b.messages w.numbered);
      numbered =
          All-append _ b.messages _
            (All-map _ (λ x. x.sequence ≤ suc b.last_sequence) (λ x le. omega (arith, le))
              b.messages w.numbered)
            (omega arith);
      receipts = Pairwise-snoc OtherReceipt _ m w.receipts (
          All-map (Issued b.receipt_sequence) (λ x. OtherReceipt x m) (λ x _ t _ e. cc) b.messages
            w.issued);
      issued =
          All-append (Issued b.receipt_sequence) b.messages _ w.issued ((λ t e. absurd (cc e)), tt);
      counted = All-append _ b.messages _ w.counted (omega (arith, w.limit));
      dead = w.dead;
    }

-- Each operation keeps the invariant.
pub enqueue-IsWellFormed :
    (b : Broker) (message_id payload group_key : String)
    → IsWellFormed b
    → Ensures IsWellFormed (enqueue b message_id payload group_key)
unfolding enqueue
enqueue-IsWellFormed b message_id payload group_key w =
    if_ind (Ensures IsWellFormed) (any (has_id message_id) b.messages) (λ _. tt)
      λ h. enqueued-IsWellFormed b message_id payload group_key w h

module _ (b : Broker) (kept : List Message) (m : Message) (rest : List Message)
    (w : IsWellFormed (at b (kept ++ m ∷ rest))) where
  pub buried-IsWellFormed :
      b.max_receive_count <ℤ pos (suc m.receive_count)
      → IsWellFormed (at (to_dlq b m) (kept ++ rest))
  buried-IsWellFormed over = record {
    limit = w.limit;
    ids = Pairwise-remove OtherId kept m rest w.ids;
    ordered = Pairwise-remove Earlier kept m rest w.ordered;
    numbered = All-remove _ kept m rest w.numbered;
    receipts = Pairwise-remove OtherReceipt kept m rest w.receipts;
    issued = All-remove _ kept m rest w.issued;
    counted = All-remove _ kept m rest w.counted;
    dead = All-append (Dead b.max_receive_count) b.dlq _ w.dead ((over, refl), tt);
  }

  -- A new receipt is none that a message of the queue holds.
  new_receipt :
      (x : Message)
      → Issued b.receipt_sequence x
      → (t : ℕ) → x.receipt_token ≡ some t
      → t ≢ suc b.receipt_sequence
  new_receipt x h t e f = omega (arith, h t e)

  still-Issued : (x : Message) → Issued b.receipt_sequence x → Issued (suc b.receipt_sequence) x
  still-Issued x h t e = (omega (arith, h t e), omega (arith, h t e))

  pub sent-IsWellFormed :
      (now timeout : ℤ)
      → pos (suc m.receive_count) ≤ℤ b.max_receive_count
      → IsWellFormed (deliver b kept m rest now timeout).1
  unfolding deliver
  sent-IsWellFormed now timeout under =
      let token = suc b.receipt_sequence in
      let held : Message = record (count_receive m) {
        receipt_token = some token;
        visible_at = now +ℤ timeout;
      } in
      let (before, after) = All-beside _ kept m rest w.issued in
      record {
        limit = w.limit;
        ids = Pairwise-replace OtherId kept m held rest (λ _ h. h) (λ _ h. h) w.ids;
        ordered = Pairwise-replace Earlier kept m held rest (λ _ h. h) (λ _ h. h) w.ordered;
        numbered = All-replace _ kept m held rest (λ h. h) w.numbered;
        receipts =
            Pairwise-put OtherReceipt kept m held rest w.receipts
              (All-map (Issued b.receipt_sequence) (λ x. OtherReceipt x held)
                (λ x h t e f. new_receipt x h t e (sym (some-eq f))) kept before)
              (All-map (Issued b.receipt_sequence) (OtherReceipt held)
                (λ x h t f e. new_receipt x h t e (sym (some-eq f))) rest after);
        issued =
            All-put (Issued token) kept m held rest
              (All-map (Issued b.receipt_sequence) (Issued token) still-Issued (kept ++ m ∷ rest)
                w.issued)
              (λ t e. (omega (arith, some-eq e), omega (arith, some-eq e)));
        counted = All-put _ kept m held rest w.counted under;
        dead = w.dead;
      }

-- A receive keeps the invariant, whether it delivers or not.
pub receive-IsWellFormed :
    (b : Broker) (now timeout : ℤ)
    → IsWellFormed b
    → Ensures (λ r. IsWellFormed r.1) (receive b now timeout)
unfolding receive
receive-IsWellFormed b now timeout w =
    if_ind (Ensures (λ r. IsWellFormed r.1)) (leb_ℤ timeout (pos 0)) (λ _. tt)
      λ _.
        scan_ind now timeout IsWellFormed (λ r. IsWellFormed r.1) (λ _ h. h)
          (λ d kept m rest h _ over. buried-IsWellFormed d kept m rest h over)
          (λ d kept m rest h _ _ under. sent-IsWellFormed d kept m rest h now timeout under) b []
          b.messages w
