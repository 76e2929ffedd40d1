-- ===== src/Queue/Receipts.antt =====
-- The receipts of queue_delivery_demo.py: what `ack` and `nack` change, as relations between the
-- queues before and after.
use staff_sre_platform_engin.Shared.{
  some-eq, ℕ, ℤ, pos, Bool, true, false, List, [], ◌∷◌, Option, none, some, ◌≡◌, ◌≢◌, ◌↔◌, refl, ap,
  All, Pairwise, ==_iff, Ensures, if_ind, ltb_ℤ, ◌+ℤ◌, All-map,
}
use staff_sre_platform_engin.Queue.Broker.{
  Broker, Message, has_token, take_out, settle, ack, release, nack,
}
use staff_sre_platform_engin.Queue.Invariant.{IsWellFormed, OtherId, OtherReceipt, Earlier}

pub has_token_iff : (token : ℕ) (o : Option ℕ) → (has_token token o ≡ true) ↔ (o ≡ some token)
has_token_iff token none = (λ h. absurd (cc h), λ h. absurd (cc h))
has_token_iff token (some t) =
    (λ h. ap some ((==_iff t token).0 h), λ h. (==_iff t token).1 (some-eq h))

-- `after` is `before` without the first message that holds the token.
pub data TakesOut (token : ℕ) : (before after : List Message) → Type 0 where
  here : {m : Message} {l : List Message} → m.receipt_token ≡ some token → TakesOut token (m ∷ l) l
  there :
      {m : Message} {l left : List Message}
      → m.receipt_token ≢ some token
      → TakesOut token l left
      → TakesOut token (m ∷ l) (m ∷ left)

-- `after` is `before` with that message released until the time `at`.
pub data Releases (token : ℕ) (at : ℤ) : (before after : List Message) → Type 0 where
  here :
      {m : Message} {l : List Message}
      → m.receipt_token ≡ some token
      → Releases token at (m ∷ l) (record m { receipt_token = none; visible_at = at } ∷ l)
  there :
      {m : Message} {l left : List Message}
      → m.receipt_token ≢ some token
      → Releases token at l left
      → Releases token at (m ∷ l) (m ∷ left)

-- No message holds the token.
abbrev pub NoHolder : ℕ → List Message → Type 0
NoHolder token l = All (λ m. m.receipt_token ≢ some token) l

-- What a search for a token found: the queue after it, or that nobody holds it.
abbrev Found : (List Message → Type 0) → Type 0 → Option (List Message) → Type 0
Found R N none = N
Found R N (some left) = R left

not_holder :
    (token : ℕ) (m : Message)
    → has_token token m.receipt_token ≡ false
    → m.receipt_token ≢ some token
not_holder token m h e = cc ((has_token_iff token m.receipt_token).1 e)

take_out-Found :
    (token : ℕ) (l : List Message) → Found (TakesOut token l) (NoHolder token l) (take_out token l)
unfolding take_out
take_out-Found token [] = tt
take_out-Found token (m ∷ l) =
    if_ind (Found (TakesOut token (m ∷ l)) (NoHolder token (m ∷ l)))
      (has_token token m.receipt_token) (λ h. here ((has_token_iff token _).0 h))
      (λ h. later (take_out token l) (not_holder token m h) (take_out-Found token l))
  where
    later :
        (o : Option (List Message))
        → m.receipt_token ≢ some token
        → Found (TakesOut token l) (NoHolder token l) o
        → Found
            (TakesOut token (m ∷ l))
            (NoHolder token (m ∷ l))
            (elim o [ none ↦ none | some left ↦ some (m ∷ left) ])
    later none n f = (n, f)
    later (some left) n f = there n f

release-Found :
    (token : ℕ) (at : ℤ) (l : List Message)
    → Found (Releases token at l) (NoHolder token l) (release token at l)
unfolding release
release-Found token at [] = tt
release-Found token at (m ∷ l) =
    if_ind (Found (Releases token at (m ∷ l)) (NoHolder token (m ∷ l)))
      (has_token token m.receipt_token) (λ h. here ((has_token_iff token _).0 h))
      (λ h. later (release token at l) (not_holder token m h) (release-Found token at l))
  where
    later :
        (o : Option (List Message))
        → m.receipt_token ≢ some token
        → Found (Releases token at l) (NoHolder token l) o
        → Found
            (Releases token at (m ∷ l))
            (NoHolder token (m ∷ l))
            (elim o [ none ↦ none | some left ↦ some (m ∷ left) ])
    later none n f = (n, f)
    later (some left) n f = there n f

TakesOut-All :
    (P : Message → Type 0) {token : ℕ} {l left : List Message}
    → TakesOut token l left
    → All P l
    → All P left
TakesOut-All P (here e) h = h.1
TakesOut-All P (there n t) h = (h.0, TakesOut-All P t h.1)

TakesOut-Pairwise :
    (R : Message → Message → Type 0) {token : ℕ} {l left : List Message}
    → TakesOut token l left
    → Pairwise R l
    → Pairwise R left
TakesOut-Pairwise R (here e) h = h.1
TakesOut-Pairwise R (there n t) h = (TakesOut-All (R _) t h.0, TakesOut-Pairwise R t h.1)

abbrev released : Message → ℤ → Message
released m at = record m { receipt_token = none; visible_at = at }

Releases-All :
    (P : Message → Type 0) (f : (m : Message) (at : ℤ) → P m → P (released m at)) {token : ℕ}
    {at : ℤ} {l left : List Message}
    → Releases token at l left
    → All P l
    → All P left
Releases-All P f (here {m} e) h = (f m _ h.0, h.1)
Releases-All P f (there n t) h = (h.0, Releases-All P f t h.1)

Releases-Pairwise :
    (R : Message → Message → Type 0) (f : (x m : Message) (at : ℤ) → R x m → R x (released m at))
    (g : (m y : Message) (at : ℤ) → R m y → R (released m at) y) {token : ℕ} {at : ℤ}
    {l left : List Message}
    → Releases token at l left
    → Pairwise R l
    → Pairwise R left
Releases-Pairwise R f g (here {m} {l} e) h =
    (All-map (R m) (R (released m _)) (λ y. g m y _) l h.0, h.1)
Releases-Pairwise R f g (there {m} n t) h =
    (Releases-All (R m) (λ y at. f m y at) t h.0, Releases-Pairwise R f g t h.1)

TakesOut-IsWellFormed :
    {b : Broker} {token : ℕ} {left : List Message}
    → TakesOut token b.messages left
    → IsWellFormed b
    → IsWellFormed (record b { messages = left })
TakesOut-IsWellFormed t w = record {
  limit = w.limit;
  ids = TakesOut-Pairwise OtherId t w.ids;
  ordered = TakesOut-Pairwise Earlier t w.ordered;
  numbered = TakesOut-All _ t w.numbered;
  receipts = TakesOut-Pairwise OtherReceipt t w.receipts;
  issued = TakesOut-All _ t w.issued;
  counted = TakesOut-All _ t w.counted;
  dead = w.dead;
}

Releases-IsWellFormed :
    {b : Broker} {token : ℕ} {at : ℤ} {left : List Message}
    → Releases token at b.messages left
    → IsWellFormed b
    → IsWellFormed (record b { messages = left })
Releases-IsWellFormed t w = record {
  limit = w.limit;
  ids = Releases-Pairwise OtherId (λ _ _ _ h. h) (λ _ _ _ h. h) t w.ids;
  ordered = Releases-Pairwise Earlier (λ _ _ _ h. h) (λ _ _ _ h. h) t w.ordered;
  numbered = Releases-All _ (λ _ _ h. h) t w.numbered;
  receipts =
      Releases-Pairwise OtherReceipt (λ _ _ _ _ _ _ e. absurd (cc e))
        (λ _ _ _ _ _ e _. absurd (cc e)) t w.receipts;
  issued = Releases-All _ (λ _ _ _ _ e. absurd (cc e)) t w.issued;
  counted = Releases-All _ (λ _ _ h. h) t w.counted;
  dead = w.dead;
}

-- The outcome of `ack`: it takes out the message that holds the receipt and reports true, or finds
-- none, changes nothing and reports false.
pub data Acked (b : Broker) (token : ℕ) (r : Bool × Broker) : Type 0 where
  removed :
      (left : List Message)
      → TakesOut token b.messages left
      → r ≡ (true, record b { messages = left })
      → Acked b token r
  refused : NoHolder token b.messages → r ≡ (false, b) → Acked b token r

pub ack-Acked : (b : Broker) (token : ℕ) → Acked b token (ack b token)
unfolding ack
ack-Acked b token = outcome (take_out token b.messages) (take_out-Found token b.messages)
  where
    outcome :
        (o : Option (List Message))
        → Found (TakesOut token b.messages) (NoHolder token b.messages) o
        → Acked b token (settle b o)
    outcome none f = refused f refl
    outcome (some left) f = removed left f refl

pub ack-IsWellFormed : (b : Broker) (token : ℕ) → IsWellFormed b → IsWellFormed (ack b token).1
ack-IsWellFormed b token w = elim (ack-Acked b token) [
  | removed left t e ↦ rw e (TakesOut-IsWellFormed t w)
  | refused n e ↦ rw e w
]

pub nack-IsWellFormed :
    (b : Broker) (token : ℕ) (now delay : ℤ)
    → IsWellFormed b
    → Ensures (λ r. IsWellFormed r.1) (nack b token now delay)
unfolding nack
nack-IsWellFormed b token now delay w =
    if_ind (Ensures (λ r. IsWellFormed r.1)) (ltb_ℤ delay (pos 0)) (λ _. tt)
      λ _.
        outcome (release token (now +ℤ delay) b.messages)
          (release-Found token (now +ℤ delay) b.messages)
  where
    outcome :
        (o : Option (List Message))
        → Found (Releases token (now +ℤ delay) b.messages) (NoHolder token b.messages) o
        → IsWellFormed (settle b o).1
    outcome none f = w
    outcome (some left) f = Releases-IsWellFormed f w
