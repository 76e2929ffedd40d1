-- ===== src/Queue/Order.antt =====
-- Strict group order in queue_delivery_demo.py, and that a receive loses no message.
use staff_sre_platform_engin.Shared.{
  if◌then◌else◌, ℕ, suc, ◌+◌, ◌≤◌, ℤ, pos, String, true, false, ◌&&◌, List, [], ◌∷◌, ◌++◌, none,
  some, ◌≡◌, refl, ◌∙◌, ◌+ℤ◌, arith, All, All-replace, Ensures, if_ind, leb_ℤ, ok, eq_iff, str_eq,
  ltb, or-false,
}
use staff_sre_platform_engin.Queue.Broker.{
  Broker, Message, Delivery, to_dlq, count_receive, deliver, receive, blocked,
}
use staff_sre_platform_engin.Queue.Rule.{at, scan_ind}
use staff_sre_platform_engin.Queue.Invariant.{IsWellFormed}
use staff_sre_platform_engin.Queue.Delivery.{receive_ind}

-- No message of the group waits with a smaller sequence number.
abbrev pub FirstOfGroup : String → ℕ → Message → Type 0
FirstOfGroup group sequence x = x.group_key ≡ group → sequence ≤ x.sequence

not_blocked :
    (l : List Message) (m : Message)
    → blocked l m ≡ false
    → All (FirstOfGroup m.group_key m.sequence) l
unfolding blocked
not_blocked [] m h = tt
not_blocked (x ∷ l) m h =
    let (this, later) =
      or-false (str_eq x.group_key m.group_key && ltb x.sequence m.sequence) (blocked l m) h in
    ((λ e. ground (arith, eq_iff x.group_key m.group_key)), not_blocked l m later)

-- Under strict group ordering a delivered message is the earliest of its group in the queue.
pub receive-FirstOfGroup :
    (b : Broker) (now timeout : ℤ) {d : Delivery} {b' : Broker}
    → IsWellFormed b
    → b.strict_group_ordering ≡ true
    → receive b now timeout ≡ ok (some d, b')
    → All (FirstOfGroup d.group_key d.sequence) b'.messages
unfolding deliver
receive-FirstOfGroup b now timeout w strict e =
    receive_ind now timeout (λ c. c.strict_group_ordering ≡ true)
      (λ d b'. All (FirstOfGroup d.group_key d.sequence) b'.messages) (λ _ _ _ _ _ g. g)
      (λ c kept m rest _ g _ free _.
        All-replace _ kept m _ rest (λ f. f) (not_blocked (kept ++ m ∷ rest) m (ground arith)))
      b w strict e

-- How many of the messages have the id.
pub occurrences : String → List Message → ℕ
occurrences key [] = 0
occurrences key (m ∷ l) = let n = occurrences key l in if str_eq m.message_id key then suc n else n

occurrences-append :
    (key : String) (xs ys : List Message)
    → occurrences key (xs ++ ys) ≡ occurrences key xs + occurrences key ys
unfolding occurrences
occurrences-append key [] ys = omega arith
occurrences-append key (x ∷ xs) ys = ground (arith, occurrences-append key xs ys)

-- The messages with an id, in the queue and in the dead-letter queue.
abbrev pub held : String → Broker → ℕ
held key b = occurrences key b.messages + occurrences key b.dlq

module _ (key : String) (b : Broker) (kept : List Message) (m : Message) (rest : List Message) where
  held-to_dlq : held key (at (to_dlq b m) (kept ++ rest)) ≡ held key (at b (kept ++ m ∷ rest))
  unfolding occurrences
  held-to_dlq = ground (
    arith,
    occurrences-append key kept rest,
    occurrences-append key kept (m ∷ rest),
    occurrences-append key b.dlq (record (count_receive m) { receipt_token = none } ∷ []),
  )

  held-deliver :
      (now timeout : ℤ)
      → held key (deliver b kept m rest now timeout).1 ≡ held key (at b (kept ++ m ∷ rest))
  unfolding occurrences deliver
  held-deliver now timeout =
      let sent : Message = record (count_receive m) {
        receipt_token = some (suc b.receipt_sequence);
        visible_at = now +ℤ timeout;
      } in
      ground
        (arith, occurrences-append key kept (sent ∷ rest), occurrences-append key kept (m ∷ rest))

-- A receive loses no message and makes none: of each id, the queue and the dead-letter queue
-- together hold as many messages as before, whether one is delivered or not.
pub held-receive :
    (b : Broker) (now timeout : ℤ) (key : String)
    → Ensures (λ r. held key r.1 ≡ held key b) (receive b now timeout)
unfolding receive
held-receive b now timeout key =
    if_ind (Ensures (λ r. held key r.1 ≡ held key b)) (leb_ℤ timeout (pos 0)) (λ _. tt)
      λ _.
        scan_ind now timeout (λ c. held key c ≡ held key b) (λ r. held key r.1 ≡ held key b)
          (λ _ h. h) (λ c kept m rest h _ _. held-to_dlq key c kept m rest ∙ h)
          (λ c kept m rest h _ _ _. held-deliver key c kept m rest now timeout ∙ h) b [] b.messages
          refl
