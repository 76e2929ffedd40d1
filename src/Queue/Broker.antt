-- ===== src/Queue/Broker.antt =====
-- queue_delivery_demo.py: messages, deliveries and the `Broker`. The text f"receipt-{n}" is the
-- number n; receipts count from 1, so that 0 stands for a token that no broker issued. Times are
-- integers of any sign, as in the source.
use staff_sre_platform_engin.Shared.{
  ℕ, suc, ℤ, pos, String, Bool, true, false, ◌&&◌, ◌==◌, List, [], ◌∷◌, ◌++◌, Option, none, some,
  ltb, ltb_ℤ, leb_ℤ, ◌+ℤ◌, any, str_eq, if◌then◌else◌, Result, ok, err,
}

pub record Message : Type 0 where
  pub message_id : String
  pub payload : String
  pub group_key : String
  pub sequence : ℕ
  pub receive_count : ℕ
  pub visible_at : ℤ
  pub receipt_token : Option ℕ

pub record Delivery : Type 0 where
  pub message_id : String
  pub payload : String
  pub group_key : String
  pub sequence : ℕ
  pub receive_count : ℕ
  pub receipt_token : ℕ
  pub lease_until : ℤ

pub record Broker : Type 0 where
  pub max_receive_count : ℤ
  pub strict_group_ordering : Bool
  pub messages : List Message
  pub dlq : List Message
  pub last_sequence : ℕ  -- `_sequence`
  pub receipt_sequence : ℕ  -- `_receipt_sequence`

-- The `ValueError`s.
pub data BrokerError : Type 0 where
  max_receive_count_not_positive visibility_timeout_not_positive retry_delay_negative : BrokerError
  duplicate_message_id : String → BrokerError

unfoldable pub new_broker : ℤ → Bool → Result BrokerError Broker
new_broker limit strict =
    if leb_ℤ limit (pos 0)
    then err max_receive_count_not_positive
    else ok (record {
      max_receive_count = limit;
      strict_group_ordering = strict;
      messages = [];
      dlq = [];
      last_sequence = 0;
      receipt_sequence = 0;
    })

abbrev pub has_id : String → Message → Bool
has_id message_id m = str_eq m.message_id message_id

abbrev pub new_message : String → String → String → ℕ → Message
new_message message_id payload group_key sequence = record {
  message_id = message_id;
  payload = payload;
  group_key = group_key;
  sequence = sequence;
  receive_count = 0;
  visible_at = pos 0;
  receipt_token = none;
}

unfoldable pub enqueue : Broker → String → String → String → Result BrokerError Broker
enqueue b message_id payload group_key =
    if any (has_id message_id) b.messages
    then err (duplicate_message_id message_id)
    else ok (record b {
      last_sequence = suc b.last_sequence;
      messages = b.messages ++ new_message message_id payload group_key (suc b.last_sequence) ∷ [];
    })

-- `_blocked_by_earlier_group_message`
unfoldable pub blocked : List Message → Message → Bool
blocked messages candidate =
    any (λ o. str_eq o.group_key candidate.group_key && ltb o.sequence candidate.sequence) messages

abbrev pub delivery_of : Message → ℕ → ℤ → Delivery
delivery_of m token until = record {
  message_id = m.message_id;
  payload = m.payload;
  group_key = m.group_key;
  sequence = m.sequence;
  receive_count = m.receive_count;
  receipt_token = token;
  lease_until = until;
}

-- `message.receive_count += 1`
abbrev pub count_receive : Message → Message
count_receive m = record m { receive_count = suc m.receive_count }

-- The message as it enters the dead-letter queue.
abbrev pub to_dlq : Broker → Message → Broker
to_dlq b m = record b { dlq = b.dlq ++ record (count_receive m) { receipt_token = none } ∷ [] }

-- The end of the loop's body: a new receipt, and the message hidden until its lease ends.
unfoldable pub deliver :
    Broker → List Message → Message → List Message → (now timeout : ℤ) → Option Delivery × Broker
deliver b kept m rest now timeout =
    let token = suc b.receipt_sequence in
    let until = now +ℤ timeout in
    let held = record (count_receive m) { receipt_token = some token; visible_at = until } in
    (
      some (delivery_of held token until),
      record b { receipt_sequence = token; messages = kept ++ held ∷ rest },
    )

-- The loop over `tuple(self.messages)`. The messages of the broker are `kept ++ rest` throughout:
-- those that the loop has passed and left in place, and those still to come. `remove` takes out the
-- message that the loop is at: no two messages of a broker have the same sequence number.
unfoldable pub scan :
    Broker → (kept rest : List Message) → (now timeout : ℤ) → Option Delivery × Broker
scan b kept [] now timeout = (none, record b { messages = kept })
scan b kept (m ∷ rest) now timeout =
    let pass = scan b (kept ++ m ∷ []) rest now timeout in
    let bury = scan (to_dlq b m) kept rest now timeout in
    if ltb_ℤ now m.visible_at
    then pass
    else if b.strict_group_ordering && blocked (kept ++ m ∷ rest) m
    then pass
    else if ltb_ℤ b.max_receive_count (pos (suc m.receive_count))
    then bury
    else deliver b kept m rest now timeout

unfoldable pub receive :
    Broker → (now visibility_timeout : ℤ) → Result BrokerError (Option Delivery × Broker)
receive b now visibility_timeout =
    if leb_ℤ visibility_timeout (pos 0)
    then err visibility_timeout_not_positive
    else ok (scan b [] b.messages now visibility_timeout)

-- `message.receipt_token == receipt_token`
abbrev pub has_token : ℕ → Option ℕ → Bool
has_token token none = false
has_token token (some t) = t == token

-- The messages without the first that holds the token, if one does.
unfoldable pub take_out : ℕ → List Message → Option (List Message)
take_out token [] = none
take_out token (m ∷ rest) =
    let found = take_out token rest in
    if has_token token m.receipt_token
    then some rest
    else elim found [ none ↦ none | some left ↦ some (m ∷ left) ]

-- `True` and the new queue where a message was found, `False` and no change otherwise.
abbrev pub settle : Broker → Option (List Message) → Bool × Broker
settle b none = (false, b)
settle b (some left) = (true, record b { messages = left })

unfoldable pub ack : Broker → ℕ → Bool × Broker
ack b token = settle b (take_out token b.messages)

-- The messages with the first that holds the token released until a time, if one does.
unfoldable pub release : ℕ → ℤ → List Message → Option (List Message)
release token at [] = none
release token at (m ∷ rest) =
    let found = release token at rest in
    if has_token token m.receipt_token
    then some (record m { receipt_token = none; visible_at = at } ∷ rest)
    else elim found [ none ↦ none | some left ↦ some (m ∷ left) ]

unfoldable pub nack : Broker → ℕ → (now retry_delay : ℤ) → Result BrokerError (Bool × Broker)
nack b token now retry_delay =
    if ltb_ℤ retry_delay (pos 0)
    then err retry_delay_negative
    else ok (settle b (release token (now +ℤ retry_delay) b.messages))
