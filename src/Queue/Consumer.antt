-- ===== src/Queue/Consumer.antt =====
-- queue_delivery_demo.py: the `Consumer`, with its inbox and a count of side effects by message.
use staff_sre_platform_engin.Shared.{
  ℕ, suc, String, Bool, false, List, [], ◌∷◌, any, str_eq, if◌then◌else◌,
}
use staff_sre_platform_engin.Queue.Broker.{Broker, Delivery, ack}

pub record Consumer : Type 0 where
  pub name : String
  pub inbox : List String
  pub side_effects : List (String × ℕ)

pub record ProcessResult : Type 0 where
  pub message_id : String
  pub duplicate : Bool
  pub side_effect_count : ℕ
  pub acknowledged : Bool
  pub crashed_before_ack : Bool

abbrev pub new_consumer : String → Consumer
new_consumer name = record { name = name; inbox = []; side_effects = [] }

-- `side_effects.get(key, 0)`
unfoldable pub effects : List (String × ℕ) → String → ℕ
effects [] key = 0
effects ((k, n) ∷ rest) key = let later = effects rest key in if str_eq k key then n else later

-- `side_effects[key] = value`
unfoldable pub store : String → ℕ → List (String × ℕ) → List (String × ℕ)
store key value [] = (key, value) ∷ []
store key value ((k, n) ∷ rest) =
    let later = store key value rest in if str_eq k key then (k, value) ∷ rest else (k, n) ∷ later

abbrev pub is_member : String → List String → Bool
is_member key keys = any (λ k. str_eq k key) keys

-- `self.side_effects[key] = self.side_effects.get(key, 0) + 1`
unfoldable pub apply_effect : Consumer → String → Consumer
apply_effect c key = record c {
  side_effects = store key (suc (effects c.side_effects key)) c.side_effects;
}

-- What `process` does to the consumer.
unfoldable pub handle : Consumer → String → (idempotent : Bool) → Consumer
handle c key idempotent =
    if idempotent
    then (if is_member key c.inbox
        then c
        else apply_effect (record c { inbox = key ∷ c.inbox }) key)
    else apply_effect c key

unfoldable pub process :
    Consumer
    → Broker
    → Delivery
    → (idempotent crash_before_ack : Bool) → ProcessResult × Consumer × Broker
process c b d idempotent crash_before_ack =
    let c' = handle c d.message_id idempotent in
    let (acknowledged, b') = if crash_before_ack then (false, b) else ack b d.receipt_token in
    (
      record {
        message_id = d.message_id;
        duplicate = is_member d.message_id c.inbox;
        side_effect_count = effects c'.side_effects d.message_id;
        acknowledged = acknowledged;
        crashed_before_ack = crash_before_ack;
      },
      c',
      b',
    )
