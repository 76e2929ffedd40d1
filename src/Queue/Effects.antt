-- ===== src/Queue/Effects.antt =====
-- The side effects of the consumer in queue_delivery_demo.py, under redelivery.
use staff_sre_platform_engin.Shared.{
  subst, ℕ, zero, suc, ◌+◌, String, Bool, true, false, ◌||◌, List, [], ◌∷◌, ◌≡◌, refl, sym, ◌∙◌,
  arith, str_eq, eq_iff, if◌then◌else◌, Bool-cases, inl, inr,
}
use staff_sre_platform_engin.Queue.Broker.{Broker, Delivery}
use staff_sre_platform_engin.Queue.Consumer.{
  Consumer, new_consumer, effects, store, is_member, apply_effect, handle, process,
}

effects-store :
    (k j : String) (v : ℕ) (m : List (String × ℕ))
    → effects (store k v m) j ≡ (if str_eq k j then v else effects m j)
unfolding effects store
effects-store k j v [] = refl
effects-store k j v ((i, n) ∷ m) =
    ground (arith, eq_iff k j, eq_iff i k, eq_iff i j, effects-store k j v m)

-- An attempt: a delivery, and whether the consumer crashes before its acknowledgement.
abbrev pub Attempt : Type 0
Attempt = Delivery × Bool

-- The attempts one after another.
unfoldable pub process_all : Consumer → Broker → Bool → List Attempt → Consumer × Broker
process_all c b idempotent [] = (c, b)
process_all c b idempotent ((d, crash) ∷ rest) =
    let (result, c', b') = process c b d idempotent crash in process_all c' b' idempotent rest

-- How many of the attempts deliver the message.
unfoldable pub attempts : String → List Attempt → ℕ
attempts key [] = 0
attempts key ((d, crash) ∷ rest) =
    let later = attempts key rest in if str_eq d.message_id key then suc later else later

-- 1 if there is any, and 0 otherwise.
abbrev pub at_most_one : ℕ → ℕ
at_most_one zero = 0
at_most_one (suc n) = 1

-- The inbox and the counts agree: one effect for each message in the inbox, none for the others.
abbrev IsExact : Consumer → Type 0
IsExact c = (key : String) → effects c.side_effects key ≡ (if is_member key c.inbox then 1 else 0)

known_member :
    (l : List String) (k key : String)
    → is_member k l ≡ true
    → (str_eq k key || is_member key l) ≡ is_member key l
known_member l k key h = elim (Bool-cases (str_eq k key)) [
  | inl same ↦ rw same (sym (subst (λ x. is_member x l ≡ true) ((eq_iff k key).0 same) h))
  | inr other ↦ rw other
]

handle-inbox :
    (c : Consumer) (k key : String)
    → is_member key (handle c k true).inbox ≡ (str_eq k key || is_member key c.inbox)
unfolding handle apply_effect
handle-inbox c k key = elim (Bool-cases (is_member k c.inbox)) [
  | inl old ↦ simp old (sym (known_member c.inbox k key old))
  | inr new ↦ simp new
]

handle-IsExact : (c : Consumer) (k : String) → IsExact c → IsExact (handle c k true)
unfolding handle apply_effect
handle-IsExact c k h key = elim (Bool-cases (is_member k c.inbox)) [
  | inl old ↦ simp old (h key)
  | inr new ↦ simp (new, effects-store) (ground (arith, h k, h key, eq_iff k key))
]

process_all-IsExact :
    (c : Consumer) (b : Broker) (l : List Attempt) → IsExact c → IsExact (process_all c b true l).0
unfolding process_all process
process_all-IsExact c b [] h = h
process_all-IsExact c b ((d, crash) ∷ l) h =
    process_all-IsExact (handle c d.message_id true) _ l (handle-IsExact c d.message_id h)

process_all-inbox :
    (c : Consumer) (b : Broker) (l : List Attempt) (key : String)
    → (if is_member key (process_all c b true l).0.inbox then 1 else 0)
      ≡ (if is_member key c.inbox then 1 else at_most_one (attempts key l))
unfolding process_all process attempts
process_all-inbox c b [] key = refl
process_all-inbox c b ((d, crash) ∷ l) key =
    process_all-inbox (handle c d.message_id true) _ l key
    ∙ rw (handle-inbox c d.message_id key) (ground arith)

-- With the inbox, redelivery does not repeat a side effect: whatever the attempts, their order, and
-- the crashes before acknowledgement, a message has one effect if it was delivered at all, and none
-- otherwise.
pub effects_exactly_once :
    (name : String) (b : Broker) (l : List Attempt) (key : String)
    → effects (process_all (new_consumer name) b true l).0.side_effects key
      ≡ at_most_one (attempts key l)
unfolding effects
effects_exactly_once name b l key =
    process_all-IsExact (new_consumer name) b l (λ _. refl) key
    ∙ process_all-inbox (new_consumer name) b l key

unsafe_effects :
    (c : Consumer) (b : Broker) (l : List Attempt) (key : String)
    → effects (process_all c b false l).0.side_effects key
      ≡ effects c.side_effects key + attempts key l
unfolding process_all process attempts handle apply_effect
unsafe_effects c b [] key = omega arith
unsafe_effects c b ((d, crash) ∷ l) key =
    unsafe_effects (handle c d.message_id false) _ l key
    ∙ rw effects-store (ground (arith, eq_iff d.message_id key))

-- Without the inbox every attempt repeats the effect.
pub effects_repeated :
    (name : String) (b : Broker) (l : List Attempt) (key : String)
    → effects (process_all (new_consumer name) b false l).0.side_effects key ≡ attempts key l
unfolding effects
effects_repeated name b l key = unsafe_effects (new_consumer name) b l key ∙ omega arith
