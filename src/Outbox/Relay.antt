-- ===== src/Outbox/Relay.antt =====
-- outbox_lab.py: `pending_outbox` and `relay`.
use Prim.Native.Nat.{Ordering}
use Prim.Native.String.{compare as compare_text}
use staff_sre_platform_engin.Shared.{
  ℕ, zero, suc, ℤ, pos, negsuc, ltb_ℤ, ltb, String, Bool, true, false, Option, none, some, List, [],
  ◌∷◌, ◌++◌, map, filter, str_eq, if◌then◌else◌, Result, ok, ◌>>◌, raise_if,
}
use staff_sre_platform_engin.Outbox.Tables.{
  OutboxRow, AppDb, BrokerDb, OutboxError, duplicate_each_below_one,
}

abbrev pub is_pending : Option ℕ → Bool
is_pending none = true
is_pending (some _) = false

abbrev pub text_before : String → String → Bool
text_before a b = elim (compare_text a b) [
  | Ordering.lt ↦ true
  | Ordering.eq ↦ true
  | Ordering.gt ↦ false
]

-- `ORDER BY created_at, event_id`
abbrev pub row_before : OutboxRow → OutboxRow → Bool
row_before a b =
    if ltb a.created_at b.created_at
    then true
    else if ltb b.created_at a.created_at
    then false
    else text_before a.event_id b.event_id

unfoldable pub insert_row : OutboxRow → List OutboxRow → List OutboxRow
insert_row r [] = r ∷ []
insert_row r (x ∷ rest) =
    let later = insert_row r rest in if row_before r x then r ∷ x ∷ rest else x ∷ later

unfoldable pub sort_rows : List OutboxRow → List OutboxRow
unfolding insert_row
sort_rows [] = []
sort_rows (r ∷ rest) = insert_row r (sort_rows rest)

unfoldable pub first_rows {ℓ} : {A : Type ℓ} → ℕ → List A → List A
first_rows zero xs = []
first_rows (suc n) [] = []
first_rows (suc n) (x ∷ xs) = x ∷ first_rows n xs

-- `LIMIT`: SQLite takes a negative limit for none.
unfoldable pub limited {ℓ} : {A : Type ℓ} → ℤ → List A → List A
unfolding first_rows
limited (pos n) xs = first_rows n xs
limited (negsuc _) xs = xs

unfoldable pub pending_outbox : AppDb → ℤ → List OutboxRow
unfolding sort_rows limited
pending_outbox app limit =
    limited limit (sort_rows (filter (λ r. is_pending r.published_at) app.outbox))

-- One INSERT into `deliveries`.
unfoldable pub insert_delivery : BrokerDb → OutboxRow → BrokerDb
insert_delivery b r = record {
  deliveries =
      b.deliveries
      ++ record {
        delivery_id = suc b.last_delivery_id;
        event_id = r.event_id;
        event_type = r.event_type;
        payload = r.payload;
        consumed_at = none;
      }
        ∷ [];
  last_delivery_id = suc b.last_delivery_id;
}

-- The inserts of one event, `duplicate_each` times, up to the commit.
unfoldable pub publish : ℕ → BrokerDb → OutboxRow → BrokerDb
unfolding insert_delivery
publish zero b r = b
publish (suc n) b r = publish n (insert_delivery b r) r

-- `published_at = now WHERE event_id = ? AND published_at IS NULL`
abbrev pub mark_row : String → ℕ → OutboxRow → OutboxRow
mark_row event_id now r =
    if str_eq r.event_id event_id
    then record r { published_at = elim r.published_at [ none ↦ some now | some t ↦ some t ] }
    else r

unfoldable pub mark_published : AppDb → String → ℕ → AppDb
mark_published app event_id now = record app { outbox = map (mark_row event_id now) app.outbox }

-- How `relay` ends: the number of published events, or the exit code 75 of the simulated crash.
pub data RelayEnd : Type 0 where
  published : ℕ → RelayEnd
  crashed : RelayEnd

unfoldable pub relay_rows :
    ℕ
    → (crash_after_publish : Bool) → (now : ℕ) → (count : ℕ) → AppDb
    → BrokerDb
    → List OutboxRow
    → RelayEnd × AppDb × BrokerDb
relay_rows copies crash now count app broker [] = (published count, app, broker)
relay_rows copies true now count app broker (r ∷ rest) = (crashed, app, publish copies broker r)
relay_rows copies false now count app broker (r ∷ rest) =
    relay_rows copies false now (suc count) (mark_published app r.event_id now)
      (publish copies broker r) rest

-- `range(duplicate_each)`, which is positive here.
abbrev pub rounds_of : ℤ → ℕ
rounds_of (pos n) = n
rounds_of (negsuc _) = 0

unfoldable pub relay :
    AppDb
    → BrokerDb
    → (limit : ℤ) → (crash_after_publish : Bool) → (duplicate_each : ℤ) → (now : ℕ)
    → Result OutboxError (RelayEnd × AppDb × BrokerDb)
unfolding relay_rows
relay app broker limit crash duplicate_each now = do
  raise_if (ltb_ℤ duplicate_each (pos 1)) duplicate_each_below_one
  ok (relay_rows (rounds_of duplicate_each) crash now 0 app broker (pending_outbox app limit))
