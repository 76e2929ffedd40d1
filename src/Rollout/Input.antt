-- ===== src/Rollout/Input.antt =====
-- plan_rollout.py: errors, the readers of JSON fields, and times. The text of an error is left out but
-- for the place it names. `from_iso` is Python's `datetime.fromisoformat`; a time with a timezone is
-- the number of microseconds in UTC since the start of year 1, a midnight.
use staff_sre_platform_engin.Shared.{
  DateTime, naive, aware, normalized, Place, key, ℕ, ◌/◌, ◌%◌, ◌+◌, ℤ, pos, ltb, leb, ◌==◌, String,
  Bool, true, ◌&&◌, ◌||◌, Option, none, some, List, [], ◌∷◌, if◌then◌else◌, Result, ok, err, Json,
  bool, int, str, arr, obj, Object, items, fields, get, texts, all_distinct, any, is_empty_text,
  strip,
}

pub data InputError : Type 0 where
  not_an_object not_a_string not_a_boolean not_positive not_an_integer not_a_string_list :
      Place → InputError
  has_duplicates not_semver unknown_ring not_known_rings not_earlier_rings : Place → InputError
  not_a_version not_a_time no_timezone in_future : Place → InputError
  start_out_of_range duration_out_of_range no_clusters not_unique : InputError
  no_progress : String → InputError

unfoldable pub require_object : Json → Place → Result InputError Object
require_object (obj fs) path = ok (fields fs)
require_object _ path = err (not_an_object path)

unfoldable pub require_string : Object → String → Place → Result InputError String
require_string parent name path = elim (get parent name) [
  | str s ↦ if is_empty_text (strip s) then err (not_a_string (key path name)) else ok (strip s)
  | _ ↦ err (not_a_string (key path name))
]

unfoldable pub require_bool : Object → String → Place → Result InputError Bool
require_bool parent name path = elim (get parent name) [
  | bool b ↦ ok b
  | _ ↦ err (not_a_boolean (key path name))
]

unfoldable pub require_positive_int : Object → String → Place → Result InputError ℕ
require_positive_int parent name path = elim (get parent name) [
  | int (pos n) ↦ if n == 0 then err (not_positive (key path name)) else ok n
  | _ ↦ err (not_positive (key path name))
]

unfoldable pub string_list : List Json → Place → Result InputError (List String)
string_list [] path = err (not_a_string_list path)
string_list (v ∷ vs) path = elim (texts (v ∷ vs)) [
  | none ↦ err (not_a_string_list path)
  | some ts ↦
      if any is_empty_text ts
      then err (not_a_string_list path)
      else if all_distinct ts
      then ok ts
      else err (has_duplicates path)
]

unfoldable pub require_string_list : Object → String → Place → Result InputError (List String)
unfolding string_list
require_string_list parent name path = elim (get parent name) [
  | arr vs ↦ string_list (items vs) (key path name)
  | _ ↦ err (not_a_string_list (key path name))
]

unfoldable pub parse_time : (String → Option DateTime) → String → Place → Result InputError ℕ
unfolding normalized
parse_time from_iso value path = elim (from_iso (normalized value)) [
  | none ↦ err (not_a_time path)
  | some naive ↦ err (no_timezone path)
  | some (aware microseconds) ↦ ok microseconds
]

abbrev pub hour_microseconds : ℕ
hour_microseconds = 3600000000

-- `now.hour`
abbrev pub hour_of : ℕ → ℕ
hour_of now = now / hour_microseconds % 24

abbrev pub in_hours : (current start duration : ℕ) → Bool
in_hours current start duration =
    let end_hour = (start + duration) % 24 in
    if duration == 24
    then true
    else if ltb start end_hour
    then leb start current && ltb current end_hour
    else leb start current || ltb current end_hour

unfoldable pub within_maintenance_window : ℕ → ℤ → ℤ → Result InputError Bool
within_maintenance_window now (pos start) (pos duration) =
    if ltb 23 start
    then err start_out_of_range
    else if ltb duration 1 || ltb 24 duration
    then err duration_out_of_range
    else ok (in_hours (hour_of now) start duration)
within_maintenance_window now (pos start) duration =
    if ltb 23 start then err start_out_of_range else err duration_out_of_range
within_maintenance_window now start duration = err start_out_of_range
