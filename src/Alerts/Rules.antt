-- ===== src/Alerts/Rules.antt =====
-- services/alert-notification/src/alerts/rule-engine.ts. Values are those of parsed JSON, with
-- `undefined`; arrays and objects of a rule are never the objects of an event, so `===` is false on
-- them. Inherited properties (`constructor`) are not modelled. `none` is a thrown error.
pub mod Windows
pub mod Matching
mod Tests
use pawaacdrone_fleet_operat.Common.{
  ℕ, zero, suc, ◌+◌, ◌-◌, ◌*◌, ◌/◌, ◌%◌, Bool, true, false, not, ◌&&◌, ◌||◌, List, [], ◌∷◌, Option,
  none, some, Str, codes, ◌===◌, ◌==◌, leb, ltb, if◌then◌else◌, split_on, includes_text, Number,
  int, is_nan, num_lt, num_le, num_eq,
}
use pawaacdrone_fleet_operat.Alerts.{EventKind, anomaly, scene, maintenance}

mutual
  pub data Value : Type 0 where
    undefined null : Value
    bool : Bool → Value
    number : Number → Value
    text : Str → Value
    array : Items → Value
    object : Fields → Value

  pub data Items : Type 0 where
    nil : Items
    cons : Value → Items → Items

  pub data Fields : Type 0 where
    end : Fields
    field : Str → Value → Fields → Fields

pub data ConditionOperator : Type 0 where
  eq neq gt gte lt lte isin nin contains : ConditionOperator

pub record Condition : Type 0 where
  pub path : Str
  pub operator : ConditionOperator
  pub value : Value

pub record TimeWindow : Type 0 where
  pub start_min : ℕ
  pub end_min : ℕ

-- `fields` are the properties of the event, the typed ones included.
pub record DomainEvent : Type 0 where
  pub kind : EventKind
  pub ts : Str
  pub zone_id : Option Str
  pub fields : Fields

-- The fields of a rule that matching reads.
pub record AlertRule : Type 0 where
  pub enabled : Bool
  pub event_kind : EventKind
  pub conditions : List Condition
  pub time_window : Option TimeWindow
  pub zone_id : Option Str

unfoldable pub items_length : Items → ℕ
items_length nil = 0
items_length (cons v vs) = suc (items_length vs)

unfoldable pub item_at : Items → ℕ → Value
item_at nil i = undefined
item_at (cons v vs) zero = v
item_at (cons v vs) (suc i) = item_at vs i

is_digit : ℕ → Bool
is_digit c = leb b'0' c && leb c b'9'

parse_digits : ℕ → Str → Option ℕ
unfolding is_digit
parse_digits acc [] = some acc
parse_digits acc (c ∷ s) =
    let more = parse_digits (acc * 10 + (c - b'0')) s in if is_digit c then more else none

-- An array index is a decimal numeral with no leading zero.
unfoldable pub array_index : Str → Option ℕ
unfolding parse_digits is_digit
array_index [] = none
array_index (c ∷ s) =
    if c == b'0' then (if s === [] then some 0 else none) else parse_digits 0 (c ∷ s)

unfoldable pub array_property : Items → Str → Value
unfolding items_length item_at array_index
array_property vs name =
    if name === codes "length"
    then number (int (items_length vs))
    else elim (array_index name) [ none ↦ undefined | some i ↦ item_at vs i ]

unfoldable pub object_property : Fields → Str → Value
object_property end name = undefined
object_property (field k v fs) name = if k === name then v else object_property fs name

-- one round of the loop of `resolveField`
unfoldable pub property : Value → Str → Value
unfolding array_property object_property
property (array vs) name = array_property vs name
property (object fs) name = object_property fs name
property _ name = undefined

unfoldable pub walk : Value → List Str → Value
unfolding property
walk v [] = v
walk v (segment ∷ segments) = walk (property v segment) segments

unfoldable pub resolve_field : DomainEvent → Str → Value
unfolding walk split_on
resolve_field event path = walk (object event.fields) (split_on b'.' path)

unfoldable pub values_equal : Value → Value → Bool
unfolding num_eq
values_equal undefined undefined = true
values_equal null null = true
values_equal (bool true) (bool b) = b
values_equal (bool false) (bool b) = not b
values_equal (number a) (number b) = num_eq a b
values_equal (text s) (text t) = s === t
values_equal _ _ = false

unfoldable pub compare_numbers : Value → Value → (Number → Number → Bool) → Bool
compare_numbers (number a) (number b) predicate =
    if is_nan a || is_nan b then false else predicate a b
compare_numbers _ _ predicate = false

unfoldable pub any_item : (Value → Bool) → Items → Bool
any_item p nil = false
any_item p (cons v vs) = p v || any_item p vs

unfoldable pub is_member : Value → Value → Bool
unfolding values_equal any_item
is_member actual (array vs) = any_item (λ candidate. values_equal candidate actual) vs
is_member actual _ = false

unfoldable pub contains_value : Value → Value → Bool
unfolding includes_text any_item values_equal
contains_value (text s) (text p) = includes_text s p
contains_value (array vs) expected = any_item (λ candidate. values_equal candidate expected) vs
contains_value _ expected = false

unfoldable pub eval_operator : ConditionOperator → Value → Value → Bool
unfolding values_equal compare_numbers is_member contains_value num_lt num_le
eval_operator eq actual expected = values_equal actual expected
eval_operator neq actual expected = not (values_equal actual expected)
eval_operator gt actual expected = compare_numbers actual expected (λ a b. num_lt b a)
eval_operator gte actual expected = compare_numbers actual expected (λ a b. num_le b a)
eval_operator lt actual expected = compare_numbers actual expected num_lt
eval_operator lte actual expected = compare_numbers actual expected num_le
eval_operator isin actual expected = is_member actual expected
eval_operator nin actual expected = not (is_member actual expected)
eval_operator contains actual expected = contains_value actual expected

unfoldable pub eval_condition : Condition → DomainEvent → Bool
unfolding resolve_field eval_operator
eval_condition condition event =
    eval_operator condition.operator (resolve_field event condition.path) condition.value

abbrev pub minutes_per_day : ℕ
minutes_per_day = 1440

-- `getUTCHours() * 60 + getUTCMinutes()` of a time since 1970 in milliseconds
unfoldable pub utc_minutes : ℕ → ℕ
utc_minutes epoch_ms = epoch_ms / 3_600_000 % 24 * 60 + epoch_ms / 60_000 % 60

unfoldable pub in_window : ℕ → TimeWindow → Bool
in_window minute w =
    if leb w.start_min w.end_min
    then leb w.start_min minute && ltb minute w.end_min
    else leb w.start_min minute || ltb minute w.end_min

unfoldable pub kind_eq : EventKind → EventKind → Bool
kind_eq anomaly anomaly = true
kind_eq scene scene = true
kind_eq maintenance maintenance = true
kind_eq _ _ = false

-- `rule.zoneId !== eventZoneId(event)`
unfoldable pub zone_holds : Option Str → Option Str → Bool
zone_holds none actual = true
zone_holds (some wanted) none = false
zone_holds (some wanted) (some actual) = wanted === actual

unfoldable pub all_conditions : List Condition → DomainEvent → Bool
all_conditions [] event = true
all_conditions (c ∷ cs) event = eval_condition c event && all_conditions cs event

-- `parse_date` is `new Date(ts).getTime()`, `none` for an unparseable text.
module _ (parse_date : Str → Option ℕ) where
  unfoldable pub minutes_of_day : Str → Option ℕ
  unfolding utc_minutes
  minutes_of_day ts = elim (parse_date ts) [ none ↦ none | some ms ↦ some (utc_minutes ms) ]

  -- `none` where the window's test throws
  unfoldable pub window_holds : Option TimeWindow → Str → Option Bool
  unfolding minutes_of_day
  window_holds none ts = some true
  window_holds (some w) ts = elim (minutes_of_day ts) [
    | none ↦ none
    | some minute ↦ some (in_window minute w)
  ]

  unfoldable pub rule_matches : AlertRule → DomainEvent → Option Bool
  rule_matches rule event =
      if not rule.enabled
      then some false
      else if not (kind_eq rule.event_kind event.kind)
      then some false
      else if not (zone_holds rule.zone_id event.zone_id)
      then some false
      else elim (window_holds rule.time_window event.ts) [
        | none ↦ none
        | some false ↦ some false
        | some true ↦ some (all_conditions rule.conditions event)
      ]

  -- `rules.filter(…)`; the first error thrown ends it
  unfoldable pub keep_if :
      Option Bool → AlertRule → Option (List AlertRule) → Option (List AlertRule)
  keep_if none rule rest = none
  keep_if (some b) rule none = none
  keep_if (some b) rule (some rules) = some (if b then rule ∷ rules else rules)

  unfoldable pub evaluate_rules : DomainEvent → List AlertRule → Option (List AlertRule)
  unfolding keep_if
  evaluate_rules event [] = some []
  evaluate_rules event (rule ∷ rules) =
      keep_if (rule_matches rule event) rule (evaluate_rules event rules)
