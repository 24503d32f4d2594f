-- ===== src/Alerts/Rules/Matching.antt =====
-- Which rules match an event, whatever the order in which they are listed.
use mathlib.Core.List
use mathlib.Core.List.{Mem, mem-filter}
use pawaacdrone_fleet_operat.Common.{
  ℕ, ◌<◌, ◌≤◌, ◌≡◌, refl, sym, ap, ◌∙◌, true, false, arith, ◌⊎◌, ◌↔◌, List, [], ◌∷◌, Option, none,
  some, Str, All, Bool, filter, if◌then◌else◌, Bool-cases, ===_iff, inl, inr, ◌&&◌,
}
use pawaacdrone_fleet_operat.Alerts.Rules.{
  TimeWindow, in_window, utc_minutes, AlertRule, DomainEvent, Condition, eval_condition, kind_eq,
  zone_holds, window_holds, all_conditions, rule_matches, evaluate_rules, keep_if, minutes_of_day,
}

-- The zone of the event, if the rule names one.
abbrev pub InZone : Option Str → Option Str → Type 0
InZone none z = Unit
InZone (some wanted) z = z ≡ some wanted

-- The minute is at or after the start and before the end; a window whose start is after its end
-- spans midnight.
abbrev pub InWindow : Option TimeWindow → ℕ → Type 0
InWindow none m = Unit
InWindow (some w) m =
    ((w.start_min ≤ m) × (m < w.end_min))
    ⊎ ((w.end_min < w.start_min) × ((w.start_min ≤ m) ⊎ (m < w.end_min)))

pub record Matches (r : AlertRule) (e : DomainEvent) (minute : ℕ) : Type 0 where
  pub on : r.enabled ≡ true
  pub kind : r.event_kind ≡ e.kind
  pub zone : InZone r.zone_id e.zone_id
  pub window : InWindow r.time_window minute
  pub conditions : All (λ c. eval_condition c e ≡ true) r.conditions

zone_holds_iff : (o z : Option Str) → (zone_holds o z ≡ true) ↔ InZone o z
unfolding zone_holds
zone_holds_iff none z = (λ _. tt, λ _. refl)
zone_holds_iff (some w) none = (λ h. cc, λ h. cc)
zone_holds_iff (some w) (some z) =
    (λ h. ground (arith, ===_iff w z), λ h. ground (arith, ===_iff w z))

in_window_iff : (m : ℕ) (w : TimeWindow) → (in_window m w ≡ true) ↔ InWindow (some w) m
unfolding in_window
in_window_iff m w = (λ h. ground arith, λ h. ground arith)

all_conditions_iff :
    (cs : List Condition) (e : DomainEvent)
    → (all_conditions cs e ≡ true) ↔ All (λ c. eval_condition c e ≡ true) cs
unfolding all_conditions
all_conditions_iff [] e = (λ _. tt, λ _. refl)
all_conditions_iff (c ∷ cs) e = (
  λ h. ground (arith, (all_conditions_iff cs e).0),
  λ h. ground (arith, (all_conditions_iff cs e).1),
)

kind_eq_iff : (k l : _) → (kind_eq k l ≡ true) ↔ (k ≡ l)
unfolding kind_eq
kind_eq_iff k l = (λ h. ground arith, λ h. ground arith)

bool_dec : (b : Bool) → Dec (b ≡ true)
bool_dec true = yes refl
bool_dec false = no (λ e. cc)

is_match : Option Bool → Bool
is_match none = false
is_match (some b) = b

is_match-some : (b : Bool) → is_match (some b) ≡ b
unfolding is_match
is_match-some b = refl

keep_if-eq-some :
    (parse_date : Str → Option ℕ) (m : Option Bool) (r : AlertRule) (o : Option (List AlertRule))
    (out : List AlertRule)
    → keep_if parse_date m r o ≡ some out
    → (rest : List AlertRule) × (o ≡ some rest) × (out ≡ (if is_match m then r ∷ rest else rest))
unfolding keep_if is_match
keep_if-eq-some parse_date none r o out h = cc
keep_if-eq-some parse_date (some b) r none out h = cc
keep_if-eq-some parse_date (some b) r (some rest) out h = (rest, refl, cc)

filter-dec :
    (p : AlertRule → Bool) (l : List AlertRule) → List.filter (λ r. bool_dec (p r)) l ≡ filter p l
unfolding bool_dec
filter-dec p [] = refl
filter-dec p (r ∷ l) = elim (Bool-cases (p r)) [
  | inl t ↦ rw t (ap (λ k. r ∷ k) (filter-dec p l))
  | inr f ↦ rw f (filter-dec p l)
]

mem-filter_iff :
    (p : AlertRule → Bool) (r : AlertRule) (l : List AlertRule)
    → Mem r (filter p l) ↔ (Mem r l × (p r ≡ true))
mem-filter_iff p r l = rw (← filter-dec p l) (mem-filter (λ x. bool_dec (p x)))

module _ (parse_date : Str → Option ℕ) where
  window_holds_iff :
      (o : Option TimeWindow) (ts : Str) (ms : ℕ)
      → parse_date ts ≡ some ms
      → (b : Bool) × (window_holds parse_date o ts ≡ some b)
        × ((b ≡ true) ↔ InWindow o (utc_minutes ms))
  unfolding window_holds minutes_of_day
  window_holds_iff none ts ms p = (true, refl, (λ _. tt, λ _. refl))
  window_holds_iff (some w) ts ms p = (
    in_window (utc_minutes ms) w,
    rw (p, window_holds, minutes_of_day) refl,
    in_window_iff (utc_minutes ms) w,
  )

  -- With a readable timestamp a rule either matches or not, and it matches exactly if it is
  -- enabled, for this kind of event, in its zone and window, and with all its conditions true.
  pub rule_matches_iff :
      (r : AlertRule) (e : DomainEvent) (ms : ℕ)
      → parse_date e.ts ≡ some ms
      → (b : Bool) × (rule_matches parse_date r e ≡ some b)
        × ((b ≡ true) ↔ Matches r e (utc_minutes ms))
  unfolding rule_matches
  rule_matches_iff r e ms p =
      let (b, held, window) = window_holds_iff r.time_window e.ts ms p in
      let kind = kind_eq_iff r.event_kind e.kind in
      let zone = zone_holds_iff r.zone_id e.zone_id in
      let conditions = all_conditions_iff r.conditions e in
      (
        r.enabled
            && (kind_eq r.event_kind e.kind
                && (zone_holds r.zone_id e.zone_id && (b && all_conditions r.conditions e))),
        ground arith,
        (
          λ h. record {
            on = ground arith;
            kind = kind.0 (ground arith);
            zone = zone.0 (ground arith);
            window = window.0 (ground arith);
            conditions = conditions.0 (ground arith);
          },
          λ m.
              rw (m.on, kind.1 m.kind, zone.1 m.zone, window.1 m.window, conditions.1 m.conditions)
                refl,
        ),
      )

  abbrev holds : DomainEvent → AlertRule → Bool
  holds e r = is_match (rule_matches parse_date r e)

  -- Evaluation is a filter wherever it does not throw.
  evaluate-filter :
      (e : DomainEvent) (rs out : List AlertRule)
      → evaluate_rules parse_date e rs ≡ some out
      → out ≡ filter (holds e) rs
  unfolding evaluate_rules
  evaluate-filter e [] out h = cc
  evaluate-filter e (r ∷ rs) out h =
      let (rest, later, now) = keep_if-eq-some parse_date _ r _ out h in
      now ∙ ap (λ l. if holds e r then r ∷ l else l) (evaluate-filter e rs rest later)

  holds_iff :
      (r : AlertRule) (e : DomainEvent) (ms : ℕ)
      → parse_date e.ts ≡ some ms
      → (holds e r ≡ true) ↔ Matches r e (utc_minutes ms)
  holds_iff r e ms p =
      let (b, m, i) = rule_matches_iff r e ms p in
      let h : holds e r ≡ b = ap is_match m ∙ is_match-some b in
      (λ k. i.0 (sym h ∙ k), λ k. h ∙ i.1 k)

  evaluate_total :
      (e : DomainEvent) (rs : List AlertRule) (ms : ℕ)
      → parse_date e.ts ≡ some ms
      → (out : List AlertRule) × (evaluate_rules parse_date e rs ≡ some out)
  unfolding evaluate_rules keep_if
  evaluate_total e [] ms p = ([], refl)
  evaluate_total e (r ∷ rs) ms p =
      let (b, m, _i) = rule_matches_iff r e ms p in
      let (rest, q) = evaluate_total e rs ms p in
      ((if b then r ∷ rest else rest), rw (m, q, keep_if) refl)

  -- With a readable timestamp the evaluation returns, and a rule is in its result exactly if it is
  -- listed and matches.
  pub evaluate_rules_iff :
      (e : DomainEvent) (rs : List AlertRule) (ms : ℕ)
      → parse_date e.ts ≡ some ms
      → (out : List AlertRule) × (evaluate_rules parse_date e rs ≡ some out)
        × ((r : AlertRule) → Mem r out ↔ (Mem r rs × Matches r e (utc_minutes ms)))
  evaluate_rules_iff e rs ms p =
      let (out, done) = evaluate_total e rs ms p in
      (
        out,
        done,
        λ r. rw (evaluate-filter e rs out done) (
          (λ m.
              let (listed, h) = (mem-filter_iff (holds e) r rs).0 m in
              (listed, (holds_iff r e ms p).0 h)),
          (λ m. (mem-filter_iff (holds e) r rs).1 (m.0, (holds_iff r e ms p).1 m.1)),
        ),
      )
