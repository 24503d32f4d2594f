-- ===== src/Alerts/Tests/Ports.antt =====
-- A concrete repository, a list of rows, and a concrete timer port, a list of timers.
use pawaacdrone_fleet_operat.Common.{
  ℕ, ◌≡◌, ◌≢◌, ◌≤◌, refl, sym, ◌∙◌, Option, none, some, Str, arith, inl, inr, List, [], ◌∷◌,
  if◌then◌else◌, ◌===◌, ===_iff, ===_refl, Bool-cases, All, Some, leb, leb→le, true, false,
}
use pawaacdrone_fleet_operat.Alerts.Ports.{AlertEntity, Repository, TimerPort, DueTimer, Distinct}

unfoldable pub find_row : List AlertEntity → Str → Option AlertEntity
find_row [] k = none
find_row (a ∷ rows) k = if a.id === k then some a else find_row rows k

pub find_row-id :
    (rows : List AlertEntity) (k : Str) (a : AlertEntity) → find_row rows k ≡ some a → a.id ≡ k
unfolding find_row
find_row-id [] k a e = cc
find_row-id (b ∷ rows) k a e = ground (arith, find_row-id rows k a, ===_iff b.id k)

pub find_row-cons :
    (rows : List AlertEntity) (a : AlertEntity) (k : Str)
    → find_row (a ∷ rows) k ≡ (if a.id === k then some a else find_row rows k)
unfolding find_row
find_row-cons rows a k = refl

abbrev pub rows_repo : Repository
rows_repo = record {
  Rows = List AlertEntity;
  find_one = find_row;
  save = λ rows a. a ∷ rows;
  find_one-save = find_row-cons;
  find_one-id = find_row-id;
}

unfoldable pub score_of : List DueTimer → Str → Option ℕ
score_of [] k = none
score_of (e ∷ es) k = if e.alert_id === k then some e.due_at else score_of es k

unfoldable pub remove : List DueTimer → Str → List DueTimer
remove [] k = []
remove (e ∷ es) k = if e.alert_id === k then remove es k else e ∷ remove es k

pub score_of-remove :
    (es : List DueTimer) (k j : Str)
    → score_of (remove es k) j ≡ (if k === j then none else score_of es j)
unfolding score_of remove
score_of-remove [] k j = ground arith
score_of-remove (e ∷ es) k j =
    ground (arith, score_of-remove es k j, ===_iff e.alert_id k, ===_iff e.alert_id j, ===_iff k j)

remove-All : (P : DueTimer → Type 0) (es : List DueTimer) (k : Str) → All P es → All P (remove es k)
unfolding remove
remove-All P [] k h = tt
remove-All P (e ∷ es) k (h, hs) = ground (arith, remove-All P es k hs)

pub remove-Distinct : (es : List DueTimer) (k : Str) → Distinct es → Distinct (remove es k)
unfolding remove
remove-Distinct [] k u = tt
remove-Distinct (e ∷ es) k (u, us) =
    ground (arith, remove-Distinct es k us, remove-All (λ f. f.alert_id ≢ e.alert_id) es k u)

pub remove_absent : (es : List DueTimer) (k : Str) → All (λ f. f.alert_id ≢ k) (remove es k)
unfolding remove
remove_absent [] k = tt
remove_absent (e ∷ es) k = elim (Bool-cases (e.alert_id === k)) [
  | inl hit ↦ rw hit (remove_absent es k)
  | inr miss ↦ rw miss (λ p. false_hit (sym miss ∙ (===_iff e.alert_id k).1 p), remove_absent es k)
]
  where
    false_hit : ¬ (false ≡ true)
    false_hit e = cc

unfoldable pub due_of : List DueTimer → ℕ → List DueTimer
due_of [] now = []
due_of (e ∷ es) now = if leb e.due_at now then e ∷ due_of es now else due_of es now

due_of-All :
    (P : DueTimer → Type 0) (es : List DueTimer) (now : ℕ) → All P es → All P (due_of es now)
unfolding due_of
due_of-All P [] now h = tt
due_of-All P (e ∷ es) now (h, hs) = ground (arith, due_of-All P es now hs)

pub due_of-Distinct : (es : List DueTimer) (now : ℕ) → Distinct es → Distinct (due_of es now)
unfolding due_of
due_of-Distinct [] now u = tt
due_of-Distinct (e ∷ es) now (u, us) =
    ground (arith, due_of-Distinct es now us, due_of-All (λ f. f.alert_id ≢ e.alert_id) es now u)

pub due_of_complete :
    (es : List DueTimer) (now : ℕ) (k : Str) (d : ℕ)
    → score_of es k ≡ some d
    → d ≤ now
    → Some (λ e. (e.alert_id ≡ k) × (e.due_at ≡ d)) (due_of es now)
unfolding score_of due_of
due_of_complete [] now k d s l = cc
due_of_complete (e ∷ es) now k d s l =
    ground (arith, due_of_complete es now k d, ===_iff e.alert_id k)

zip_All :
    (P Q R : DueTimer → Type 0) (es : List DueTimer)
    → ((e : DueTimer) → P e → Q e → R e)
    → All P es
    → All Q es
    → All R es
zip_All P Q R [] f h k = tt
zip_All P Q R (e ∷ es) f (h, hs) (k, ks) = (f e h k, zip_All P Q R es f hs ks)

score_of-tail :
    (e f : DueTimer) (es : List DueTimer)
    → f.alert_id ≢ e.alert_id
    → score_of es f.alert_id ≡ some f.due_at
    → score_of (e ∷ es) f.alert_id ≡ some f.due_at
unfolding score_of
score_of-tail e f es n s = ground (arith, ===_iff e.alert_id f.alert_id)

score_listed :
    (es : List DueTimer) → Distinct es → All (λ e. score_of es e.alert_id ≡ some e.due_at) es
score_listed [] u = tt
score_listed (e ∷ es) (u, us) = (
  unfold score_of in rw (===_refl e.alert_id) refl,
  zip_All (λ f. f.alert_id ≢ e.alert_id) (λ f. score_of es f.alert_id ≡ some f.due_at) _ es
      (λ f. score_of-tail e f es) u (score_listed es us),
)

due_of-le : (es : List DueTimer) (now : ℕ) → All (λ e. e.due_at ≤ now) (due_of es now)
unfolding due_of
due_of-le [] now = tt
due_of-le (e ∷ es) now = elim (Bool-cases (leb e.due_at now)) [
  | inl due ↦ rw due (leb→le e.due_at now due, due_of-le es now)
  | inr wait ↦ rw wait (due_of-le es now)
]

pub due_of_sound :
    (es : List DueTimer) (now : ℕ)
    → Distinct es
    → All (λ e. (score_of es e.alert_id ≡ some e.due_at) × (e.due_at ≤ now)) (due_of es now)
due_of_sound es now u =
    zip_All (λ e. score_of es e.alert_id ≡ some e.due_at) (λ e. e.due_at ≤ now) _ (due_of es now)
      (λ e h k. (h, k)) (due_of-All _ es now (score_listed es u)) (due_of-le es now)

unfoldable pub schedule_timer :
    (t : (es : List DueTimer) × Distinct es) → Str → ℕ → (es : List DueTimer) × Distinct es
schedule_timer (es, u) k d = (
  record { alert_id = k; due_at = d } ∷ remove es k,
  (remove_absent es k, remove-Distinct es k u),
)

pub score_of-schedule :
    (t : (es : List DueTimer) × Distinct es) (k : Str) (d : ℕ) (j : Str)
    → score_of (schedule_timer t k d).0 j ≡ (if k === j then some d else score_of t.0 j)
unfolding score_of schedule_timer
score_of-schedule (es, u) k d j = ground (arith, score_of-remove es k j)

abbrev pub timer_list : TimerPort
timer_list = record {
  Timers = (es : List DueTimer) × Distinct es;
  score = λ t. score_of t.0;
  schedule = schedule_timer;
  cancel = λ t k. (remove t.0 k, remove-Distinct t.0 k t.1);
  due_entries = λ t. due_of t.0;
  score-schedule = score_of-schedule;
  score-cancel = λ t. score_of-remove t.0;
  due_entries-sound = λ t now. due_of_sound t.0 now t.1;
  due_entries-distinct = λ t now. due_of-Distinct t.0 now t.1;
  due_entries-complete = λ t. due_of_complete t.0;
}
