-- ===== src/Alerts/Escalation/Laws.antt =====
-- The order of the statuses, and what a tick may decide.
use pawaacdrone_fleet_operat.Common.{
  ◌+◌, ◌<◌, ◌≤◌, ◌≡◌, ◌≢◌, refl, ◌⊎◌, inl, inr, true, false, none, some, arith, Bool-cases, ltb,
  leb, not,
}
use pawaacdrone_fleet_operat.Alerts.{
  AlertStatus, opened, acknowledged, escalated, closed, status_eq,
}
use pawaacdrone_fleet_operat.Alerts.Escalation.{
  legal_transition, decide_acknowledge, AckDecision, acknowledge, noop, illegal, TickInput,
  NextStep, TickDecision, skip, escalate, exhausted, decide_tick, next_step,
}

abbrev pub Legal : AlertStatus → AlertStatus → Type 0
Legal from to = legal_transition from to ≡ true

pub Legal-refl : (s : AlertStatus) → Legal s s
unfolding legal_transition
Legal-refl s = ground arith

pub Legal-trans : (s t u : AlertStatus) → Legal s t → Legal t u → Legal s u
unfolding legal_transition
Legal-trans s t u h k = ground arith

-- Two statuses that lead to each other by legal transitions are the same status.
Legal-antisym : (s t : AlertStatus) → Legal s t → Legal t s → s ≡ t
unfolding legal_transition
Legal-antisym s t h k = ground arith

-- What an escalation may do: one level up, a contact inside the chain, and either a later due
-- time below the end of the chain or no due time at its end.
pub record IsStep (i : TickInput) (n : NextStep) : Type 0 where
  pub was_open : i.status ≡ opened
  pub was_due : i.current_due_at ≤ i.now
  pub inside : n.contact_index < i.chain_length
  pub contact : n.contact_index ≡ i.escalation_level
  pub one_up : n.next_level ≡ i.escalation_level + 1
  pub capped : n.next_level ≤ i.chain_length
  pub ends :
      ((n.next_level < i.chain_length)
        × (n.next_status ≡ opened)
        × (n.terminal ≡ false)
        × (n.next_due_at ≡ some (i.current_due_at + i.interval_ms)))
      ⊎ ((n.next_level ≡ i.chain_length)
          × (n.next_status ≡ escalated)
          × (n.terminal ≡ true)
          × (n.next_due_at ≡ none))

-- What each decision says of the alert.
abbrev pub Decides : TickInput → TickDecision → Type 0
Decides i (skip true) = i.status ≢ opened
Decides i (skip false) = (i.status ≡ opened) × (i.now < i.current_due_at)
Decides i (exhausted s) =
    (s ≡ escalated)
    × (i.status ≡ opened)
    × (i.current_due_at ≤ i.now)
    × (i.chain_length ≤ i.escalation_level)
Decides i (escalate n) = IsStep i n

next_step-IsStep :
    (i : TickInput)
    → i.status ≡ opened
    → i.current_due_at ≤ i.now
    → i.escalation_level < i.chain_length
    → IsStep i (next_step i (leb i.chain_length (i.escalation_level + 1)))
unfolding next_step
next_step-IsStep i o d l = ground arith

status_eq-opened : (s : AlertStatus) → not (status_eq s opened) ≡ false → s ≡ opened
unfolding status_eq
status_eq-opened s h = ground arith

ne-opened : (s : AlertStatus) → not (status_eq s opened) ≡ true → s ≢ opened
unfolding status_eq
ne-opened s h = λ e. ground arith

-- A tick skips an alert that is not open (and drops its timer) or not yet due (and keeps it),
-- calls an alert at the end of its chain exhausted, and escalates any other by one step.
pub decide_tick-Decides : (i : TickInput) → Decides i (decide_tick i)
unfolding decide_tick
decide_tick-Decides i = elim (Bool-cases (not (status_eq i.status opened))) [
  | inl shut ↦ rw shut (ne-opened _ shut)
  | inr live ↦ elim (Bool-cases (ltb i.now i.current_due_at)) [
    | inl early ↦ rw (live, early) (status_eq-opened _ live, ground arith)
    | inr due ↦ elim (Bool-cases (leb i.chain_length i.escalation_level)) [
      | inl over ↦ rw (live, due, over) (refl, status_eq-opened _ live, ground arith, ground arith)
      | inr room ↦
          rw (live, due, room)
            (next_step-IsStep i (status_eq-opened _ live) (ground arith) (ground arith))
    ]
  ]
]

-- What each answer to an acknowledgement says of the status.
abbrev pub Answers : AlertStatus → AckDecision → Type 0
Answers s (acknowledge t) = (t ≡ acknowledged) × Legal s t × (s ≢ t)
Answers s noop = s ≡ acknowledged
Answers s illegal = ¬ Legal s acknowledged

pub decide_acknowledge-Answers : (s : AlertStatus) → Answers s (decide_acknowledge s)
unfolding decide_acknowledge
decide_acknowledge-Answers opened = (refl, refl, λ e. cc)
decide_acknowledge-Answers acknowledged = refl
decide_acknowledge-Answers escalated = (refl, refl, λ e. cc)
decide_acknowledge-Answers closed = λ h. cc
