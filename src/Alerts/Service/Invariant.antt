-- ===== src/Alerts/Service/Invariant.antt =====
-- What holds of the stored alerts and the timers after any history.
use pawaacdrone_fleet_operat.Common.{
  ℕ, ◌+◌, ◌≤◌, ◌≡◌, ◌≢◌, refl, sym, ap, ◌∙◌, Option, none, some, Str, arith, Option-cases, List, [],
  ◌∷◌, Bool, true, false, Bool-cases, inl, inr, ◌===◌, ===_iff, length, All, if◌then◌else◌,
}
use pawaacdrone_fleet_operat.Alerts.{AlertStatus, opened, acknowledged, escalated, status_eq}
use pawaacdrone_fleet_operat.Alerts.Escalation.{AckDecision, noop, illegal, NextStep}
use pawaacdrone_fleet_operat.Alerts.Escalation.Laws.{IsStep, Answers, decide_acknowledge-Answers}
use pawaacdrone_fleet_operat.Alerts.Ports.{
  AlertEntity, AlertRuleEntity, Repository, TimerPort, DueTimer,
}
use pawaacdrone_fleet_operat.Alerts.Service.{
  World, Result, EscalationAction, create_alert, acknowledge, acknowledge_found, store_acknowledged,
  sweep, tick_escalations, tick_input, process_due_alert, store_escalated, reschedule, chain_of,
  interval_ms_of, interval_min_of,
}
use pawaacdrone_fleet_operat.Alerts.Service.Steps.{
  Processed, orphan, settled, early, ended, climbed, process-Processed, apply_transition-ok,
}
use pawaacdrone_fleet_operat.Alerts.Service.History.{
  Rules, Step, create, acknowledges, ticks, Reach, here, next, after_entry_world,
}

abbrev is_some : Option ℕ → Bool
is_some none = false
is_some (some d) = true

abbrev pub is_live : Option AlertEntity → Bool
is_live none = false
is_live (some a) = status_eq a.status opened

not_live : (s : AlertStatus) → s ≢ opened → status_eq s opened ≡ false
unfolding status_eq
not_live s h = ground arith

live : (s : AlertStatus) → s ≡ opened → status_eq s opened ≡ true
unfolding status_eq
live s h = ground arith

escalated-ne-opened : escalated ≢ opened
escalated-ne-opened e = cc

acknowledged-ne-opened : acknowledged ≢ opened
acknowledged-ne-opened e = cc

module _ (repo : Repository) (port : TimerPort) (longest : Str → ℕ) where
  abbrev Capped : Option AlertEntity → Type 0
  Capped none = Unit
  Capped (some a) = a.escalation_level ≤ longest a.rule_id

  -- A timer is armed exactly for an open alert, and no level is beyond the bound for its rule.
  abbrev Good : Option AlertEntity → Option ℕ → Type 0
  Good o s = (is_some s ≡ is_live o) × Capped o

  abbrev pub IsTracked : World repo port → Type 0
  IsTracked w = (j : Str) → Good (repo.find_one w.alerts j) (port.score w.timers j)

  -- An alert is stored, and its timer set (`some`) or dropped (`none`).
  saved-Good :
      (w : World repo port) (b : AlertEntity) (k : Str) (timers : port.Timers) (s : Option ℕ)
      (j : Str)
      → b.id ≡ k
      → port.score timers j ≡ (if k === j then s else port.score w.timers j)
      → Good (some b) s
      → Good (repo.find_one w.alerts j) (port.score w.timers j)
      → Good (repo.find_one (repo.save w.alerts b) j) (port.score timers j)
  saved-Good w b k timers s j i e g h =
      let found = repo.find_one-save w.alerts b j in
      let same : (b.id === j) ≡ (k === j) = ap (λ (x : Str). x === j) i in
      elim (Bool-cases (k === j)) [
        | inl hit ↦ rw (e, found, same, hit) g
        | inr miss ↦ rw (e, found, same, miss) h
      ]

  cancel-Good :
      (w : World repo port) (k j : Str)
      → is_live (repo.find_one w.alerts k) ≡ false
      → Good (repo.find_one w.alerts j) (port.score w.timers j)
      → Good (repo.find_one w.alerts j) (port.score (port.cancel w.timers k) j)
  cancel-Good w k j dead h = elim (Bool-cases (k === j)) [
    | inl hit ↦
        let same : k ≡ j = (===_iff k j).0 hit in
        rw (port.score-cancel w.timers k j, hit) (sym (rw same at dead), h.1)
    | inr miss ↦ rw (port.score-cancel w.timers k j, miss) h
  ]

-- No escalation chain is longer than the bound for its rule.
abbrev pub Within : (Str → ℕ) → Rules → Type 0
Within longest find_rule = (r : Str) → length (chain_of (find_rule r)) ≤ longest r

module _ (repo : Repository) (port : TimerPort) (longest : Str → ℕ)
    (find_rule : Str → Option AlertRuleEntity) (bounded : Within longest find_rule) where
  abbrev Tracked : World repo port → Type 0
  Tracked = IsTracked repo port longest

  module _ (w : World repo port) (k : Str) (due now : ℕ) (good : Tracked w) where
    within :
        (a : AlertEntity) (n : NextStep)
        → IsStep (tick_input repo port find_rule a due now) n
        → n.next_level ≤ longest a.rule_id
    unfolding tick_input
    within a n h = omega (arith, h.capped, bounded a.rule_id)

    climbed-Good :
        (a : AlertEntity) (n : NextStep) (j : Str)
        → a.id ≡ k
        → IsStep (tick_input repo port find_rule a due now) n
        → Good repo port longest
            (repo.find_one
              (repo.save w.alerts
                (record a { status = n.next_status; escalation_level = n.next_level }))
              j)
            (port.score (reschedule repo port find_rule w.timers k n.terminal n.next_due_at) j)
    unfolding tick_input reschedule
    climbed-Good a n j i h = elim h.ends [
      | inl (l, s, t, d) ↦
          let due' = due + interval_ms_of (interval_min_of (find_rule a.rule_id)) in
          rw (t, d)
            (saved-Good repo port longest w _ k _ (some due') j i
              (port.score-schedule w.timers k due' j) (sym (live _ s), within a n h) (good j))
      | inr (l, s, t, d) ↦
          rw (t, d)
            (saved-Good repo port longest w _ k _ none j i (port.score-cancel w.timers k j)
              (sym (not_live _ (rw s escalated-ne-opened)), within a n h) (good j))
    ]

    Processed-Good :
        {r : World repo port × Result (Option EscalationAction)}
        → Processed repo port find_rule w k due now r
        → Tracked r.0
    unfolding store_escalated
    Processed-Good (orphan e) j = cancel-Good repo port longest w k j (ap is_live e) (good j)
    Processed-Good (settled a e s) j =
        cancel-Good repo port longest w k j (ap is_live e ∙ not_live a.status s) (good j)
    Processed-Good (early a e s l) j = good j
    Processed-Good (ended a act e s l) j =
        saved-Good repo port longest w _ k _ none j (repo.find_one-id w.alerts k a e)
          (port.score-cancel w.timers k j)
          (sym (not_live _ escalated-ne-opened), (rw e at (good k)).1) (good j)
    Processed-Good (climbed a n e h) j = climbed-Good a n j (repo.find_one-id w.alerts k a e) h

  process-IsTracked :
      (w : World repo port) (k : Str) (due now : ℕ)
      → Tracked w
      → Tracked (process_due_alert repo port find_rule w k due now).0
  process-IsTracked w k due now good =
      Processed-Good w k due now good (process-Processed repo port find_rule w k due now)

  sweep-IsTracked :
      (w : World repo port) (now : ℕ) (es : List DueTimer)
      → Tracked w
      → Tracked (sweep repo port find_rule w now es).0
  unfolding sweep
  sweep-IsTracked w now [] good = good
  sweep-IsTracked w now (e ∷ es) good =
      let done = process_due_alert repo port find_rule w e.alert_id e.due_at now in
      let first = process-IsTracked w e.alert_id e.due_at now good in
      after_entry_world repo port find_rule Tracked done _ first
        (sweep-IsTracked done.0 now es first)

  stored-IsTracked :
      (w : World repo port) (k user : Str) (now : ℕ) (a : AlertEntity) (d : AckDecision)
      → repo.find_one w.alerts k ≡ some a
      → Answers a.status d
      → Tracked w
      → Tracked (acknowledge_found repo port find_rule w k user now a d).0
  unfolding acknowledge_found store_acknowledged
  stored-IsTracked w k user now a noop e h good = good
  stored-IsTracked w k user now a illegal e h good = good
  stored-IsTracked w k user now a (AckDecision.acknowledge t) e h good =
      rw (apply_transition-ok a t h.1) λ j.
        (saved-Good repo port longest w _ k _ none j (repo.find_one-id w.alerts k a e)
          (port.score-cancel w.timers k j)
          (sym (not_live _ (rw h.0 acknowledged-ne-opened)), (rw e at (good k)).1) (good j))

  acknowledge-IsTracked :
      (w : World repo port) (k user : Str) (now : ℕ)
      → Tracked w
      → Tracked (acknowledge repo port find_rule w k user now).0
  unfolding acknowledge
  acknowledge-IsTracked w k user now good = elim (Option-cases (repo.find_one w.alerts k)) [
    | inl gone ↦ rw (gone, acknowledge) good
    | inr (a, e) ↦
        rw (e, acknowledge)
          (stored-IsTracked w k user now a _ e (decide_acknowledge-Answers a.status) good)
  ]

  -- Every call keeps the timers exact (armed for the open alerts and no other) and every level
  -- within the bound for the alert's rule.
  pub Step-IsTracked :
      {u v : World repo port} → Step repo port find_rule u v → Tracked u → Tracked v
  unfolding create_alert tick_escalations status_eq
  Step-IsTracked {u} (create k input now fresh) good = λ j.
      saved-Good repo port longest u _ k _ (some _) j refl (port.score-schedule u.timers k _ j)
        (refl, omega arith) (good j)
  Step-IsTracked {u} (acknowledges k user now) good = acknowledge-IsTracked u k user now good
  Step-IsTracked {u} (ticks now) good = sweep-IsTracked u now (port.due_entries u.timers now) good

-- Whatever calls are made and however rules are edited between them: if, at each call, the chain of
-- each rule is no longer than a bound for that rule, and timers and levels are in order at first,
-- then at the end a timer is armed for each open alert and for no other, and the level of each alert
-- is within the bound for its rule.
pub Reach-IsTracked :
    (repo : Repository) (port : TimerPort) (longest : Str → ℕ) {u : World repo port}
    {rules : List Rules} {v : World repo port}
    → Reach repo port u rules v
    → All (Within longest) rules
    → IsTracked repo port longest u
    → IsTracked repo port longest v
Reach-IsTracked repo port longest here h good = good
Reach-IsTracked repo port longest (next find_rule r s) (h, hs) good =
    Step-IsTracked repo port longest find_rule h s (Reach-IsTracked repo port longest r hs good)
