-- ===== src/Alerts/Service/Sweep.antt =====
-- One sweep of the escalation timers.
use pawaacdrone_fleet_operat.Common.{
  ℕ, ◌+◌, ◌<◌, ◌≤◌, ◌≡◌, ◌≢◌, ◌⊎◌, subst, refl, sym, ap, ◌∙◌, Option, none, some, Str, arith, List,
  [], ◌∷◌, Bool-cases, inl, inr, ◌===◌, ===_iff, length, All, Some,
}
use mathlib.Core.Option.{some-injective}
use pawaacdrone_fleet_operat.Alerts.{AlertStatus, opened, escalated}
use pawaacdrone_fleet_operat.Alerts.Ports.{
  AlertEntity, AlertRuleEntity, Repository, TimerPort, DueTimer, Distinct,
}
use pawaacdrone_fleet_operat.Alerts.Service.{
  World, Result, ok, err, EscalationAction, sweep, after_entry, tick_escalations, tick_input,
  process_due_alert, store_escalated, chain_of,
}
use pawaacdrone_fleet_operat.Alerts.Service.Steps.{
  Processed, orphan, settled, early, ended, climbed, process-Processed,
}

abbrev IsOk : {A : Type 0} → Result A → Type 0
IsOk (ok a) = Unit
IsOk (err e) = ⊥

some-ne-none : {a : AlertEntity} → ¬ (some a ≡ none)
some-ne-none e = cc

listed-ne :
    (es : List DueTimer) (j k : Str) (d : ℕ)
    → All (λ f. f.alert_id ≢ j) es
    → Some (λ e. (e.alert_id ≡ k) × (e.due_at ≡ d)) es
    → j ≢ k
listed-ne [] j k d u h = absurd h
listed-ne (e ∷ es) j k d (u, us) (inl (i, t)) = λ p. u (i ∙ sym p)
listed-ne (e ∷ es) j k d (u, us) (inr h) = listed-ne es j k d us h

open-ne : (a b : AlertEntity) → some a ≡ some b → a.status ≡ opened → b.status ≢ opened → ⊥
open-ne a b e s h = h (ap status_of (sym e) ∙ s)
  where
    status_of : Option AlertEntity → AlertStatus
    status_of none = opened
    status_of (some x) = x.status

module _ (repo : Repository) (port : TimerPort) (find_rule : Str → Option AlertRuleEntity) where
  abbrev chain_length : AlertEntity → ℕ
  chain_length a = length (chain_of (find_rule a.rule_id))

  -- The alert after one step up its chain, or at its end.
  abbrev pub Advanced : AlertEntity → Option AlertEntity → Type 0
  Advanced a none = ⊥
  Advanced a (some b) =
      ((a.escalation_level < chain_length a)
        × (b.escalation_level ≡ a.escalation_level + 1)
        × (((b.status ≡ opened) × (b.escalation_level < chain_length a))
            ⊎ ((b.status ≡ escalated) × (b.escalation_level ≡ chain_length a))))
      ⊎ ((chain_length a ≤ a.escalation_level)
          × (b.escalation_level ≡ a.escalation_level)
          × (b.status ≡ escalated))

  Processed-IsOk :
      (w : World repo port) (k : Str) (due now : ℕ)
      {r : World repo port × Result (Option EscalationAction)}
      → Processed repo port find_rule w k due now r
      → IsOk r.1
  unfolding store_escalated
  Processed-IsOk w k due now (orphan e) = tt
  Processed-IsOk w k due now (settled a e s) = tt
  Processed-IsOk w k due now (early a e s l) = tt
  Processed-IsOk w k due now (ended a act e s l) = tt
  Processed-IsOk w k due now (climbed a n e h) = tt

  after_entry-IsOk :
      (d : World repo port × Result (Option EscalationAction))
      (rest : World repo port × Result (List EscalationAction))
      → IsOk d.1
      → IsOk rest.1
      → IsOk (after_entry repo port find_rule d rest).1
        × ((after_entry repo port find_rule d rest).0 ≡ rest.0)
  unfolding after_entry
  after_entry-IsOk (w, err e) rest p q = elim p [ ]
  after_entry-IsOk (w, ok none) rest p q = (q, refl)
  after_entry-IsOk (w, ok (some a)) (v, ok actions) p q = (tt, refl)
  after_entry-IsOk (w, ok (some a)) (v, err e) p q = elim q [ ]

  process-IsOk :
      (w : World repo port) (k : Str) (due now : ℕ)
      → IsOk (process_due_alert repo port find_rule w k due now).1
  process-IsOk w k due now =
      Processed-IsOk w k due now (process-Processed repo port find_rule w k due now)

  -- No entry of a sweep throws, so every due entry is processed.
  sweep-IsOk :
      (w : World repo port) (now : ℕ) (es : List DueTimer)
      → IsOk (sweep repo port find_rule w now es).1
  unfolding sweep
  sweep-IsOk w now [] = tt
  sweep-IsOk w now (e ∷ es) =
      (after_entry-IsOk _ _ (process-IsOk w e.alert_id e.due_at now)
        (sweep-IsOk (process_due_alert repo port find_rule w e.alert_id e.due_at now).0 now es)).0

  sweep-next :
      (w : World repo port) (now : ℕ) (e : DueTimer) (es : List DueTimer)
      → (sweep repo port find_rule w now (e ∷ es)).0
        ≡ (sweep repo port find_rule
            (process_due_alert repo port find_rule w e.alert_id e.due_at now).0
            now
            es).0
  unfolding sweep
  sweep-next w now e es =
      (after_entry-IsOk _ _ (process-IsOk w e.alert_id e.due_at now) (sweep-IsOk _ now es)).1

  save-other :
      (r : repo.Rows) (b : AlertEntity) (k j : Str)
      → b.id ≡ k
      → k ≢ j
      → repo.find_one (repo.save r b) j ≡ repo.find_one r j
  save-other r b k j i h = elim (Bool-cases (b.id === j)) [
    | inl hit ↦ absurd (h (sym i ∙ (===_iff b.id j).0 hit))
    | inr miss ↦ rw (repo.find_one-save r b j, miss) refl
  ]

  Processed-other :
      (w : World repo port) (k : Str) (due now : ℕ) (j : Str)
      {r : World repo port × Result (Option EscalationAction)}
      → k ≢ j
      → Processed repo port find_rule w k due now r
      → repo.find_one r.0.alerts j ≡ repo.find_one w.alerts j
  unfolding store_escalated
  Processed-other w k due now j h (orphan e) = refl
  Processed-other w k due now j h (settled a e s) = refl
  Processed-other w k due now j h (early a e s l) = refl
  Processed-other w k due now j h (ended a act e s l) =
      save-other w.alerts _ k j (repo.find_one-id w.alerts k a e) h
  Processed-other w k due now j h (climbed a n e i) =
      save-other w.alerts _ k j (repo.find_one-id w.alerts k a e) h

  save_self :
      (r : repo.Rows) (b : AlertEntity) (k : Str)
      → b.id ≡ k
      → repo.find_one (repo.save r b) k ≡ some b
  save_self r b k i = rw (repo.find_one-save r b k, (===_iff b.id k).1 i) refl

  Processed-Advanced :
      (w : World repo port) (k : Str) (due now : ℕ) (a : AlertEntity)
      {r : World repo port × Result (Option EscalationAction)}
      → repo.find_one w.alerts k ≡ some a
      → a.status ≡ opened
      → due ≤ now
      → Processed repo port find_rule w k due now r
      → Advanced a (repo.find_one r.0.alerts k)
  unfolding store_escalated tick_input
  Processed-Advanced w k due now a f o d (orphan e) = absurd (some-ne-none (sym f ∙ e))
  Processed-Advanced w k due now a f o d (settled b e s) = absurd (open-ne a b (sym f ∙ e) o s)
  Processed-Advanced w k due now a f o d (early b e s l) = absurd (omega arith)
  Processed-Advanced w k due now a f o d (ended b act e s l) =
      let moved : AlertEntity = record b { status = escalated } in
      rw (save_self w.alerts moved k (repo.find_one-id w.alerts k b e)) (
        subst (λ x. Advanced x (some moved)) (some-injective _ _ (sym e ∙ f)) (inr (l, refl, refl)))
  Processed-Advanced w k due now a f o d (climbed b n e h) =
      let moved : AlertEntity = record b {
        status = n.next_status;
        escalation_level = n.next_level;
      } in
      rw (save_self w.alerts moved k (repo.find_one-id w.alerts k b e)) (
        subst (λ x. Advanced x (some moved)) (some-injective _ _ (sym e ∙ f))
          (inl (omega arith, h.one_up, ground arith)))

  sweep-absent :
      (w : World repo port) (now : ℕ) (es : List DueTimer) (k : Str)
      → All (λ e. e.alert_id ≢ k) es
      → repo.find_one (sweep repo port find_rule w now es).0.alerts k ≡ repo.find_one w.alerts k
  unfolding sweep
  sweep-absent w now [] k h = refl
  sweep-absent w now (e ∷ es) k (h, hs) =
      let done = (process_due_alert repo port find_rule w e.alert_id e.due_at now).0 in
      ap (λ (v : World repo port). repo.find_one v.alerts k) (sweep-next w now e es)
      ∙ sweep-absent done now es k hs
      ∙ Processed-other w e.alert_id e.due_at now k h
          (process-Processed repo port find_rule w e.alert_id e.due_at now)

  sweep-Advanced :
      (w : World repo port) (now : ℕ) (es : List DueTimer) (k : Str) (d : ℕ) (a : AlertEntity)
      → repo.find_one w.alerts k ≡ some a
      → a.status ≡ opened
      → d ≤ now
      → Distinct es
      → Some (λ e. (e.alert_id ≡ k) × (e.due_at ≡ d)) es
      → Advanced a (repo.find_one (sweep repo port find_rule w now es).0.alerts k)
  sweep-Advanced w now [] k d a f o l u h = elim h [ ]
  sweep-Advanced w now (e ∷ es) k d a f o l (u, us) (inl (i, t)) =
      let done = (process_due_alert repo port find_rule w e.alert_id e.due_at now).0 in
      rw (sweep-next w now e es) (
        rw (sweep-absent done now es k (subst (λ x. All (λ g. g.alert_id ≢ x) es) i u)) (
          subst (λ x. Advanced a (repo.find_one done.alerts x)) i
            (Processed-Advanced w e.alert_id e.due_at now a (rw i f) o (omega arith)
              (process-Processed repo port find_rule w e.alert_id e.due_at now))))
  sweep-Advanced w now (e ∷ es) k d a f o l (u, us) (inr h) =
      let done = (process_due_alert repo port find_rule w e.alert_id e.due_at now).0 in
      rw (sweep-next w now e es) (
        sweep-Advanced done now es k d a
          (Processed-other w e.alert_id e.due_at now k (listed-ne es e.alert_id k d u h)
              (process-Processed repo port find_rule w e.alert_id e.due_at now)
            ∙ f)
          o l us h)

  -- A sweep never throws, and a stored open alert whose timer is due goes up its chain by exactly
  -- one level, to ESCALATED when that is the chain's end and staying open otherwise; one that was at
  -- the end already keeps its level and becomes ESCALATED.
  pub tick_escalations-Advanced :
      (w : World repo port) (now : ℕ) (k : Str) (d : ℕ) (a : AlertEntity)
      → repo.find_one w.alerts k ≡ some a
      → a.status ≡ opened
      → port.score w.timers k ≡ some d
      → d ≤ now
      → IsOk (tick_escalations repo port find_rule w now).1
        × Advanced a (repo.find_one (tick_escalations repo port find_rule w now).0.alerts k)
  unfolding tick_escalations
  tick_escalations-Advanced w now k d a f o s l = (
    sweep-IsOk w now (port.due_entries w.timers now),
    sweep-Advanced w now (port.due_entries w.timers now) k d a f o l
        (port.due_entries-distinct w.timers now) (port.due_entries-complete w.timers now k d s l),
  )
