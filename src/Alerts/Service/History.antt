-- ===== src/Alerts/Service/History.antt =====
-- Histories: any sequence of created alerts, acknowledgements and sweeps.
use pawaacdrone_fleet_operat.Common.{
  ℕ, ◌≤◌, ◌≡◌, refl, sym, ap, ◌∙◌, subst₂, Option, none, some, Str, arith, Option-cases, List, [],
  ◌∷◌, true, Bool-cases, inl, inr, ◌===◌, ===_iff,
}
use pawaacdrone_fleet_operat.Alerts.{opened, acknowledged, escalated}
use pawaacdrone_fleet_operat.Alerts.Escalation.{
  legal_transition, noop, illegal, AckDecision, NextStep,
}
use pawaacdrone_fleet_operat.Alerts.Escalation.Laws.{IsStep, Answers, decide_acknowledge-Answers}
use pawaacdrone_fleet_operat.Alerts.Ports.{
  AlertEntity, AlertRuleEntity, Repository, TimerPort, DueTimer,
}
use pawaacdrone_fleet_operat.Alerts.Service.{
  World, Result, ok, err, EscalationAction, create_alert, acknowledge, acknowledge_found,
  store_acknowledged, sweep, after_entry, tick_escalations, CreateAlertInput, tick_input,
  process_due_alert, store_escalated, to_alert,
}
use pawaacdrone_fleet_operat.Alerts.Service.Steps.{
  Processed, orphan, settled, early, ended, climbed, process-Processed, apply_transition-ok,
  IsStep-Legal,
}
use pawaacdrone_fleet_operat.Alerts.Service.Changes.{
  opened-ne-acknowledged, Moves, opened-Moves, Change, Change-refl, Change-trans, sent_for,
  sent_for-append, opened-Legal, status_clash, acknowledged-Moves, Change-of_none, from_Change,
  Change-frozen,
}

module _ (repo : Repository) (port : TimerPort) where
  pub save-Change :
      (r : repo.Rows) (a b : AlertEntity) (k j : Str)
      → repo.find_one r k ≡ some a
      → Moves a b
      → Change (repo.find_one r j) (repo.find_one (repo.save r b) j)
  save-Change r a b k j e m = elim (Bool-cases (b.id === j)) [
    | inl hit ↦
        let same : k ≡ j =
          sym (repo.find_one-id r k a e) ∙ sym m.same_id ∙ (===_iff b.id j).0 hit in
        rw (repo.find_one-save r b j, hit, ← same, e) m
    | inr miss ↦ rw (repo.find_one-save r b j, miss) (Change-refl _)
  ]

  -- What a part of the program does to alert `j` and to its dispatches.
  pub record Effect (j : Str) (w w' : World repo port) : Type 0 where
    pub changes : Change (repo.find_one w.alerts j) (repo.find_one w'.alerts j)
    pub silent :
        (a : AlertEntity)
        → repo.find_one w.alerts j ≡ some a
        → a.status ≡ acknowledged
        → sent_for j w'.sent ≡ sent_for j w.sent

  Effect-trans : (j : Str) (u v w : World repo port) → Effect j u v → Effect j v w → Effect j u w
  Effect-trans j u v w h k = record {
    changes = Change-trans _ _ _ h.changes k.changes;
    silent = λ a e s. later a e s (repo.find_one v.alerts j) refl;
  }
    where
      later :
          (a : AlertEntity)
          → repo.find_one u.alerts j ≡ some a
          → a.status ≡ acknowledged
          → (o : Option AlertEntity) → repo.find_one v.alerts j ≡ o
          → sent_for j w.sent ≡ sent_for j u.sent
      later a e s none f = absurd (subst₂ Change e f h.changes)
      later a e s (some b) f =
          let m : Moves a b = subst₂ Change e f h.changes in
          k.silent b f (ap (λ (x : AlertEntity). x.status) (m.frozen s) ∙ s) ∙ h.silent a e s

  Effect-refl : (j : Str) (w : World repo port) → Effect j w w
  Effect-refl j w = record { changes = Change-refl _; silent = λ _ _ _. refl }

module _ (repo : Repository) (port : TimerPort) (find_rule : Str → Option AlertRuleEntity) where
  tick_open :
      (a : AlertEntity) (due now : ℕ) (n : NextStep)
      → IsStep (tick_input repo port find_rule a due now) n
      → a.status ≡ opened
  unfolding tick_input
  tick_open a due now n h = h.was_open

  tick_grows :
      (a : AlertEntity) (due now : ℕ) (n : NextStep)
      → IsStep (tick_input repo port find_rule a due now) n
      → a.escalation_level ≤ n.next_level
  unfolding tick_input
  tick_grows a due now n h = omega arith

  Processed-Effect :
      (w : World repo port) (k : Str) (due now : ℕ) (j : Str)
      {r : World repo port × Result (Option EscalationAction)}
      → Processed repo port find_rule w k due now r
      → Effect repo port j w r.0
  unfolding store_escalated
  Processed-Effect w k due now j (orphan e) = record {
    changes = Change-refl _;
    silent = λ _ _ _. refl;
  }
  Processed-Effect w k due now j (settled a e s) = record {
    changes = Change-refl _;
    silent = λ _ _ _. refl;
  }
  Processed-Effect w k due now j (early a e s l) = record {
    changes = Change-refl _;
    silent = λ _ _ _. refl;
  }
  Processed-Effect w k due now j (ended a act e s l) = record {
    changes =
        save-Change repo port w.alerts a _ k j e
          (opened-Moves a escalated a.escalation_level s (opened-Legal a s) (omega arith));
    silent = λ _ _ _. refl;
  }
  Processed-Effect w k due now j (climbed a n e h) = record {
    changes = save-Change repo port w.alerts a _ k j e (
        opened-Moves a n.next_status n.next_level (tick_open a due now n h)
          (IsStep-Legal repo port find_rule a due now n h) (tick_grows a due now n h));
    silent = λ b f s. elim (Bool-cases (a.id === j)) [
      | inl hit ↦
          let same : k ≡ j = sym (repo.find_one-id w.alerts k a e) ∙ (===_iff a.id j).0 hit in
          let both : some a ≡ some b = sym e ∙ ap (repo.find_one w.alerts) same ∙ f in
          absurd (opened-ne-acknowledged (status_clash a b (tick_open a due now n h) s both))
      | inr miss ↦ unfold store_escalated to_alert in sent_for-append j w.sent _ miss
    ];
  }

  process-Effect :
      (w : World repo port) (k : Str) (due now : ℕ) (j : Str)
      → Effect repo port j w (process_due_alert repo port find_rule w k due now).0
  process-Effect w k due now j =
      Processed-Effect w k due now j (process-Processed repo port find_rule w k due now)

  pub after_entry_world :
      (P : World repo port → Type 0) (d : World repo port × Result (Option EscalationAction))
      (rest : World repo port × Result (List EscalationAction))
      → P d.0
      → P rest.0
      → P (after_entry repo port find_rule d rest).0
  unfolding after_entry
  after_entry_world P (w, err e) rest p q = p
  after_entry_world P (w, ok none) rest p q = q
  after_entry_world P (w, ok (some a)) (v, ok actions) p q = q
  after_entry_world P (w, ok (some a)) (v, err e) p q = q

  sweep-Effect :
      (w : World repo port) (now : ℕ) (es : List DueTimer) (j : Str)
      → Effect repo port j w (sweep repo port find_rule w now es).0
  unfolding sweep
  sweep-Effect w now [] j = Effect-refl repo port j w
  sweep-Effect w now (e ∷ es) j =
      let first = process-Effect w e.alert_id e.due_at now j in
      let done = process_due_alert repo port find_rule w e.alert_id e.due_at now in
      after_entry_world (λ v. Effect repo port j w v) done _ first
        (Effect-trans repo port j w done.0 _ first (sweep-Effect done.0 now es j))

  stored-Effect :
      (w : World repo port) (k user : Str) (now : ℕ) (a : AlertEntity) (d : AckDecision) (j : Str)
      → repo.find_one w.alerts k ≡ some a
      → Answers a.status d
      → Effect repo port j w (acknowledge_found repo port find_rule w k user now a d).0
  unfolding acknowledge_found store_acknowledged
  stored-Effect w k user now a noop j e h = Effect-refl repo port j w
  stored-Effect w k user now a illegal j e h = Effect-refl repo port j w
  stored-Effect w k user now a (AckDecision.acknowledge t) j e h =
      rw (apply_transition-ok a t h.1) (record {
        changes = save-Change repo port w.alerts a _ k j e (acknowledged-Moves a t user now h);
        silent = λ _ _ _. refl;
      })

  acknowledge-Effect :
      (w : World repo port) (k user : Str) (now : ℕ) (j : Str)
      → Effect repo port j w (acknowledge repo port find_rule w k user now).0
  unfolding acknowledge
  acknowledge-Effect w k user now j = elim (Option-cases (repo.find_one w.alerts k)) [
    | inl gone ↦ rw (gone, acknowledge) (Effect-refl repo port j w)
    | inr (a, e) ↦
        rw (e, acknowledge)
          (stored-Effect w k user now a _ j e (decide_acknowledge-Answers a.status))
  ]

  save_new-Change :
      (r : repo.Rows) (b : AlertEntity) (j : Str)
      → repo.find_one r b.id ≡ none
      → Change (repo.find_one r j) (repo.find_one (repo.save r b) j)
  save_new-Change r b j fresh = elim (Bool-cases (b.id === j)) [
    | inl hit ↦ Change-of_none _ _ (ap (repo.find_one r) (sym ((===_iff b.id j).0 hit)) ∙ fresh)
    | inr miss ↦ rw (repo.find_one-save r b j, miss) (Change-refl _)
  ]

  create-Effect :
      (w : World repo port) (k : Str) (input : CreateAlertInput) (now : ℕ) (j : Str)
      → repo.find_one w.alerts k ≡ none
      → Effect repo port j w (create_alert repo port find_rule w k input now).0
  unfolding create_alert
  create-Effect w k input now j fresh = record {
    changes = save_new-Change w.alerts _ j fresh;
    silent = λ _ _ _. refl;
  }

  -- One call of the service. The database gives a new alert an id that no alert has.
  pub data Step (w : World repo port) : World repo port → Type 0 where
    create :
        (new_id : Str) (input : CreateAlertInput) (now : ℕ)
        → repo.find_one w.alerts new_id ≡ none
        → Step w (create_alert repo port find_rule w new_id input now).0
    acknowledges :
        (alert_id user_id : Str) (now : ℕ)
        → Step w (acknowledge repo port find_rule w alert_id user_id now).0
    ticks : (now : ℕ) → Step w (tick_escalations repo port find_rule w now).0

  Step-Effect : (j : Str) {u v : World repo port} → Step u v → Effect repo port j u v
  unfolding tick_escalations
  Step-Effect j {u} (create new_id input now fresh) = create-Effect u new_id input now j fresh
  Step-Effect j {u} (acknowledges k user now) = acknowledge-Effect u k user now j
  Step-Effect j {u} (ticks now) = sweep-Effect u now (port.due_entries u.timers now) j

-- The rules, as a look-up by their id.
abbrev pub Rules : Type 0
Rules = Str → Option AlertRuleEntity

module _ (repo : Repository) (port : TimerPort) where
  -- Calls one after another, each under the rules that are stored when it is made, the last first:
  -- a rule may be created or replaced between any two calls.
  pub data Reach (w : World repo port) : List Rules → World repo port → Type 0 where
    here : Reach w [] w
    next :
        {rules : List Rules} {u v : World repo port} (find_rule : Rules)
        → Reach w rules u
        → Step repo port find_rule u v
        → Reach w (find_rule ∷ rules) v

  pub Reach-Effect :
      (j : Str) {u : World repo port} {rules : List Rules} {v : World repo port}
      → Reach u rules v
      → Effect repo port j u v
  Reach-Effect j {u = u} here = Effect-refl repo port j u
  Reach-Effect j {u = u} (next {u = m} {v} find_rule r s) =
      Effect-trans repo port j u m v (Reach-Effect j r) (Step-Effect repo port find_rule j s)

  -- Whatever calls are made, in whatever order and under whatever rules, a stored alert stays stored
  -- under its rule, its status only moves along legal transitions, and its level never falls.
  pub history-Change :
      {u : World repo port} {rules : List Rules} {v : World repo port} (j : Str) (a : AlertEntity)
      → Reach u rules v
      → repo.find_one u.alerts j ≡ some a
      → (b : AlertEntity) × (repo.find_one v.alerts j ≡ some b)
        × (b.rule_id ≡ a.rule_id)
        × (legal_transition a.status b.status ≡ true)
        × (a.escalation_level ≤ b.escalation_level)
  history-Change j a r e = from_Change a _ (rw e at (Reach-Effect j r).changes)

  -- Once acknowledged, an alert is never touched again: after any history, also if rules are edited
  -- in it, its record is the same, to the level, actor and time, and nothing more was dispatched for
  -- it.
  pub history_acknowledged :
      {u : World repo port} {rules : List Rules} {v : World repo port} (j : Str) (a : AlertEntity)
      → Reach u rules v
      → repo.find_one u.alerts j ≡ some a
      → a.status ≡ acknowledged
      → (repo.find_one v.alerts j ≡ some a) × (sent_for j v.sent ≡ sent_for j u.sent)
  history_acknowledged j a r e s =
      (Change-frozen a _ (rw e at (Reach-Effect j r).changes) s, (Reach-Effect j r).silent a e s)
