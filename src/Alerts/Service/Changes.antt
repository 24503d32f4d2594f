-- ===== src/Alerts/Service/Changes.antt =====
-- How a stored alert may change, and which dispatches are its own.
use pawaacdrone_fleet_operat.Common.{
  ℕ, ◌≤◌, ◌≡◌, refl, sym, ap, ◌∙◌, Option, none, some, Str, arith, List, [], ◌∷◌, ◌++◌, true, false,
  filter, ◌===◌,
}
use pawaacdrone_fleet_operat.Alerts.{Alert, Channel, opened, acknowledged, escalated, AlertStatus}
use pawaacdrone_fleet_operat.Alerts.Escalation.{legal_transition, AckDecision}
use pawaacdrone_fleet_operat.Alerts.Escalation.Laws.{Legal, Legal-refl, Legal-trans, Answers}
use pawaacdrone_fleet_operat.Alerts.Ports.{AlertEntity}

pub opened-ne-acknowledged : ¬ (opened ≡ acknowledged)
opened-ne-acknowledged e = cc

some-ne-none : {a : AlertEntity} → ¬ (some a ≡ none)
some-ne-none e = cc

-- How a stored alert may change.
pub record Moves (a b : AlertEntity) : Type 0 where
  pub same_id : b.id ≡ a.id
  pub same_rule : b.rule_id ≡ a.rule_id
  pub legal : Legal a.status b.status
  pub grows : a.escalation_level ≤ b.escalation_level
  pub frozen : a.status ≡ acknowledged → b ≡ a

Moves-refl : (a : AlertEntity) → Moves a a
Moves-refl a = record {
  same_id = refl;
  same_rule = refl;
  legal = Legal-refl a.status;
  grows = omega arith;
  frozen = λ _. refl;
}

Moves-trans : (a b c : AlertEntity) → Moves a b → Moves b c → Moves a c
Moves-trans a b c h k = record {
  same_id = k.same_id ∙ h.same_id;
  same_rule = k.same_rule ∙ h.same_rule;
  legal = Legal-trans a.status b.status c.status h.legal k.legal;
  grows = omega arith;
  frozen = λ s. k.frozen (ap (λ (x : AlertEntity). x.status) (h.frozen s) ∙ s) ∙ h.frozen s;
}

pub opened-Moves :
    (a : AlertEntity) (t : AlertStatus) (l : ℕ)
    → a.status ≡ opened
    → Legal a.status t
    → a.escalation_level ≤ l
    → Moves a (record a { status = t; escalation_level = l })
opened-Moves a t l o h g = record {
  same_id = refl;
  same_rule = refl;
  legal = h;
  grows = g;
  frozen = λ s. absurd (opened-ne-acknowledged (sym o ∙ s));
}

-- A stored alert stays stored.
abbrev pub Change : Option AlertEntity → Option AlertEntity → Type 0
Change none o = Unit
Change (some a) none = ⊥
Change (some a) (some b) = Moves a b

pub Change-refl : (o : Option AlertEntity) → Change o o
Change-refl none = tt
Change-refl (some a) = Moves-refl a

pub Change-trans : (o p q : Option AlertEntity) → Change o p → Change p q → Change o q
Change-trans none p q h k = tt
Change-trans (some a) (some b) (some c) h k = Moves-trans a b c h k
Change-trans (some a) none q h k = elim h [ ]
Change-trans (some a) (some b) none h k = elim k [ ]

-- The dispatches of one alert.
abbrev pub sent_for : Str → List (Alert × List Channel) → List (Alert × List Channel)
sent_for j = filter (λ s. s.0.id === j)

pub sent_for-append :
    (j : Str) (xs : List (Alert × List Channel)) (x : Alert × List Channel)
    → (x.0.id === j) ≡ false
    → sent_for j (xs ++ x ∷ []) ≡ sent_for j xs
sent_for-append j [] x h = rw h
sent_for-append j (y ∷ ys) x h = ground (arith, sent_for-append j ys x h)

pub opened-Legal : (a : AlertEntity) → a.status ≡ opened → Legal a.status escalated
unfolding legal_transition
opened-Legal a o = ground arith

pub status_clash :
    (a b : AlertEntity)
    → a.status ≡ opened
    → b.status ≡ acknowledged
    → some a ≡ some b
    → opened ≡ acknowledged
status_clash a b o s e = cc

pub acknowledged-Moves :
    (a : AlertEntity) (t : AlertStatus) (user : Str) (now : ℕ)
    → Answers a.status (AckDecision.acknowledge t)
    → Moves a (record a { status = t; acknowledged_at = some now; acknowledged_by = some user })
acknowledged-Moves a t user now h = record {
  same_id = refl;
  same_rule = refl;
  legal = h.1;
  grows = omega arith;
  frozen = λ s. absurd (h.2 (s ∙ sym h.0));
}

pub Change-of_none : (o p : Option AlertEntity) → o ≡ none → Change o p
Change-of_none none p e = tt
Change-of_none (some a) p e = absurd (some-ne-none e)

pub from_Change :
    (a : AlertEntity) (o : Option AlertEntity)
    → Change (some a) o
    → (b : AlertEntity) × (o ≡ some b)
      × (b.rule_id ≡ a.rule_id)
      × (legal_transition a.status b.status ≡ true)
      × (a.escalation_level ≤ b.escalation_level)
from_Change a none h = elim h [ ]
from_Change a (some b) h = (b, refl, h.same_rule, h.legal, h.grows)

pub Change-frozen :
    (a : AlertEntity) (o : Option AlertEntity)
    → Change (some a) o
    → a.status ≡ acknowledged
    → o ≡ some a
Change-frozen a none h s = elim h [ ]
Change-frozen a (some b) h s = ap some (h.frozen s)
