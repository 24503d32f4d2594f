-- ===== src/Dashboard/AlertFeed/Ranks.antt =====
-- What the feed shows of an alert does not go back.
use pawaacdrone_fleet_operat.Common.{
  ◌⊎◌, ◌||◌, ◌≤◌, ◌≡◌, ◌∙◌, refl, sym, ap, subst, inl, inr, Bool, true, false, List, [], ◌∷◌, none,
  some, Option-cases, if◌then◌else◌, Bool-cases, Str, Str-cases, get, put, get-put_self,
  get-put_other, some_inj, none-some, All, arith,
}
use pawaacdrone_fleet_operat.Alerts.{
  AlertStatus, opened, acknowledged, escalated, closed, status_eq, Alert,
}
use pawaacdrone_fleet_operat.Dashboard.AlertFeed.{
  AlertFeedItem, AlertFeedState, status_rank, item, is_newer_alert, apply_new_alert, apply_ack,
  begin_acknowledge, fail_acknowledge, is_actionable,
}

pub data FeedEvent : Type 0 where
  new ack : Alert → FeedEvent
  begin fail : Str → FeedEvent

unfoldable pub feed : AlertFeedState → FeedEvent → AlertFeedState
feed state (new alert) = apply_new_alert state alert
feed state (ack alert) = apply_ack state alert
feed state (begin id) = begin_acknowledge state id
feed state (fail id) = fail_acknowledge state id

unfoldable pub feed_all : AlertFeedState → List FeedEvent → AlertFeedState
unfolding feed
feed_all state [] = state
feed_all state (e ∷ es) = feed_all (feed state e) es

-- An acknowledgement update carries an acknowledged or a closed alert.
abbrev pub Settling : FeedEvent → Type 0
Settling (ack alert) = (alert.status ≡ acknowledged) ⊎ (alert.status ≡ closed)
Settling _ = Unit

settled_rank :
    (s : AlertStatus) → (status_eq s opened || status_eq s escalated) ≡ false → 2 ≤ status_rank s
unfolding status_eq
settled_rank opened h = ground arith
settled_rank escalated h = ground arith
settled_rank acknowledged h = omega arith
settled_rank closed h = omega arith

rank_settled :
    (s : AlertStatus) → 2 ≤ status_rank s → (status_eq s opened || status_eq s escalated) ≡ false
unfolding status_eq
rank_settled opened h = absurd (omega arith)
rank_settled escalated h = absurd (omega arith)
rank_settled acknowledged h = refl
rank_settled closed h = refl

newer_rank : (a b : Alert) → is_newer_alert a b ≡ true → status_rank a.status ≤ status_rank b.status
unfolding is_newer_alert
newer_rank a b h = ground arith

ack_rank : (alert : Alert) → Settling (ack alert) → 2 ≤ status_rank alert.status
ack_rank alert (inl e) = rw e (omega arith)
ack_rank alert (inr e) = rw e (omega arith)

module _ (id : Str) where
  -- The feed shows the alert as acknowledged or closed.
  abbrev Settled : AlertFeedState → Type 0
  Settled state =
      (it : AlertFeedItem) × (get id state ≡ some it) × (2 ≤ status_rank it.alert.status)

  module _ (state : AlertFeedState) (settled : Settled state) where
    either_Settled :
        (b : Bool) (other : AlertFeedState)
        → Settled state
        → Settled other
        → Settled (if b then state else other)
    either_Settled true other h k = h
    either_Settled false other h k = k

    Settled-put :
        (j : Str) (it : AlertFeedItem)
        → (j ≡ id → 2 ≤ status_rank it.alert.status)
        → Settled (put j it state)
    Settled-put j it h = elim (Str-cases j id) [
      | inl e ↦ (it, subst (λ k. get k (put j it state) ≡ some it) e (get-put_self j it state), h e)
      | inr n ↦ (settled.0, get-put_other j id it state n ∙ settled.1, settled.2)
    ]

    -- The item under the alert's identifier is the settled one.
    same_rank :
        (j : Str) (it : AlertFeedItem)
        → get j state ≡ some it
        → j ≡ id
        → 2 ≤ status_rank it.alert.status
    same_rank j it g e =
        subst (λ (x : AlertFeedItem). 2 ≤ status_rank x.alert.status)
          (some_inj (sym settled.1 ∙ ap (λ k. get k state) (sym e) ∙ g)) settled.2

    absent : {X : Type 0} (j : Str) → get j state ≡ none → j ≡ id → X
    absent j g e = absurd (none-some (sym g ∙ ap (λ k. get k state) e ∙ settled.1))

    Settled-new : (alert : Alert) → Settled (apply_new_alert state alert)
    unfolding apply_new_alert
    Settled-new alert = elim (Option-cases (get alert.id state)) [
      | inl e ↦
          rw (e, apply_new_alert)
            (Settled-put alert.id (item alert false) (λ q. absent alert.id e q))
      | inr (it, e) ↦ elim (Bool-cases (is_newer_alert it.alert alert)) [
        | inl n ↦
            rw (e, apply_new_alert)
              (rw (n) (
                Settled-put alert.id (item alert it.acknowledging) (λ q.
                  let rank = newer_rank it.alert alert n in
                  let old = same_rank alert.id it e q in omega arith)))
        | inr n ↦ rw (e, apply_new_alert) (rw (n) settled)
      ]
    ]

    Settled-ack : (alert : Alert) → 2 ≤ status_rank alert.status → Settled (apply_ack state alert)
    unfolding apply_ack
    Settled-ack alert h = elim (Option-cases (get alert.id state)) [
      | inl e ↦ rw (e, apply_ack) (Settled-put alert.id (item alert false) (λ q. h))
      | inr (it, e) ↦
          rw (e, apply_ack)
            (either_Settled _ _ settled (Settled-put alert.id (item alert false) (λ q. h)))
    ]

    Settled-begin : (j : Str) → Settled (begin_acknowledge state j)
    unfolding begin_acknowledge
    Settled-begin j = elim (Option-cases (get j state)) [
      | inl e ↦ rw (e, begin_acknowledge) settled
      | inr (it, e) ↦
          rw (e, begin_acknowledge)
            (either_Settled _ _ settled (Settled-put j (item it.alert true) (same_rank j it e)))
    ]

    Settled-fail : (j : Str) → Settled (fail_acknowledge state j)
    unfolding fail_acknowledge
    Settled-fail j = elim (Option-cases (get j state)) [
      | inl e ↦ rw (e, fail_acknowledge) settled
      | inr (it, e) ↦
          rw (e, fail_acknowledge)
            (either_Settled _ _ settled (Settled-put j (item it.alert false) (same_rank j it e)))
    ]

  Settled-feed :
      (state : AlertFeedState) (e : FeedEvent) → Settled state → Settling e → Settled (feed state e)
  unfolding feed
  Settled-feed state (new alert) h s = Settled-new state h alert
  Settled-feed state (ack alert) h s = Settled-ack state h alert (ack_rank alert s)
  Settled-feed state (begin j) h s = Settled-begin state h j
  Settled-feed state (fail j) h s = Settled-fail state h j

  Settled-feed_all :
      (state : AlertFeedState) (es : List FeedEvent)
      → Settled state
      → All Settling es
      → Settled (feed_all state es)
  unfolding feed_all
  Settled-feed_all state [] h s = h
  Settled-feed_all state (e ∷ es) h (s, ss) =
      Settled-feed_all (feed state e) es (Settled-feed state e h s) ss

-- Once the feed shows an alert as acknowledged or closed it shows it as not actionable for good,
-- whatever is pushed, begun or failed later, as long as acknowledgement updates carry acknowledged
-- or closed alerts.
pub feed_all-settled :
    (state : AlertFeedState) (es : List FeedEvent) (id : Str) (it : AlertFeedItem)
    → All Settling es
    → get id state ≡ some it
    → is_actionable it ≡ false
    → (it' : AlertFeedItem) × (get id (feed_all state es) ≡ some it') × (is_actionable it' ≡ false)
unfolding is_actionable
feed_all-settled state es id it s g h =
    let (it', g', r) = Settled-feed_all id state es (it, g, settled_rank it.alert.status h) s in
    (it', g', rank_settled it'.alert.status r)
