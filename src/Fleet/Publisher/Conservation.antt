-- ===== src/Fleet/Publisher/Conservation.antt =====
-- No event is lost while the number of attempts is not bounded.
use mathlib.Core.List.{Perm}
use mathlib.Core.List.Perm
use pawaacdrone_fleet_operat.Common.{
  ℕ, ◌≡◌, refl, sym, ap, ◌∙◌, subst, Bool, true, false, not, ◌&&◌, List, [], ◌∷◌, ◌++◌, map, none,
  if◌then◌else◌,
}
use pawaacdrone_fleet_operat.Fleet.Publisher.{
  EventTransport, may_retry, FleetEvent, QueuedEvent, Publisher, event_name, try_deliver, publish,
  flush_pending, flush,
}

perm-middle :
    (xs : List FleetEvent) (a : FleetEvent) (ys : List FleetEvent)
    → Perm (xs ++ (a ∷ ys)) (a ∷ (xs ++ ys))
perm-middle [] a ys = Perm.refl _
perm-middle (x ∷ xs) a ys =
    Perm.trans (Perm.cons x (perm-middle xs a ys)) (Perm.swap a x (xs ++ ys))

map-snoc :
    (queue : List QueuedEvent) (i : QueuedEvent) (rest : List FleetEvent)
    → map (λ j. j.event) (queue ++ (i ∷ [])) ++ rest ≡ map (λ j. j.event) queue ++ (i.event ∷ rest)
map-snoc [] i rest = refl
map-snoc (j ∷ queue) i rest = ap (λ l. j.event ∷ l) (map-snoc queue i rest)

-- An event that is delivered, or queued when it is not, is kept.
kept :
    (b : Bool) (queue : List QueuedEvent) (i : QueuedEvent) (e : FleetEvent)
    (old new : List FleetEvent)
    → i.event ≡ e
    → new ≡ (if b then e ∷ old else old)
    → Perm
        (map (λ j. j.event) (if b then queue else queue ++ (i ∷ [])) ++ new)
        (e ∷ (map (λ j. j.event) queue ++ old))
kept true queue i e old new same h =
    subst (λ l. Perm (map (λ j. j.event) queue ++ l) (e ∷ (map (λ j. j.event) queue ++ old)))
      (sym h) (perm-middle (map (λ j. j.event) queue) _ _)
kept false queue i e old new same h =
    subst (λ l. Perm l (e ∷ (map (λ j. j.event) queue ++ old)))
      (sym (
        ap (λ l. map (λ j. j.event) (queue ++ (i ∷ [])) ++ l) h
        ∙ map-snoc queue i old
        ∙ ap (λ x. map (λ j. j.event) queue ++ (x ∷ old)) same))
      (perm-middle (map (λ j. j.event) queue) _ _)

same_event :
    (b : Bool) (i j : QueuedEvent) → j.event ≡ i.event → (if b then i else j).event ≡ i.event
same_event true i j h = refl
same_event false i j h = h

retry_always {ℓ} :
    {A : Type ℓ} (b : Bool) (n : ℕ) (x y : A)
    → (if not b && may_retry none n then x else y) ≡ (if b then y else x)
retry_always true n x y = refl
retry_always false n x y = refl

module _ (transport : EventTransport) where
  -- What a publisher is told to do: publish an event, or flush its queue.
  pub data Command : Type 0 where
    to_publish : FleetEvent → Command
    to_flush : Command

  unfoldable pub run : Publisher transport → List Command → Publisher transport
  unfolding publish flush
  run p [] = p
  run p (to_publish e ∷ commands) = run (publish transport p e).0 commands
  run p (to_flush ∷ commands) = run (flush transport none p) commands

  abbrev pub published : List Command → List FleetEvent
  published [] = []
  published (to_publish e ∷ commands) = e ∷ published commands
  published (to_flush ∷ commands) = published commands

  -- The events that were delivered or wait in the queue.
  abbrev pub known : Publisher transport → List FleetEvent
  known p = map (λ i. i.event) p.1 ++ transport.accepted p.0

  try_deliver-known :
      (s : transport.State) (queue : List QueuedEvent) (i : QueuedEvent)
      → Perm
          (known (
            (try_deliver transport s i).0,
            if (try_deliver transport s i).1
                then queue
                else queue ++ ((try_deliver transport s i).2 ∷ []),
          ))
          (i.event ∷ known (s, queue))
  unfolding try_deliver
  try_deliver-known s queue i =
      kept (transport.emit s (event_name i.event) i.event).1 queue _ i.event _ _
        (same_event (transport.emit s (event_name i.event) i.event).1 i _ refl)
        (transport.accepted-emit s (event_name i.event) i.event)

  publish-known :
      (p : Publisher transport) (e : FleetEvent)
      → Perm (known (publish transport p e).0) (e ∷ known p)
  unfolding publish
  publish-known (s, queue) e = try_deliver-known s queue _

  flush_pending-known :
      (p : Publisher transport) (pending : List QueuedEvent)
      → Perm
          (known (flush_pending transport none p pending))
          (map (λ i. i.event) pending ++ known p)
  unfolding flush_pending
  flush_pending-known (s, queue) [] = Perm.refl _
  flush_pending-known (s, queue) (item ∷ pending) =
      let tried = try_deliver transport s item in
      Perm.trans
        (flush_pending-known
          (
            tried.0,
            if not tried.1 && may_retry none tried.2.attempts
                then queue ++ (tried.2 ∷ [])
                else queue,
          )
          pending)
        (Perm.trans
          (Perm.append_left (map (λ i. i.event) pending) (
            subst (λ q. Perm (known (tried.0, q)) (item.event ∷ known (s, queue)))
              (sym (retry_always tried.1 tried.2.attempts _ _)) (try_deliver-known s queue item)))
          (perm-middle (map (λ i. i.event) pending) _ _))

  -- With no bound on the attempts, whatever the transport refuses and whatever is published and
  -- flushed: the events delivered or in the queue afterwards are, up to their order, those before and
  -- those published, each once. So no event is lost and none delivered twice.
  pub run-conserves :
      (p : Publisher transport) (commands : List Command)
      → Perm (known (run p commands)) (published commands ++ known p)
  unfolding run flush
  run-conserves p [] = Perm.refl _
  run-conserves p (to_publish e ∷ commands) =
      Perm.trans (run-conserves (publish transport p e).0 commands) (
        Perm.trans (Perm.append_left (published commands) (publish-known p e))
          (perm-middle (published commands) _ _))
  run-conserves (s, queue) (to_flush ∷ commands) =
      Perm.trans (run-conserves (flush transport none (s, queue)) commands)
        (Perm.append_left (published commands) (flush_pending-known (s, []) queue))
