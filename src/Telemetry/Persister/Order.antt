-- ===== src/Telemetry/Persister/Order.antt =====
-- What reaches the store: samples within bounds, those of a drone in strictly increasing time.
use mathlib.Core.List.{append_assoc, append-nil}
use pawaacdrone_fleet_operat.Common.{
  ℕ, ◌<◌, ◌≤◌, ◌≡◌, inl, inr, refl, sym, ap, ◌∙◌, subst, subst₂, Bool, true, false, not, List, [],
  ◌∷◌, ◌++◌, Option, none, some, Str, All, All-append, map_All, length, leb, if◌then◌else◌, get,
  put, get-put_self, get-put_other, Str-cases, ◌===◌, ===_refl, ===_ne, arith, Bool-cases,
}
use pawaacdrone_fleet_operat.Telemetry.{TelemetrySample}
use pawaacdrone_fleet_operat.Telemetry.Bounds.{accept, accept_at, is_late, is_within_bounds}
use pawaacdrone_fleet_operat.Telemetry.Persister.{
  PersistDecision, BatchingPersister, new_persister, flush, buffer, admit, drain, offer,
}

abbrev pub Ascending : List ℕ → Type 0
Ascending [] = Unit
Ascending (x ∷ xs) = All (λ y. x < y) xs × Ascending xs

All-prefix {κ} : {A : Type 0} (P : A → Type κ) (xs ys : List A) → All P (xs ++ ys) → All P xs
All-prefix P [] ys h = tt
All-prefix P (x ∷ xs) ys (h, k) = (h, All-prefix P xs ys k)

Ascending-prefix : (xs ys : List ℕ) → Ascending (xs ++ ys) → Ascending xs
Ascending-prefix [] ys h = tt
Ascending-prefix (x ∷ xs) ys (h, k) = (All-prefix _ xs ys h, Ascending-prefix xs ys k)

Ascending-snoc :
    (xs : List ℕ) (t : ℕ) → Ascending xs → All (λ y. y < t) xs → Ascending (xs ++ (t ∷ []))
Ascending-snoc [] t h b = (tt, tt)
Ascending-snoc (x ∷ xs) t (h, k) (a, b) =
    (All-append _ xs (t ∷ []) h (a, tt), Ascending-snoc xs t k b)

kept_if {κ} :
    {A : Type 0} (P : A → Type κ) (b : Bool) (x y : A)
    → (b ≡ true → P x)
    → (b ≡ false → P y)
    → P (if b then x else y)
kept_if P true x y h k = h refl
kept_if P false x y h k = k refl

not-false : (b : Bool) → not b ≡ false → b ≡ true
not-false true h = refl
not-false false h = absurd (ground arith)

module _ (parse_date : Str → Option ℕ) where
  abbrev time_of : Option ℕ → List ℕ → List ℕ
  time_of none rest = rest
  time_of (some t) rest = t ∷ rest

  -- The times of a drone's samples, in their order.
  abbrev pub times : Str → List TelemetrySample → List ℕ
  times j [] = []
  times j (s ∷ ss) = if s.drone_id === j then time_of (parse_date s.ts) (times j ss) else times j ss

  time_of-append : (o : Option ℕ) (xs ys : List ℕ) → time_of o xs ++ ys ≡ time_of o (xs ++ ys)
  time_of-append none xs ys = refl
  time_of-append (some t) xs ys = refl

  if-append :
      (b : Bool) (xs ys zs : List ℕ)
      → (if b then xs else ys) ++ zs ≡ (if b then xs ++ zs else ys ++ zs)
  if-append true xs ys zs = refl
  if-append false xs ys zs = refl

  times-append :
      (j : Str) (xs ys : List TelemetrySample) → times j (xs ++ ys) ≡ times j xs ++ times j ys
  times-append j [] ys = refl
  times-append j (s ∷ xs) ys =
      ap (λ r. if s.drone_id === j then time_of (parse_date s.ts) r else r) (times-append j xs ys)
      ∙ ap (λ r. if s.drone_id === j then r else times j xs ++ times j ys)
          (sym (time_of-append (parse_date s.ts) (times j xs) (times j ys)))
      ∙ sym (
          if-append (s.drone_id === j) (time_of (parse_date s.ts) (times j xs)) (times j xs)
            (times j ys))

  -- What the gate knows of a drone bounds its times.
  abbrev InOrder : Option ℕ → List ℕ → Type 0
  InOrder none ts = ts ≡ []
  InOrder (some last) ts = Ascending ts × All (λ t. t ≤ last) ts

  InOrder-prefix : (o : Option ℕ) (xs ys : List ℕ) → InOrder o (xs ++ ys) → InOrder o xs
  InOrder-prefix none [] ys h = refl
  InOrder-prefix none (x ∷ xs) ys h = absurd (ground arith)
  InOrder-prefix (some last) xs ys (h, k) = (Ascending-prefix xs ys h, All-prefix _ xs ys k)

  InOrder-snoc :
      (o : Option ℕ) (xs : List ℕ) (t : ℕ)
      → is_late o t ≡ false
      → InOrder o xs
      → InOrder (some t) (xs ++ (t ∷ []))
  InOrder-snoc none xs t n h =
      subst (λ l. InOrder (some t) (l ++ (t ∷ []))) (sym h) ((tt, tt), (omega arith, tt))
  InOrder-snoc (some last) xs t n (h, k) = (
    Ascending-snoc xs t h (map_All (λ y b. ground (arith, n, b)) xs k),
    All-append _ xs (t ∷ []) (map_All (λ y b. ground (arith, n, b)) xs k) (omega arith, tt),
  )

  -- The samples written and waiting are within bounds, and those of each drone in order.
  pub record IsOrdered (p : BatchingPersister) : Type 0 where
    pub bounded : All (λ s. is_within_bounds s ≡ true) (p.written ++ p.pending)
    pub ordered : (j : Str) → InOrder (get j p.gate) (times j (p.written ++ p.pending))

  offered-IsOrdered :
      (p : BatchingPersister) (s : TelemetrySample) (ms : ℕ)
      → IsOrdered p
      → is_within_bounds s ≡ true
      → parse_date s.ts ≡ some ms
      → is_late (get s.drone_id p.gate) ms ≡ false
      → IsOrdered (record p { gate = put s.drone_id ms p.gate; pending = p.pending ++ (s ∷ []) })
  offered-IsOrdered p s ms o within e n = record {
    bounded =
        subst (All (λ x. is_within_bounds x ≡ true)) (append_assoc p.written p.pending (s ∷ []))
          (All-append _ (p.written ++ p.pending) (s ∷ []) o.bounded (within, tt));
    ordered = λ j.
        subst (λ l. InOrder (get j (put s.drone_id ms p.gate)) (times j l))
          (append_assoc p.written p.pending (s ∷ []))
          (subst (InOrder (get j (put s.drone_id ms p.gate)))
            (sym (times-append j (p.written ++ p.pending) (s ∷ []))) (last_time j));
  }
    where
      last_time :
          (j : Str)
          → InOrder
              (get j (put s.drone_id ms p.gate))
              (times j (p.written ++ p.pending) ++ times j (s ∷ []))
      last_time j = elim (Str-cases s.drone_id j) [
        | inl same ↦
            subst
              (λ i.
                InOrder (get i (put s.drone_id ms p.gate))
                  (times i (p.written ++ p.pending) ++ times i (s ∷ [])))
              same
              (subst₂ InOrder (sym (get-put_self s.drone_id ms p.gate))
                (ap (λ l. times s.drone_id (p.written ++ p.pending) ++ l)
                  (sym (
                    ap (λ b. if b then time_of (parse_date s.ts) [] else []) (===_refl s.drone_id)
                    ∙ ap (λ x. time_of x []) e)))
                (InOrder-snoc _ _ ms n (o.ordered s.drone_id)))
        | inr other ↦
            subst₂ InOrder (sym (get-put_other s.drone_id j ms p.gate other))
              (sym (
                ap
                  (λ b.
                    times j (p.written ++ p.pending)
                    ++ (if b then time_of (parse_date s.ts) [] else []))
                  (===_ne s.drone_id j other)
                ∙ append-nil (times j (p.written ++ p.pending))))
              (o.ordered j)
      ]

  flush_if-IsOrdered :
      (b : Bool) (p : BatchingPersister) → IsOrdered p → IsOrdered (if b then flush p else p)
  unfolding flush
  flush_if-IsOrdered true p o = record { bounded = o.bounded; ordered = o.ordered }
  flush_if-IsOrdered false p o = o

  admit-IsOrdered :
      (batch_size : ℕ) (p : BatchingPersister) (s : TelemetrySample) (o : Option ℕ)
      → parse_date s.ts ≡ o
      → IsOrdered p
      → is_within_bounds s ≡ true
      → IsOrdered (admit batch_size p s (accept_at p.gate s.drone_id o)).0
  unfolding buffer
  admit-IsOrdered batch_size p s none e o within = record {
    bounded = o.bounded;
    ordered = o.ordered;
  }
  admit-IsOrdered batch_size p s (some ms) e o within =
      elim (Bool-cases (is_late (get s.drone_id p.gate) ms)) [
        | inl late ↦
            subst
              (λ b.
                IsOrdered
                  (admit batch_size p s
                    (if b then (p.gate, false) else (put s.drone_id ms p.gate, true))).0)
              (sym late) (record { bounded = o.bounded; ordered = o.ordered })
        | inr next ↦
            subst
              (λ b.
                IsOrdered
                  (admit batch_size p s
                    (if b then (p.gate, false) else (put s.drone_id ms p.gate, true))).0)
              (sym next) (flush_if-IsOrdered _ _ (offered-IsOrdered p s ms o within e next))
      ]

  module _ (batch_size : ℕ) where
    -- What happens to a persister: a sample is offered, a flush is asked for by the timer or at the
    -- stop, or a chained drain runs, whose insertion resolves or rejects.
    pub data Step (p : BatchingPersister) : BatchingPersister → Type 0 where
      offered : (s : TelemetrySample) → Step p (offer parse_date batch_size p s).0
      asked : Step p (flush p)
      drained : (resolves : Bool) → 1 ≤ p.flushes → Step p (drain resolves p)

    pub data Reach (p : BatchingPersister) : BatchingPersister → Type 0 where
      here : Reach p p
      next : {q r : BatchingPersister} → Reach p q → Step q r → Reach p r

    drain-IsOrdered :
        (resolves : Bool) (p : BatchingPersister) → IsOrdered p → IsOrdered (drain resolves p)
    unfolding drain
    drain-IsOrdered resolves p o =
        kept_if IsOrdered (leb (length p.pending) 0) _ _
          (λ _. record { bounded = o.bounded; ordered = o.ordered })
          (λ _.
            kept_if IsOrdered resolves _ _
              (λ _. record {
                bounded =
                    subst (All (λ x. is_within_bounds x ≡ true))
                      (sym (append-nil (p.written ++ p.pending))) o.bounded;
                ordered = λ j.
                    subst (λ l. InOrder (get j p.gate) (times j l))
                      (sym (append-nil (p.written ++ p.pending))) (o.ordered j);
              })
              (λ _. record {
                bounded =
                    subst (All (λ x. is_within_bounds x ≡ true)) (sym (append-nil p.written))
                      (All-prefix _ p.written p.pending o.bounded);
                ordered = λ j.
                    subst (λ l. InOrder (get j p.gate) (times j l)) (sym (append-nil p.written))
                      (InOrder-prefix (get j p.gate) (times j p.written) (times j p.pending) (
                        subst (InOrder (get j p.gate)) (times-append j p.written p.pending)
                          (o.ordered j)));
              }))

    offer-IsOrdered :
        (p : BatchingPersister) (s : TelemetrySample)
        → IsOrdered p
        → IsOrdered (offer parse_date batch_size p s).0
    unfolding offer accept
    offer-IsOrdered p s o =
        kept_if {A = BatchingPersister × PersistDecision} (λ r. IsOrdered r.0)
          (not (is_within_bounds s)) _ _ (λ _. record { bounded = o.bounded; ordered = o.ordered })
          (λ h. admit-IsOrdered batch_size p s (parse_date s.ts) refl o (not-false _ h))

    Reach-keeps : {p q : BatchingPersister} → Reach p q → IsOrdered p → IsOrdered q
    unfolding flush
    Reach-keeps here o = o
    Reach-keeps (next r (offered s)) o = offer-IsOrdered _ s (Reach-keeps r o)
    Reach-keeps (next r asked) o =
        let k = Reach-keeps r o in record { bounded = k.bounded; ordered = k.ordered }
    Reach-keeps (next r (drained resolves h)) o = drain-IsOrdered resolves _ (Reach-keeps r o)

    -- Whatever samples are offered and however the drains run and fail, every sample that was
    -- written or waits to be is within bounds, and the times of each drone's samples among them, in
    -- the order they are written, strictly increase.
    pub Reach-IsOrdered : (p : BatchingPersister) → Reach new_persister p → IsOrdered p
    unfolding get
    Reach-IsOrdered p r = Reach-keeps r (record { bounded = tt; ordered = λ j. refl })
