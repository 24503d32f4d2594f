-- ===== src/Telemetry/Anomaly/History.antt =====
-- A bounded window finds what the whole history would.
use mathlib.Core.List.{append_assoc, append-nil}
use pawaacdrone_fleet_operat.Common.{
  ℕ, ◌≤◌, ◌≡◌, ◌∙◌, refl, sym, ap, inl, inr, max, List, [], ◌∷◌, ◌++◌, some, if◌then◌else◌,
  Bool-cases, ltb, Str, Str-cases, ◌===◌, ===_iff, ===_ne, Dict, get, put, delete, get-put,
  get-delete, get_or, length, length-append, arith,
}
use pawaacdrone_fleet_operat.Telemetry.{TelemetrySample}
use pawaacdrone_fleet_operat.Telemetry.Anomaly.{
  Runtime, AnomalyThresholds, Anomaly, last, detect_after, detect_anomalies, AnomalyPipeline,
  new_pipeline, push_window, observe, reset,
}

pub data PipelineEvent : Type 0 where
  seen : TelemetrySample → PipelineEvent
  disconnected : Str → PipelineEvent

-- The samples of each drone since its last reset.
abbrev pub Histories : Type 0
Histories = Str → List TelemetrySample

abbrev pub recorded : Histories → TelemetrySample → Histories
recorded h s j = if s.drone_id === j then h s.drone_id ++ (s ∷ []) else h j

abbrev pub forgotten : Histories → Str → Histories
forgotten h id j = if id === j then [] else h j

last-append : (ss : List TelemetrySample) (s : TelemetrySample) → last (ss ++ (s ∷ [])) ≡ some s
unfolding last
last-append [] s = refl
last-append (t ∷ []) s = refl
last-append (t ∷ u ∷ ss) s = last-append (u ∷ ss) s

module _ (size : ℕ) where
  -- A window ends as the history does, within the size.
  pub record Follows (window history : List TelemetrySample) : Type 0 where
    pub newest : last window ≡ last history
    pub bound : length window ≤ max 1 size

  push_window-last :
      (window : List TelemetrySample) (s : TelemetrySample)
      → last (push_window size window s) ≡ some s
  unfolding push_window last
  push_window-last [] s = ground arith
  push_window-last (t ∷ window) s =
      elim (Bool-cases (ltb (max 1 size) (length (t ∷ (window ++ (s ∷ [])))))) [
        | inl e ↦ rw (e) (last-append window s)
        | inr e ↦ rw (e) (last-append (t ∷ window) s)
      ]

  push_window-length :
      (window : List TelemetrySample) (s : TelemetrySample)
      → length window ≤ max 1 size
      → length (push_window size window s) ≤ max 1 size
  unfolding push_window
  push_window-length [] s h = ground arith
  push_window-length (t ∷ window) s h = let longer = length-append window (s ∷ []) in ground arith

  Follows-push :
      (window history : List TelemetrySample) (s : TelemetrySample)
      → Follows window history
      → Follows (push_window size window s) (history ++ (s ∷ []))
  Follows-push window history s f = record {
    newest = push_window-last window s ∙ sym (last-append history s);
    bound = push_window-length window s f.bound;
  }

  abbrev pub AllFollow : Dict (List TelemetrySample) → Histories → Type 0
  AllFollow windows h = (j : Str) → Follows (get_or (get j windows) []) (h j)

  AllFollow-put :
      (windows : Dict (List TelemetrySample)) (h : Histories) (s : TelemetrySample)
      → AllFollow windows h
      → AllFollow
          (put s.drone_id (push_window size (get_or (get s.drone_id windows) []) s) windows)
          (recorded h s)
  AllFollow-put windows h s f j = elim (Str-cases s.drone_id j) [
    | inl e ↦
        rw (get-put s.drone_id j (push_window size (get_or (get s.drone_id windows) []) s) windows)
          (rw ((===_iff s.drone_id j).1 e) (Follows-push _ (h s.drone_id) s (f s.drone_id)))
    | inr n ↦
        rw (get-put s.drone_id j (push_window size (get_or (get s.drone_id windows) []) s) windows)
          (rw (===_ne s.drone_id j n) (f j))
  ]

  AllFollow-delete :
      (windows : Dict (List TelemetrySample)) (h : Histories) (id : Str)
      → AllFollow windows h
      → AllFollow (delete id windows) (forgotten h id)
  AllFollow-delete windows h id f j = elim (Str-cases id j) [
    | inl e ↦
        rw (get-delete id j windows)
          (rw ((===_iff id j).1 e) record { newest = refl; bound = omega arith })
    | inr n ↦ rw (get-delete id j windows) (rw (===_ne id j n) (f j))
  ]

module _ (runtime : Runtime) (thresholds : AnomalyThresholds) (size : ℕ) where
  unfoldable pub step : AnomalyPipeline → PipelineEvent → AnomalyPipeline
  step pipeline (seen s) = (observe runtime thresholds size pipeline s).0
  step pipeline (disconnected id) = reset pipeline id

  unfoldable pub run : AnomalyPipeline → List PipelineEvent → AnomalyPipeline
  unfolding step
  run pipeline [] = pipeline
  run pipeline (e ∷ es) = run (step pipeline e) es

  -- What the detector finds in each sample against the whole history of its drone.
  unfoldable pub expected : Histories → List PipelineEvent → List Anomaly
  expected h [] = []
  expected h (seen s ∷ es) =
      detect_anomalies runtime thresholds s (h s.drone_id) ++ expected (recorded h s) es
  expected h (disconnected id ∷ es) = expected (forgotten h id) es

  detect-Follows :
      (s : TelemetrySample) (window history : List TelemetrySample)
      → Follows size window history
      → detect_anomalies runtime thresholds s window ≡ detect_anomalies runtime thresholds s history
  unfolding detect_anomalies
  detect-Follows s window history f = ap (detect_after runtime thresholds s) f.newest

  run_emits :
      (pipeline : AnomalyPipeline) (h : Histories) (es : List PipelineEvent)
      → AllFollow size pipeline.windows h
      → (run pipeline es).emitted ≡ pipeline.emitted ++ expected h es
  unfolding run step observe reset expected
  run_emits pipeline h [] f = sym (append-nil pipeline.emitted)
  run_emits pipeline h (seen s ∷ es) f =
      run_emits (step pipeline (seen s)) (recorded h s) es
        (AllFollow-put size pipeline.windows h s f)
      ∙ append_assoc pipeline.emitted _ (expected (recorded h s) es)
      ∙ ap (λ found. pipeline.emitted ++ (found ++ expected (recorded h s) es))
          (detect-Follows s _ (h s.drone_id) (f s.drone_id))
  run_emits pipeline h (disconnected id ∷ es) f =
      run_emits (step pipeline (disconnected id)) (forgotten h id) es
        (AllFollow-delete size pipeline.windows h id f)

  run-AllFollow :
      (pipeline : AnomalyPipeline) (h : Histories) (es : List PipelineEvent)
      → AllFollow size pipeline.windows h
      → (h' : Histories) × AllFollow size (run pipeline es).windows h'
  unfolding run step observe reset
  run-AllFollow pipeline h [] f = (h, f)
  run-AllFollow pipeline h (seen s ∷ es) f =
      run-AllFollow (step pipeline (seen s)) (recorded h s) es
        (AllFollow-put size pipeline.windows h s f)
  run-AllFollow pipeline h (disconnected id ∷ es) f =
      run-AllFollow (step pipeline (disconnected id)) (forgotten h id) es
        (AllFollow-delete size pipeline.windows h id f)

  -- Whatever is observed and reset, no window holds more samples than its size (at least 1), and the
  -- emitted anomalies are, in order, those that the detector finds in each sample against the whole
  -- history of its drone since the last reset.
  pub run_emitted :
      (es : List PipelineEvent)
      → ((run (new_pipeline) es).emitted ≡ expected (λ j. []) es)
        × ((id : Str) → length (get_or (get id (run (new_pipeline) es).windows) []) ≤ max 1 size)
  unfolding get
  run_emitted es =
      let start : AllFollow size [] (λ j. []) =
        λ j. record { newest = refl; bound = omega arith } in
      (
        run_emits (new_pipeline) (λ j. []) es start,
        λ id. ((run-AllFollow (new_pipeline) (λ j. []) es start).1 id).bound,
      )
