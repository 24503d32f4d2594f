-- ===== src/Missions/Service/History/Stored.antt =====
-- What the store holds once an edit has stored the next version.
use pawaacdrone_fleet_operat.Common.{
  ℕ, zero, suc, ◌≡◌, ◌∙◌, sym, ap, refl, subst, List, [], ◌∷◌, ◌++◌, ◌&&◌, ◌==◌, Option, none, some,
  if◌then◌else◌, Str, Number, ◌===◌, ===_refl, ===_iff, ===_ne, Str-cases, inl, inr, length,
  none-some, arith,
}
use pawaacdrone_fleet_operat.Missions.{Mission, NewMission}
use pawaacdrone_fleet_operat.Missions.Validation.{WaypointValidationError}
use pawaacdrone_fleet_operat.Missions.Store.{
  MissionStore, snapshot, add_version, find_version, find_latest,
}
use pawaacdrone_fleet_operat.Missions.Store.Versions
use pawaacdrone_fleet_operat.Missions.Store.Versions.{
  Logs, Holds, entry, newest, write, create, add, left_by, replay, or_nothing, next_entry,
  Holds-write, find_version-entry, find_latest-newest, add_version-appends,
}
use pawaacdrone_fleet_operat.Missions.Service.{
  UpdateMissionDto, Response, ok, not_found, bad_request, answer, next_content,
}
use pawaacdrone_fleet_operat.Missions.Service.History.{Valid, Good, Good-add}

entry_append :
    (log : List Mission) (new : Mission) (n : ℕ)
    → entry (log ++ (new ∷ [])) n ≡ (if n == suc (length log) then some new else entry log n)
entry_append [] new zero = refl
entry_append [] new (suc zero) = refl
entry_append [] new (suc (suc n)) = ground arith
entry_append (m ∷ log) new zero = ground arith
entry_append (m ∷ log) new (suc zero) = ground arith
entry_append (m ∷ log) new (suc (suc n)) = ground (arith, entry_append log new (suc n))

newest_append : (log : List Mission) (new : Mission) → newest (log ++ (new ∷ [])) ≡ some new
newest_append [] new = refl
newest_append (m ∷ []) new = refl
newest_append (m ∷ n ∷ log) new = newest_append (n ∷ log) new

answer-left_by :
    (missions : MissionStore) (o : Option (Mission × MissionStore))
    → (answer missions o).1 ≡ left_by missions o
answer-left_by missions none = refl
answer-left_by missions (some r) = refl

-- The answer to an edit, and the store that it leaves.
pub data Updated (max_altitude : Number) (missions : MissionStore) (id now : Str)
    (dto : UpdateMissionDto) (r : Response × MissionStore) : Type 0 where
  unknown :
      find_latest missions id ≡ none
      → r ≡ (not_found, missions)
      → Updated max_altitude missions id now dto r
  refused :
      (latest : Mission) (e : WaypointValidationError) (es : List WaypointValidationError)
      → find_latest missions id ≡ some latest
      → ¬ Valid max_altitude (next_content latest dto).waypoints
      → r ≡ (bad_request (e ∷ es), missions)
      → Updated max_altitude missions id now dto r
  stored :
      (latest new : Mission)
      → find_latest missions id ≡ some latest
      → Valid max_altitude (next_content latest dto).waypoints
      → new ≡ snapshot id (suc latest.version) (next_content latest dto) now
      → r.0 ≡ ok new
      → find_latest r.1 id ≡ some new
      → ((j : Str) (n : ℕ)
          → find_version r.1 j n
            ≡ (if id === j && n == suc latest.version then some new else find_version missions j n))
      → Updated max_altitude missions id now dto r

module _ (max_altitude : Number) (missions : MissionStore) (logs : Logs)
    (good : Good max_altitude missions logs) (id now : Str) (dto : UpdateMissionDto) where
  module _ (latest : Mission) (found : find_latest missions id ≡ some latest)
      (valid : Valid max_altitude (next_content latest dto).waypoints) where
    abbrev pub content : NewMission
    content = next_content latest dto

    pub Good-stored :
        Good max_altitude
          (answer missions (add_version missions id now content)).1
          (replay logs (add id now content))
    unfolding write
    Good-stored =
        subst (λ s. Good max_altitude s (replay logs (add id now content)))
          (sym (answer-left_by missions (add_version missions id now content)))
          (Good-add max_altitude missions logs good id now content valid)

    -- The reads of the store after the edit, by the logs.
    module _ (m : Mission) (ms : List Mission) (e : logs id ≡ m ∷ ms) where
      abbrev appended : Mission
      appended = snapshot id (suc (length (m ∷ ms))) content now

      latest_version : latest.version ≡ length (m ∷ ms)
      latest_version =
          (good.sound id (length (m ∷ ms)) latest (
            ap (λ l. entry l (length (m ∷ ms))) e
            ∙ ap newest (sym e)
            ∙ sym (find_latest-newest missions id (logs id) (good.holds id))
            ∙ found)).version

      replay-read :
          (j : Str) (n : ℕ)
          → entry (replay logs (add id now content) j) n ≡ (
              if id === j && n == suc (length (m ∷ ms))
              then some appended
              else find_version missions j n)
      unfolding replay
      replay-read j n = elim (Str-cases id j) [
        | inl q ↦
            let log : logs j ≡ m ∷ ms = ap logs (sym q) ∙ e in
            let old : find_version missions j n ≡ entry (m ∷ ms) n =
              find_version-entry missions j n (logs j) (good.holds j) ∙ ap (λ l. entry l n) log in
            rw ((===_iff id j).1 q, e, old) (entry_append (m ∷ ms) appended n)
        | inr q ↦ rw (===_ne id j q) (sym (find_version-entry missions j n (logs j) (good.holds j)))
      ]

      replay-newest : newest (replay logs (add id now content) id) ≡ some appended
      unfolding replay
      replay-newest = rw (===_refl id, e) (newest_append (m ∷ ms) appended)

      stored_answer :
          Updated max_altitude missions id now dto
            (answer missions (add_version missions id now content))
      stored_answer =
          let good' = Good-stored in
          let response = ap (answer missions) (
            add_version-appends missions id now content m ms appended
              (good.holds id ∙ ap Versions.stored e) refl) in
          stored latest appended found valid
            (ap (λ n. snapshot id (suc n) content now) (sym latest_version))
            (ap (λ r. r.0) response) (find_latest-newest _ id _ (good'.holds id) ∙ replay-newest)
            (λ j n.
              find_version-entry _ j n _ (good'.holds j)
              ∙ replay-read j n
              ∙ ap
                  (λ k. if id === j && n == suc k then some appended else find_version missions j n)
                  (sym latest_version))

    -- A mission that is found has a log.
    pub found_log :
        (log : List Mission)
        → logs id ≡ log
        → Updated max_altitude missions id now dto
            (answer missions (add_version missions id now content))
    found_log [] e = absurd (
        none-some
          (sym (find_latest-newest missions id (logs id) (good.holds id) ∙ ap newest e) ∙ found))
    found_log (m ∷ ms) e = stored_answer m ms e
