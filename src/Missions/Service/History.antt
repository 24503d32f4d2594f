-- ===== src/Missions/Service/History.antt =====
-- What the mission service keeps true of its store over any sequence of requests.
pub mod Stored
pub mod Edits
use mathlib.Core.List.{Perm}
use pawaacdrone_fleet_operat.Common.{
  ℕ, zero, suc, ◌+◌, ◌≡◌, ◌⊎◌, inl, inr, ◌∙◌, sym, ap, refl, subst, subst₂, List, [], ◌∷◌, ◌++◌,
  map, Option, none, some, if◌then◌else◌, Bool-cases, Str, Number, some_inj, ◌===◌, ===_iff, ===_ne,
  Str-cases, get, length, get_elem?, All, range, sort, sort_eq, sort-range, map-sort_by,
  sort_by-length, sort_by-All, get_or, arith,
}
use pawaacdrone_fleet_operat.Missions.{Waypoint, Mission, NewMission}
use pawaacdrone_fleet_operat.Missions.Validation.{WaypointValidationError, validate_waypoints}
use pawaacdrone_fleet_operat.Missions.Validation.Ranges.{InRange, validate_waypoints_iff}
use pawaacdrone_fleet_operat.Missions.Store.{
  MissionStore, snapshot, normalize_waypoints, create_version, add_version, find_version,
  find_latest,
}
use pawaacdrone_fleet_operat.Missions.Store.Versions.{
  Logs, Holds, entry, newest, stored, write, create, add, replay, or_nothing, next_entry,
  Holds-write, find_version-entry, find_latest-newest,
}
use pawaacdrone_fleet_operat.Missions.Service.{
  CreateMissionDto, UpdateMissionDto, Response, ok, not_found, bad_request, assert_valid,
  first_content, next_content, create_mission, update_mission,
}

abbrev pub seq_of : Waypoint → ℕ
seq_of wp = wp.seq

pub data Request : Type 0 where
  post : Str → Str → CreateMissionDto → Request
  put : Str → Str → UpdateMissionDto → Request

unfoldable pub handle : Number → MissionStore → Request → MissionStore
handle max_altitude missions (post id now dto) = (create_mission max_altitude missions id now dto).1
handle max_altitude missions (put id now dto) = (update_mission max_altitude missions id now dto).1

unfoldable pub handle_all : Number → MissionStore → List Request → MissionStore
unfolding handle
handle_all max_altitude missions [] = missions
handle_all max_altitude missions (r ∷ rs) =
    handle_all max_altitude (handle max_altitude missions r) rs

-- The waypoints that validation accepts.
abbrev pub Valid : Number → List Waypoint → Type 0
Valid max_altitude wps =
    All (InRange max_altitude) wps × Perm (map seq_of wps) (range 0 (length wps))

-- A version as it may be read: its own identity, waypoints within range, in order from 0.
pub record Sound (max_altitude : Number) (i : Str) (n : ℕ) (m : Mission) : Type 0 where
  pub id : m.id ≡ i
  pub version : m.version ≡ n
  pub ranges : All (InRange max_altitude) m.waypoints
  pub order : map seq_of m.waypoints ≡ range 0 (length m.waypoints)

pub Sound-snapshot :
    (max_altitude : Number) (id now : Str) (n : ℕ) (input : NewMission)
    → Valid max_altitude input.waypoints
    → Sound max_altitude id n (snapshot id n input now)
unfolding snapshot normalize_waypoints
Sound-snapshot max_altitude id now n input (r, p) = record {
  id = refl;
  version = refl;
  ranges = sort_by-All seq_of (InRange max_altitude) input.waypoints r;
  order =
      map-sort_by seq_of input.waypoints
      ∙ sort_eq p
      ∙ sort-range 0 (length input.waypoints)
      ∙ ap (range 0) (sym (sort_by-length seq_of input.waypoints));
}

-- The store stands for logs of sound versions.
pub record Good (max_altitude : Number) (missions : MissionStore) (logs : Logs) : Type 0 where
  pub holds : Holds missions logs
  pub sound : (j : Str) (n : ℕ) (m : Mission) → entry (logs j) n ≡ some m → Sound max_altitude j n m

entry_none : (n : ℕ) (m : Mission) → entry [] n ≡ some m → ⊥
entry_none zero m h = ground arith
entry_none (suc n) m h = ground arith

pub appended_cases :
    (log : List Mission) (new m : Mission) (n : ℕ)
    → entry (log ++ (new ∷ [])) n ≡ some m
    → (entry log n ≡ some m) ⊎ ((n ≡ suc (length log)) × (new ≡ m))
appended_cases log new m zero h = absurd (ground arith)
appended_cases [] new m (suc zero) h = inr (refl, ground arith)
appended_cases [] new m (suc (suc i)) h = absurd (ground arith)
appended_cases (x ∷ log) new m (suc zero) h = inl h
appended_cases (x ∷ log) new m (suc (suc i)) h = elim (appended_cases log new m (suc i) h) [
  | inl e ↦ inl e
  | inr (e, f) ↦ inr (ap suc e, f)
]

-- Validation answers nothing to valid waypoints, and 400 with the errors to others.
pub data Checked (max_altitude : Number) (wps : List Waypoint) : Type 0 where
  accepted :
      assert_valid max_altitude wps ≡ none → Valid max_altitude wps → Checked max_altitude wps
  rejected :
      (e : WaypointValidationError) (es : List WaypointValidationError)
      → assert_valid max_altitude wps ≡ some (bad_request (e ∷ es))
      → ¬ Valid max_altitude wps
      → Checked max_altitude wps

assert_valid-check :
    (max_altitude : Number) (wps : List Waypoint) (errors : List WaypointValidationError)
    → validate_waypoints wps max_altitude ≡ errors
    → Checked max_altitude wps
unfolding assert_valid
assert_valid-check max_altitude wps [] h =
    accepted (rw (h, assert_valid) refl) ((validate_waypoints_iff max_altitude wps).0 h)
assert_valid-check max_altitude wps (e ∷ es) h =
    rejected e es (rw (h, assert_valid) refl)
      λ v. let none_found = (validate_waypoints_iff max_altitude wps).1 v in cc

pub assert_valid-Checked : (max_altitude : Number) (wps : List Waypoint) → Checked max_altitude wps
assert_valid-Checked max_altitude wps = assert_valid-check max_altitude wps _ refl

module _ (max_altitude : Number) (missions : MissionStore) (logs : Logs)
    (good : Good max_altitude missions logs) (id : Str) where
  -- The log of one mission is replaced by another sound one.
  Sound-replace :
      (log : List Mission)
      → ((n : ℕ) (m : Mission) → entry log n ≡ some m → Sound max_altitude id n m)
      → (j : Str) (n : ℕ) (m : Mission) → entry (if id === j then log else logs j) n ≡ some m
      → Sound max_altitude j n m
  Sound-replace log s j n m h = elim (Str-cases id j) [
    | inl q ↦
        subst (λ i. Sound max_altitude i n m) q
          (s n m (subst (λ b. entry (if b then log else logs j) n ≡ some m) ((===_iff id j).1 q) h))
    | inr q ↦
        good.sound j n m
          (subst (λ b. entry (if b then log else logs j) n ≡ some m) (===_ne id j q) h)
  ]

  module _ (now : Str) (input : NewMission) (valid : Valid max_altitude input.waypoints) where
    Sound-first :
        (n : ℕ) (m : Mission)
        → entry (snapshot id 1 input now ∷ []) n ≡ some m
        → Sound max_altitude id n m
    Sound-first zero m h = absurd (ground arith)
    Sound-first (suc zero) m h =
        subst (Sound max_altitude id 1) (some_inj h)
          (Sound-snapshot max_altitude id now 1 input valid)
    Sound-first (suc (suc n)) m h = absurd (ground arith)

    pub Good-create :
        Good max_altitude (write missions (create id now input)) (replay logs (create id now input))
    unfolding replay
    Good-create = record {
      holds = Holds-write missions logs (create id now input) good.holds;
      sound = Sound-replace (snapshot id 1 input now ∷ []) Sound-first;
    }

    Sound-append :
        (log : List Mission) (n : ℕ) (m : Mission)
        → logs id ≡ log
        → entry (log ++ or_nothing (next_entry id now input log)) n ≡ some m
        → Sound max_altitude id n m
    Sound-append [] n m e h = absurd (entry_none n m h)
    Sound-append (l ∷ log) n m e h = elim (appended_cases (l ∷ log) _ m n h) [
      | inl k ↦ good.sound id n m (rw e k)
      | inr (k, f) ↦
          subst₂ (Sound max_altitude id) (sym k) f
            (Sound-snapshot max_altitude id now _ input valid)
    ]

    pub Good-add :
        Good max_altitude (write missions (add id now input)) (replay logs (add id now input))
    unfolding replay
    Good-add = record {
      holds = Holds-write missions logs (add id now input) good.holds;
      sound = Sound-replace _ (λ n m. Sound-append (logs id) n m refl);
    }

pub Good-empty : (max_altitude : Number) → Good max_altitude [] (λ j. [])
unfolding get
Good-empty max_altitude = record { holds = λ j. refl; sound = λ j n m h. absurd (entry_none n m h) }
