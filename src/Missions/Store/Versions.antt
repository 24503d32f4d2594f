-- ===== src/Missions/Store/Versions.antt =====
-- The mission store promises a log for each mission: version n is the n-th entry, an edit appends,
-- and nothing that was written changes.
use pawaacdrone_fleet_operat.Common.{
  ℕ, zero, suc, ◌+◌, ◌<◌, ◌≡◌, ◌∙◌, sym, ap, refl, List, [], ◌∷◌, ◌++◌, Option, none, some,
  if◌then◌else◌, Bool-cases, inl, inr, Str, ◌===◌, ===_iff, ===_ne, Str-cases, get, put, get-put,
  length, get_elem?, arith,
}
use pawaacdrone_fleet_operat.Missions.{Mission, NewMission}
use pawaacdrone_fleet_operat.Missions.Store.{
  MissionStore, VersionMap, snapshot, get_version, set_version, max_version, create_version,
  append_version, latest_of, add_version, find_version, find_latest,
}

pub data Write : Type 0 where
  create add : Str → Str → NewMission → Write

-- A refused write leaves the store.
abbrev pub left_by : MissionStore → Option (Mission × MissionStore) → MissionStore
left_by missions none = missions
left_by missions (some r) = r.1

unfoldable pub write : MissionStore → Write → MissionStore
write missions (create id now input) = (create_version missions id now input).1
write missions (add id now input) = left_by missions (add_version missions id now input)

unfoldable pub write_all : MissionStore → List Write → MissionStore
unfolding write
write_all missions [] = missions
write_all missions (w ∷ ws) = write_all (write missions w) ws

-- The specification: the versions of each mission in the order they were written.
abbrev pub Logs : Type 0
Logs = Str → List Mission

-- The version that an edit adds to a log: none to an empty one.
abbrev pub next_entry : Str → Str → NewMission → List Mission → Option Mission
next_entry id now input [] = none
next_entry id now input (m ∷ ms) = some (snapshot id (suc (length (m ∷ ms))) input now)

abbrev pub or_nothing : Option Mission → List Mission
or_nothing none = []
or_nothing (some m) = m ∷ []

unfoldable pub replay : Logs → Write → Logs
replay logs (create id now input) j = if id === j then snapshot id 1 input now ∷ [] else logs j
replay logs (add id now input) j =
    if id === j then logs id ++ or_nothing (next_entry id now input (logs id)) else logs j

unfoldable pub replay_all : Logs → List Write → Logs
unfolding replay
replay_all logs [] = logs
replay_all logs (w ∷ ws) = replay_all (replay logs w) ws

-- Versions are counted from 1.
abbrev pub entry : List Mission → ℕ → Option Mission
entry log zero = none
entry log (suc i) = get_elem? log i

abbrev pub newest : List Mission → Option Mission
newest log = entry log (length log)

-- How a log stands in the store.
unfoldable pub numbered : ℕ → List Mission → VersionMap
numbered k [] = []
numbered k (m ∷ ms) = (k, m) ∷ numbered (suc k) ms

abbrev pub stored : List Mission → Option VersionMap
stored [] = none
stored (m ∷ ms) = some (numbered 1 (m ∷ ms))

abbrev pub Holds : MissionStore → Logs → Type 0
Holds missions logs = (j : Str) → get j missions ≡ stored (logs j)

max_version-numbered :
    (k : ℕ) (m : Mission) (ms : List Mission) → max_version (numbered k (m ∷ ms)) ≡ k + length ms
unfolding max_version numbered
max_version-numbered k m [] = ground arith
max_version-numbered k m (n ∷ ms) = ground (arith, max_version-numbered (suc k) n ms)

set_version-numbered :
    (k i : ℕ) (m : Mission) (log : List Mission)
    → i ≡ k + length log
    → set_version i m (numbered k log) ≡ numbered k (log ++ (m ∷ []))
unfolding set_version numbered
set_version-numbered k i m [] e = ground arith
set_version-numbered k i m (n ∷ log) e =
    ground (arith, set_version-numbered (suc k) i m log (omega arith))

get_version-numbered :
    (k i n : ℕ) (log : List Mission) → n ≡ k + i → get_version n (numbered k log) ≡ get_elem? log i
unfolding get_version numbered
get_version-numbered k i n [] e = refl
get_version-numbered k zero n (m ∷ log) e = ground arith
get_version-numbered k (suc i) n (m ∷ log) e =
    ground (arith, get_version-numbered (suc k) i n log (omega arith))

get_version-below : (k n : ℕ) (log : List Mission) → n < k → get_version n (numbered k log) ≡ none
unfolding get_version numbered
get_version-below k n [] h = refl
get_version-below k n (m ∷ log) h = ground (arith, get_version-below (suc k) n log (omega arith))

get_version-entry : (n : ℕ) (log : List Mission) → get_version n (numbered 1 log) ≡ entry log n
get_version-entry zero log = get_version-below 1 0 log (omega arith)
get_version-entry (suc i) log = get_version-numbered 1 i (suc i) log (omega arith)

latest_of-numbered :
    (m : Mission) (ms : List Mission) → latest_of (numbered 1 (m ∷ ms)) ≡ newest (m ∷ ms)
unfolding latest_of
latest_of-numbered m ms =
    ap (λ n. get_version n (numbered 1 (m ∷ ms))) (max_version-numbered 1 m ms)
    ∙ get_version-numbered 1 (length ms) (1 + length ms) (m ∷ ms) (omega arith)

module _ (missions : MissionStore) (id : Str) where
  pub find_version-entry :
      (n : ℕ) (log : List Mission)
      → get id missions ≡ stored log
      → find_version missions id n ≡ entry log n
  unfolding find_version
  find_version-entry zero [] e = rw (e, find_version) refl
  find_version-entry (suc n) [] e = rw (e, find_version) refl
  find_version-entry n (m ∷ ms) e = rw (e, find_version) (get_version-entry n (m ∷ ms))

  pub find_latest-newest :
      (log : List Mission) → get id missions ≡ stored log → find_latest missions id ≡ newest log
  unfolding find_latest numbered
  find_latest-newest [] e = rw (e, find_latest) refl
  find_latest-newest (m ∷ ms) e = rw (e, find_latest) (latest_of-numbered m ms)

  module _ (now : Str) (input : NewMission) where
    add_version-refused : get id missions ≡ none → add_version missions id now input ≡ none
    unfolding add_version
    add_version-refused e = rw (e, add_version) refl

    append_version-set :
        (n : ℕ) (versions : VersionMap)
        → max_version versions + 1 ≡ n
        → append_version missions id now input versions ≡ (
          snapshot id n input now,
          put id (set_version n (snapshot id n input now) versions) missions,
        )
    unfolding append_version
    append_version-set n versions e = rw (e, append_version) refl

    pub add_version-appends :
        (m : Mission) (ms : List Mission) (new : Mission)
        → get id missions ≡ stored (m ∷ ms)
        → snapshot id (suc (length (m ∷ ms))) input now ≡ new
        → add_version missions id now input
          ≡ some (new, put id (numbered 1 ((m ∷ ms) ++ (new ∷ []))) missions)
    unfolding add_version numbered
    add_version-appends m ms new e f = rw (e, add_version) (ap some (set ∙ ap pair appended))
      where
        pair : VersionMap → Mission × MissionStore
        pair versions = (new, put id versions missions)

        set :
            append_version missions id now input (numbered 1 (m ∷ ms))
            ≡ pair (set_version (suc (length (m ∷ ms))) new (numbered 1 (m ∷ ms)))
        set =
            append_version-set (suc (length (m ∷ ms))) (numbered 1 (m ∷ ms))
              (omega (arith, max_version-numbered 1 m ms))
            ∙ ap
                (λ x. (
                  x,
                  put id (set_version (suc (length (m ∷ ms))) x (numbered 1 (m ∷ ms))) missions,
                ))
                f

        appended :
            set_version (suc (length (m ∷ ms))) new (numbered 1 (m ∷ ms))
            ≡ numbered 1 ((m ∷ ms) ++ (new ∷ []))
        appended = set_version-numbered 1 _ new (m ∷ ms) (omega arith)

module _ (missions : MissionStore) (logs : Logs) (h : Holds missions logs) (id : Str) where
  Holds-put :
      (m : Mission) (ms : List Mission) (j : Str)
      → get j (put id (numbered 1 (m ∷ ms)) missions) ≡ stored (if id === j then m ∷ ms else logs j)
  Holds-put m ms j =
      get-put id j _ missions
      ∙ elim (Bool-cases (id === j)) [ inl e ↦ rw e refl | inr e ↦ rw e (h j) ]

  Holds-add :
      (now : Str) (input : NewMission) (j : Str) (log : List Mission)
      → logs id ≡ log
      → get j (write missions (add id now input)) ≡ stored (replay logs (add id now input) j)
  unfolding write replay
  Holds-add now input j [] e =
      ap (λ o. get j (left_by missions o))
        (add_version-refused missions id now input (h id ∙ ap stored e))
      ∙ h j
      ∙ elim (Str-cases id j) [
        | inl q ↦ rw (ap logs (sym q), (===_iff id j).1 q, e) refl
        | inr q ↦ rw (===_ne id j q) refl
      ]
  Holds-add now input j (m ∷ ms) e =
      ap (λ o. get j (left_by missions o))
        (add_version-appends missions id now input m ms _ (h id ∙ ap stored e) refl)
      ∙ Holds-put m _ j
      ∙ elim (Str-cases id j) [
        | inl q ↦ rw ((===_iff id j).1 q, e) refl
        | inr q ↦ rw (===_ne id j q) refl
      ]

-- One write keeps the store at the log.
pub Holds-write :
    (missions : MissionStore) (logs : Logs) (w : Write)
    → Holds missions logs
    → Holds (write missions w) (replay logs w)
unfolding write replay create_version numbered
Holds-write missions logs (create id now input) h j =
    Holds-put missions logs h id (snapshot id 1 input now) [] j
Holds-write missions logs (add id now input) h j =
    Holds-add missions logs h id now input j (logs id) refl

Holds-write_all :
    (missions : MissionStore) (logs : Logs) (ws : List Write)
    → Holds missions logs
    → Holds (write_all missions ws) (replay_all logs ws)
unfolding write_all replay_all
Holds-write_all missions logs [] h = h
Holds-write_all missions logs (w ∷ ws) h =
    Holds-write_all (write missions w) (replay logs w) ws (Holds-write missions logs w h)

-- After any writes to an empty store, each mission reads as its log: version n is the n-th version
-- written, the latest is the last one, and there is no other.
pub write_all_refines :
    (ws : List Write) (id : Str) (n : ℕ)
    → (find_version (write_all [] ws) id n ≡ entry (replay_all (λ j. []) ws id) n)
      × (find_latest (write_all [] ws) id ≡ newest (replay_all (λ j. []) ws id))
unfolding get
write_all_refines ws id n =
    let held = Holds-write_all [] (λ j. []) ws (λ j. refl) id in
    (find_version-entry _ id n _ held, find_latest-newest _ id _ held)
