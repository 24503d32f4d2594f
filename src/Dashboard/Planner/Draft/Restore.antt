-- ===== src/Dashboard/Planner/Draft/Restore.antt =====
-- A draft that was saved is restored.
use pawaacdrone_fleet_operat.Common.{
  ℕ, suc, ◌+◌, ◌≢◌, int, ◌≡◌, ◌∙◌, refl, sym, ap, Bool, true, ◌&&◌, ◌==◌, Bool-cases, inl, inr,
  List, [], ◌∷◌, Option, none, some, if◌then◌else◌, Str, codes, ◌===◌, Number, arith,
}
use pawaacdrone_fleet_operat.Missions.{Waypoint}
use pawaacdrone_fleet_operat.Alerts.Rules.{Value, text, property, object_property}
use pawaacdrone_fleet_operat.Dashboard.Planner.{GeoPoint, with_seq, resequence, resequence_from}
use pawaacdrone_fleet_operat.Dashboard.Planner.Draft.{
  TransmissionStatus, idle, pending, failed, submitted, TransmissionState, DraftGeofence,
  MissionDraft, Json, DraftStorage, point_value, waypoint_value, items_of, geofence_value,
  status_text, transmission_value, draft_value, save_draft, mark_failed, increment,
}
use pawaacdrone_fleet_operat.Dashboard.Planner.Draft.Load.{
  every_of, is_lat_lon_number_pair, is_waypoint, is_draft_geofence, status_of,
  is_transmission_state, waypoint_at, waypoints_from, point_of, list_of, geofence_of, resumed,
  transmission_of, is_draft, draft_of, load_draft, status_or_idle,
}

every_waypoint : (wps : List Waypoint) → every_of is_waypoint (items_of waypoint_value wps) ≡ true
unfolding is_waypoint property object_property ◌===◌
every_waypoint [] = refl
every_waypoint (wp ∷ wps) = every_waypoint wps

every_point :
    (points : List GeoPoint) → every_of is_lat_lon_number_pair (items_of point_value points) ≡ true
unfolding is_lat_lon_number_pair
every_point [] = refl
every_point ((a, b) ∷ points) = every_point points

every_geofence :
    (gfs : List DraftGeofence) → every_of is_draft_geofence (items_of geofence_value gfs) ≡ true
unfolding is_draft_geofence property object_property ◌===◌
every_geofence [] = refl
every_geofence (gf ∷ gfs) = rw (every_point gf.polygon) (every_geofence gfs)

status_of-text : (s : TransmissionStatus) → status_of (text (status_text s)) ≡ some s
unfolding status_of ◌===◌
status_of-text idle = refl
status_of-text pending = refl
status_of-text failed = refl
status_of-text submitted = refl

-- Each status and either kind of error is checked, and read back.
abbrev state : TransmissionStatus → Number → Option Str → TransmissionState
state s n e = record { status = s; attempts = n; last_error = e }

abbrev Read : TransmissionState → Type 0
Read t =
    (is_transmission_state (transmission_value t) ≡ true)
    × (transmission_of
          (status_or_idle (status_of (property (transmission_value t) (codes "status"))))
          (transmission_value t)
        ≡ t)

Read-state : (s : TransmissionStatus) (n : Number) (e : Option Str) → Read (state s n e)
unfolding is_transmission_state transmission_of status_of property object_property ◌===◌
Read-state idle n none = (refl, refl)
Read-state idle n (some e) = (refl, refl)
Read-state pending n none = (refl, refl)
Read-state pending n (some e) = (refl, refl)
Read-state failed n none = (refl, refl)
Read-state failed n (some e) = (refl, refl)
Read-state submitted n none = (refl, refl)
Read-state submitted n (some e) = (refl, refl)

resequenced : (k : ℕ) (wp : Waypoint) → (if wp.seq == k then wp else with_seq k wp) ≡ with_seq k wp
resequenced k wp = elim (Bool-cases (wp.seq == k)) [
  | inl e ↦ let q : wp.seq ≡ k = ground arith in rw e (λ i. with_seq (q i) wp)
  | inr e ↦ rw e refl
]

waypoints_back :
    (k : ℕ) (wps : List Waypoint)
    → waypoints_from k (items_of waypoint_value wps) ≡ resequence_from k wps
unfolding waypoints_from waypoint_at resequence_from property object_property ◌===◌
waypoints_back k [] = refl
waypoints_back k (wp ∷ wps) = λ i. sym (resequenced k wp) i ∷ waypoints_back (suc k) wps i

points_back : (points : List GeoPoint) → list_of point_of (items_of point_value points) ≡ points
points_back [] = refl
points_back ((a, b) ∷ points) = ap (λ ps. (a, b) ∷ ps) (points_back points)

geofences_back :
    (gfs : List DraftGeofence) → list_of geofence_of (items_of geofence_value gfs) ≡ gfs
unfolding geofence_of property object_property ◌===◌
geofences_back [] = refl
geofences_back (gf ∷ gfs) =
    λ i. record { name = gf.name; polygon = points_back gf.polygon i } ∷ geofences_back gfs i

-- A submission that was in flight has failed once more.
pub record Interrupted (t t' : TransmissionState) : Type 0 where
  pub status : t'.status ≡ failed
  pub attempts : t'.attempts ≡ increment t.attempts
  pub counted : (n : ℕ) → t.attempts ≡ int n → t'.attempts ≡ int (n + 1)
  pub last_error : t'.last_error ≡ some (codes "Submission was interrupted; please retry.")

-- What a restored draft is of the one that was saved.
pub record Restored (draft draft' : MissionDraft) : Type 0 where
  pub name : draft'.name ≡ draft.name
  pub waypoints : draft'.waypoints ≡ resequence draft.waypoints
  pub geofences : draft'.geofences ≡ draft.geofences
  pub undisturbed : draft.transmission.status ≢ pending → draft'.transmission ≡ draft.transmission
  pub interrupted :
      draft.transmission.status ≡ pending → Interrupted draft.transmission draft'.transmission

resumed-pending : (t : TransmissionState) → t.status ≡ pending → Interrupted t (resumed t)
unfolding mark_failed
resumed-pending t e = rw e (record {
  status = refl;
  attempts = refl;
  counted = λ n q. ap increment q ∙ ap int (omega arith);
  last_error = refl;
})

resumed-other : (t : TransmissionState) → t.status ≢ pending → resumed t ≡ t
resumed-other t n = still t.status refl n
  where
    still : (s : TransmissionStatus) → t.status ≡ s → s ≢ pending → resumed t ≡ t
    still idle e n = rw e refl
    still failed e n = rw e refl
    still submitted e n = rw e refl
    still pending e n = absurd (n refl)

-- The draft as it is restored: numbered anew, and a submission in flight counted as failed.
abbrev restored : MissionDraft → MissionDraft
restored draft = record {
  name = draft.name;
  waypoints = resequence draft.waypoints;
  geofences = draft.geofences;
  transmission = resumed draft.transmission;
}

all_true : {a b c : Bool} → a ≡ true → b ≡ true → c ≡ true → ((a && b) && c) ≡ true
all_true p q r = ground arith

draft_value_passes : (draft : MissionDraft) → is_draft (draft_value draft) ≡ true
unfolding is_draft draft_value property object_property ◌===◌
draft_value_passes draft =
    all_true (every_waypoint draft.waypoints) (every_geofence draft.geofences)
      (Read-state draft.transmission.status draft.transmission.attempts
        draft.transmission.last_error).0

draft_of-draft_value : (draft : MissionDraft) → draft_of (draft_value draft) ≡ restored draft
unfolding draft_of draft_value property object_property ◌===◌ resequence
draft_of-draft_value draft =
    let t = draft.transmission in
    λ i. record {
      name = draft.name;
      waypoints = waypoints_back 0 draft.waypoints i;
      geofences = geofences_back draft.geofences i;
      transmission = resumed ((Read-state t.status t.attempts t.last_error).1 i);
    }

load_passing :
    (io : Json) (storage : DraftStorage) (raw : Str) (v : Value)
    → storage.readable ≡ true
    → storage.item ≡ some raw
    → io.parse raw ≡ some v
    → is_draft v ≡ true
    → load_draft io storage ≡ some (draft_of v)
unfolding load_draft
load_passing io storage raw v r i p d = rw (r) (rw (i) (rw (p) (rw (d) refl)))

save_writable :
    (io : Json) (storage : DraftStorage) (draft : MissionDraft)
    → storage.writable ≡ true
    → save_draft io storage draft ≡ record {
      readable = storage.readable;
      writable = true;
      item = some (io.stringify (draft_value draft));
    }
unfolding save_draft
save_writable io storage draft w = rw (w) refl

restored-Restored : (draft : MissionDraft) → Restored draft (restored draft)
restored-Restored draft = record {
  name = refl;
  waypoints = refl;
  geofences = refl;
  undisturbed = resumed-other draft.transmission;
  interrupted = resumed-pending draft.transmission;
}

-- A draft whose JSON text parses back and that is saved to a storage that can be written and read is
-- loaded with its name and geofences, and its waypoints numbered anew; its transmission is as it was,
-- but a submission in flight has failed, with one more attempt and a message that asks to retry.
pub load_draft-save_draft :
    (io : Json) (storage : DraftStorage) (draft : MissionDraft)
    → io.parse (io.stringify (draft_value draft)) ≡ some (draft_value draft)
    → storage.readable ≡ true
    → storage.writable ≡ true
    → (draft' : MissionDraft) × (load_draft io (save_draft io storage draft) ≡ some draft')
      × Restored draft draft'
load_draft-save_draft io storage draft law r w = (
  restored draft,
  ap (load_draft io) (save_writable io storage draft w)
      ∙ load_passing io _ _ (draft_value draft) r refl law (draft_value_passes draft)
      ∙ ap some (draft_of-draft_value draft),
  restored-Restored draft,
)
