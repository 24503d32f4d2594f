-- ===== src/Dashboard/Planner/Tests.antt =====
-- The mission planner at concrete inputs.
use pawaacdrone_fleet_operat.Common.{
  ℕ, ◌≡◌, ◌↔◌, refl, num_eq, true, List, [], ◌∷◌, map, none, some, All, range, length, Number, pos,
  int, codes,
}
use pawaacdrone_fleet_operat.Missions.{Waypoint}
use pawaacdrone_fleet_operat.Missions.Validation.{validate_waypoints}
use pawaacdrone_fleet_operat.Missions.Validation.Ranges.{InRange}
use pawaacdrone_fleet_operat.Dashboard.Planner.{
  LatLon, Params, add_waypoint, remove_waypoint, reorder_waypoints, resequence, resequence_from,
  close_ring, is_closed_ring,
}
use pawaacdrone_fleet_operat.Dashboard.Planner.Sequence.{
  Edit, add, remove, reorder, edit, edit_all, edit_all-validate,
}
use pawaacdrone_fleet_operat.Dashboard.Planner.Draft.{
  MissionDraft, pending, Json, DraftStorage, draft_value, save_draft,
}
use pawaacdrone_fleet_operat.Dashboard.Planner.Draft.Load.{load_draft}
use pawaacdrone_fleet_operat.Dashboard.Planner.Draft.Restore.{Restored, load_draft-save_draft}

abbrev at : ℕ → LatLon
at n = record { lat = int n; lon = int n }

abbrev defaults : Params
defaults = record { altitude = none; speed = none; gimbal_angle = none; loiter_time = none }

abbrev edits : List Edit
edits =
    add (at 1) defaults
    ∷ add (at 2) defaults
    ∷ add (at 3) defaults
    ∷ remove 0
    ∷ reorder (pos 1) (pos 0)
    ∷ []

edit_all_test :
    map {B = ℕ × Number} (λ (wp : Waypoint). (wp.seq, wp.lat)) (edit_all [] edits)
    ≡ (0, int 3) ∷ (1, int 2) ∷ []
unfolding edit_all edit add_waypoint remove_waypoint reorder_waypoints resequence resequence_from
edit_all_test = refl

edit_all-validate_example :
    (map (λ (wp : Waypoint). wp.seq) (edit_all [] edits) ≡ range 0 (length (edit_all [] edits)))
    × ((validate_waypoints (edit_all [] edits) (int 500) ≡ [])
        ↔ All (InRange (int 500)) (edit_all [] edits))
edit_all-validate_example = edit_all-validate (int 500) edits

abbrev draft : MissionDraft
draft = record {
  name = codes "north";
  waypoints = edit_all [] edits;
  geofences = record { name = codes "zone"; polygon = (int 1, int 2) ∷ [] } ∷ [];
  transmission = record { status = pending; attempts = int 1; last_error = none };
}

abbrev storage : DraftStorage
storage = record { readable = true; writable = true; item = none }

abbrev one_text : Json
one_text = record { stringify = λ v. codes "draft"; parse = λ s. some (draft_value draft) }

load_draft-save_draft_example :
    (loaded : MissionDraft) × (load_draft one_text (save_draft one_text storage draft)
      ≡ some loaded)
    × Restored draft loaded
load_draft-save_draft_example = load_draft-save_draft one_text storage draft refl refl refl

-- A triangle is closed by its first point.
close_ring_test :
    close_ring ((int 0, int 0) ∷ (int 1, int 0) ∷ (int 0, int 1) ∷ [])
    ≡ some ((int 0, int 0) ∷ (int 1, int 0) ∷ (int 0, int 1) ∷ (int 0, int 0) ∷ [])
unfolding close_ring is_closed_ring num_eq
close_ring_test = refl
