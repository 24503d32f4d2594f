-- ===== src/Dashboard/Planner/Sequence.antt =====
-- The waypoints that the planner edits keep their sequence numbers in order.
use mathlib.Core.List.{Perm}
use mathlib.Core.List.Perm
use pawaacdrone_fleet_operat.Common.{
  ℕ, suc, ◌+◌, ◌≡◌, ◌↔◌, refl, subst, Bool, true, false, ◌||◌, List, [], ◌∷◌, ◌++◌, map, none, some,
  if◌then◌else◌, ◌==◌, leb, Number, ℤ, pos, negsuc, length, get_elem?, All, range, arith,
}
use pawaacdrone_fleet_operat.Missions.{Waypoint}
use pawaacdrone_fleet_operat.Missions.Validation.{validate_waypoints}
use pawaacdrone_fleet_operat.Missions.Validation.Ranges.{InRange, validate_waypoints_iff}
use pawaacdrone_fleet_operat.Dashboard.Planner.{
  LatLon, Params, Patch, resequence_from, resequence, add_waypoint, change_at, moved_to, patched,
  move_waypoint, update_waypoint, remove_waypoint, remove_at, insert_at, reorder_waypoints,
}

pub data Edit : Type 0 where
  add : LatLon → Params → Edit
  move : ℕ → LatLon → Edit
  update : ℕ → Patch → Edit
  remove : ℕ → Edit
  reorder : ℤ → ℤ → Edit

unfoldable pub edit : List Waypoint → Edit → List Waypoint
edit wps (add position overrides) = add_waypoint wps position overrides
edit wps (move seq position) = move_waypoint wps seq position
edit wps (update seq patch) = update_waypoint wps seq patch
edit wps (remove seq) = remove_waypoint wps seq
edit wps (reorder i j) = reorder_waypoints wps i j

unfoldable pub edit_all : List Waypoint → List Edit → List Waypoint
unfolding edit
edit_all wps [] = wps
edit_all wps (e ∷ es) = edit_all (edit wps e) es

abbrev seq_of : Waypoint → ℕ
seq_of wp = wp.seq

-- The sequence numbers are `k`, `k + 1`, ... in the order of the list.
pub InOrder : ℕ → List Waypoint → Type 0
InOrder k [] = Unit
InOrder k (wp ∷ wps) = (wp.seq ≡ k) × InOrder (suc k) wps

InOrder-range :
    (k : ℕ) (wps : List Waypoint) → InOrder k wps → map seq_of wps ≡ range k (length wps)
unfolding InOrder
InOrder-range k [] h = refl
InOrder-range k (wp ∷ wps) (e, h) = λ i. e i ∷ InOrder-range (suc k) wps h i

resequence_from-InOrder : (k : ℕ) (wps : List Waypoint) → InOrder k (resequence_from k wps)
unfolding InOrder resequence_from
resequence_from-InOrder k [] = tt
resequence_from-InOrder k (wp ∷ wps) = (ground arith, resequence_from-InOrder (suc k) wps)

change_at-InOrder :
    (f : Waypoint → Waypoint) (seq k : ℕ) (wps : List Waypoint)
    → ((wp : Waypoint) → (f wp).seq ≡ wp.seq)
    → InOrder k wps
    → InOrder k (change_at f seq wps)
unfolding InOrder change_at
change_at-InOrder f seq k [] same h = tt
change_at-InOrder f seq k (wp ∷ wps) same (e, h) =
    (ground (arith, same wp), change_at-InOrder f seq (suc k) wps same h)

append_InOrder :
    (k : ℕ) (wps : List Waypoint) (wp : Waypoint)
    → InOrder k wps
    → wp.seq ≡ k + length wps
    → InOrder k (wps ++ (wp ∷ []))
unfolding InOrder
append_InOrder k [] wp h e = (omega arith, tt)
append_InOrder k (x ∷ wps) wp (f, h) e = (f, append_InOrder (suc k) wps wp h (omega arith))

choose_InOrder :
    (b : Bool) (wps wps' : List Waypoint)
    → InOrder 0 wps
    → InOrder 0 wps'
    → InOrder 0 (if b then wps else wps')
choose_InOrder true wps wps' h h' = h
choose_InOrder false wps wps' h h' = h'

reorder_InOrder :
    (wps : List Waypoint) (i j : ℤ) → InOrder 0 wps → InOrder 0 (reorder_waypoints wps i j)
unfolding reorder_waypoints resequence
reorder_InOrder wps (negsuc i) j h = h
reorder_InOrder wps (pos i) (negsuc j) h = h
reorder_InOrder wps (pos i) (pos j) h =
    choose_InOrder (leb (length wps) i || leb (length wps) j || i == j) wps _ h
      (elim (get_elem? wps i)
        as (λ o.
          InOrder 0 (elim o [
            | none ↦ wps
            | some moved ↦ resequence (insert_at j moved (remove_at i wps))
          ])) [ none ↦ h | some moved ↦ resequence_from-InOrder 0 _ ])

edit-InOrder : (wps : List Waypoint) (e : Edit) → InOrder 0 wps → InOrder 0 (edit wps e)
unfolding edit add_waypoint move_waypoint update_waypoint remove_waypoint resequence
edit-InOrder wps (add position overrides) h = append_InOrder 0 wps _ h (omega arith)
edit-InOrder wps (move seq position) h =
    choose_InOrder _ _ wps (change_at-InOrder (moved_to position) seq 0 wps (λ wp. refl) h) h
edit-InOrder wps (update seq patch) h =
    choose_InOrder _ _ wps (change_at-InOrder (patched patch) seq 0 wps (λ wp. refl) h) h
edit-InOrder wps (remove seq) h = choose_InOrder _ wps _ h (resequence_from-InOrder 0 _)
edit-InOrder wps (reorder i j) h = reorder_InOrder wps i j h

edit_all-InOrder :
    (wps : List Waypoint) (es : List Edit) → InOrder 0 wps → InOrder 0 (edit_all wps es)
unfolding edit_all
edit_all-InOrder wps [] h = h
edit_all-InOrder wps (e ∷ es) h = edit_all-InOrder (edit wps e) es (edit-InOrder wps e h)

-- Whatever the planner's edits of an empty list, the sequence numbers are 0, 1, ... in its order, and
-- mission planning accepts the list exactly if every waypoint is within range.
pub edit_all-validate :
    (max_altitude : Number) (es : List Edit)
    → (map (λ (wp : Waypoint). wp.seq) (edit_all [] es) ≡ range 0 (length (edit_all [] es)))
      × ((validate_waypoints (edit_all [] es) max_altitude ≡ [])
          ↔ All (InRange max_altitude) (edit_all [] es))
unfolding InOrder
edit_all-validate max_altitude es =
    let order = InOrder-range 0 (edit_all [] es) (edit_all-InOrder [] es tt) in
    let valid = validate_waypoints_iff max_altitude (edit_all [] es) in
    (
      order,
      (
        λ h. (valid.0 h).0,
        λ r. valid.1 (r, subst (Perm (map seq_of (edit_all [] es))) order Perm.rfl),
      ),
    )
