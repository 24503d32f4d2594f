-- ===== src/Missions/Service/History/Edits.antt =====
-- What an edit of a mission does to a store that a history of requests left.
use pawaacdrone_fleet_operat.Common.{
  ℕ, ◌≡◌, ◌∙◌, sym, refl, subst, List, [], ◌∷◌, Option, none, some, Str, Number, length,
}
use pawaacdrone_fleet_operat.Missions.{Mission}
use pawaacdrone_fleet_operat.Missions.Store.{MissionStore, add_version, find_version, find_latest}
use pawaacdrone_fleet_operat.Missions.Store.Versions.{
  Logs, write, create, add, replay, find_version-entry, find_latest-newest,
}
use pawaacdrone_fleet_operat.Missions.Service.{
  CreateMissionDto, UpdateMissionDto, Response, not_found, assert_valid, answer, first_content,
  next_content, create_mission, update_mission, edit_latest,
}
use pawaacdrone_fleet_operat.Missions.Service.History.{
  Request, post, put, handle, handle_all, Sound, Good, Good-create, Good-empty, accepted, rejected,
  assert_valid-Checked,
}
use pawaacdrone_fleet_operat.Missions.Service.History.Stored.{
  Updated, unknown, refused, Good-stored, found_log,
}

module _ (max_altitude : Number) (missions : MissionStore) (logs : Logs)
    (good : Good max_altitude missions logs) (id now : Str) where
  abbrev Kept : MissionStore → Type 0
  Kept missions' = (logs' : Logs) × Good max_altitude missions' logs'

  create_mission-accepted :
      (dto : CreateMissionDto)
      → assert_valid max_altitude dto.waypoints ≡ none
      → (create_mission max_altitude missions id now dto).1
        ≡ write missions (create id now (first_content dto))
  unfolding create_mission write
  create_mission-accepted dto e = rw (e, create_mission) refl

  create_mission-rejected :
      (dto : CreateMissionDto) (error : Response)
      → assert_valid max_altitude dto.waypoints ≡ some error
      → (create_mission max_altitude missions id now dto).1 ≡ missions
  unfolding create_mission
  create_mission-rejected dto error e = rw (e, create_mission) refl

  Good-post : (dto : CreateMissionDto) → Kept (create_mission max_altitude missions id now dto).1
  Good-post dto = elim (assert_valid-Checked max_altitude dto.waypoints) [
    | accepted e v ↦ (
      _,
      subst (λ s. Good max_altitude s (replay logs (create id now (first_content dto))))
          (sym (create_mission-accepted dto e))
          (Good-create max_altitude missions logs good id now (first_content dto) v),
    )
    | rejected e es h w ↦
        (logs, subst (λ s. Good max_altitude s logs) (sym (create_mission-rejected dto _ h)) good)
  ]

  module _ (dto : UpdateMissionDto) where
    update_unknown :
        find_latest missions id ≡ none
        → update_mission max_altitude missions id now dto ≡ (not_found, missions)
    unfolding update_mission
    update_unknown e = rw (e, update_mission) refl

    update_mission-found :
        (latest : Mission)
        → find_latest missions id ≡ some latest
        → update_mission max_altitude missions id now dto
          ≡ edit_latest max_altitude missions id now dto latest
    unfolding update_mission
    update_mission-found latest e = rw (e, update_mission) refl

    edit_latest-rejected :
        (latest : Mission) (error : Response)
        → assert_valid max_altitude (next_content latest dto).waypoints ≡ some error
        → edit_latest max_altitude missions id now dto latest ≡ (error, missions)
    unfolding edit_latest
    edit_latest-rejected latest error e = rw (e, edit_latest) refl

    edit_latest-accepted :
        (latest : Mission)
        → assert_valid max_altitude (next_content latest dto).waypoints ≡ none
        → edit_latest max_altitude missions id now dto latest
          ≡ answer missions (add_version missions id now (next_content latest dto))
    unfolding edit_latest
    edit_latest-accepted latest e = rw (e, edit_latest) refl

    update_mission-answer :
        (latest : Mission)
        → find_latest missions id ≡ some latest
        → assert_valid max_altitude (next_content latest dto).waypoints ≡ none
        → update_mission max_altitude missions id now dto
          ≡ answer missions (add_version missions id now (next_content latest dto))
    update_mission-answer latest found valid =
        update_mission-found latest found ∙ edit_latest-accepted latest valid

    update_mission-cases :
        (o : Option Mission)
        → find_latest missions id ≡ o
        → Updated max_altitude missions id now dto (update_mission max_altitude missions id now dto)
          × Kept (update_mission max_altitude missions id now dto).1
    update_mission-cases none e =
        let same = update_unknown e in
        (unknown e same, (logs, subst (λ r. Good max_altitude r.1 logs) (sym same) good))
    update_mission-cases (some latest) e =
        elim (assert_valid-Checked max_altitude (next_content latest dto).waypoints) [
          | accepted a v ↦
              let same = update_mission-answer latest e a in
              (
                subst (Updated max_altitude missions id now dto) (sym same) (
                    found_log max_altitude missions logs good id now dto latest e v (logs id) refl),
                (
                  replay logs (add id now (next_content latest dto)),
                  subst
                      (λ r.
                        Good max_altitude r.1 (replay logs (add id now (next_content latest dto))))
                      (sym same)
                      (Good-stored max_altitude missions logs good id now dto latest e v),
                ),
              )
          | rejected err errs a w ↦
              let same = update_mission-found latest e ∙ edit_latest-rejected latest _ a in
              (
                refused latest err errs e w same,
                (logs, subst (λ r. Good max_altitude r.1 logs) (sym same) good),
              )
        ]

module _ (max_altitude : Number) where
  Good-handle :
      (missions : MissionStore) (logs : Logs) (r : Request)
      → Good max_altitude missions logs
      → (logs' : Logs) × Good max_altitude (handle max_altitude missions r) logs'
  unfolding handle
  Good-handle missions logs (post id now dto) good =
      Good-post max_altitude missions logs good id now dto
  Good-handle missions logs (put id now dto) good =
      (update_mission-cases max_altitude missions logs good id now dto _ refl).1

  Good-handle_all :
      (missions : MissionStore) (logs : Logs) (rs : List Request)
      → Good max_altitude missions logs
      → (logs' : Logs) × Good max_altitude (handle_all max_altitude missions rs) logs'
  unfolding handle_all
  Good-handle_all missions logs [] good = (logs, good)
  Good-handle_all missions logs (r ∷ rs) good =
      let (logs', good') = Good-handle missions logs r good in
      Good-handle_all (handle max_altitude missions r) logs' rs good'

  -- Whatever version of a mission is read after any requests to an empty store, it has the identifier
  -- and the version that were asked for, and its waypoints are within range and ordered 0, 1, ....
  pub find_version-Sound :
      (rs : List Request) (id : Str) (n : ℕ) (m : Mission)
      → find_version (handle_all max_altitude [] rs) id n ≡ some m
      → Sound max_altitude id n m
  find_version-Sound rs id n m h =
      let (logs, good) = Good-handle_all [] (λ j. []) rs (Good-empty max_altitude) in
      good.sound id n m (sym (find_version-entry _ id n (logs id) (good.holds id)) ∙ h)

  -- The latest version too.
  pub find_latest-Sound :
      (rs : List Request) (id : Str) (m : Mission)
      → find_latest (handle_all max_altitude [] rs) id ≡ some m
      → Sound max_altitude id m.version m
  find_latest-Sound rs id m h =
      let (logs, good) = Good-handle_all [] (λ j. []) rs (Good-empty max_altitude) in
      let s =
        good.sound id (length (logs id)) m
          (sym (find_latest-newest _ id (logs id) (good.holds id)) ∙ h) in
      subst (λ n. Sound max_altitude id n m) (sym s.version) s
