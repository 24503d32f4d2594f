-- ===== src/Fleet/Service/Events.antt =====
-- What an update of a drone stores and publishes.
use pawaacdrone_fleet_operat.Common.{◌+◌, ◌≡◌, ◌≢◌, ◌⊎◌, some, Str}
use pawaacdrone_fleet_operat.Fleet.{Drone}
use pawaacdrone_fleet_operat.Fleet.Store.{find_by_id}
use pawaacdrone_fleet_operat.Fleet.Publisher.{EventTransport, publish}
use pawaacdrone_fleet_operat.Fleet.Service.{World, HttpResult, done, status_event}

module _ (transport : EventTransport) where
  -- An update that succeeds.
  pub record Updates (w : World transport) (id : Str) (v : World transport) (r : HttpResult Drone)
      : Type 0 where
    pub previous : Drone
    pub updated : Drone
    pub found : find_by_id w.store id ≡ some previous
    pub result : r ≡ done updated
    pub stored : find_by_id v.store id ≡ some updated
    pub version : updated.version ≡ previous.version + 1
    pub events :
        ((updated.status ≡ previous.status) × (v.publisher ≡ w.publisher))
        ⊎ ((updated.status ≢ previous.status)
            × (v.publisher
                ≡ (publish transport w.publisher (status_event transport previous updated)).0))
