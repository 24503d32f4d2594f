-- ===== src/Gateway/Routing/Tests.antt =====
-- The routing table of upstreams.ts, run.
use pawaacdrone_fleet_operat.Common.{ℕ, ◌≡◌, ◌↔◌, refl, true, none, some, codes, ◌===◌}
use pawaacdrone_fleet_operat.Gateway.Routing.{
  upstream_definitions, fleet_registry, alert_notification, UpstreamDefinition,
  assert_disjoint_prefixes, resolve_upstream_id, normalize_path,
}
use pawaacdrone_fleet_operat.Gateway.Routing.Disjoint.{OwnsAt, resolve_upstream_id_iff}

table_test : assert_disjoint_prefixes upstream_definitions ≡ true
unfolding assert_disjoint_prefixes ◌===◌
table_test = refl

owner_test :
    resolve_upstream_id (codes "fleet/drones/7//?x=1") upstream_definitions ≡ some fleet_registry
unfolding resolve_upstream_id ◌===◌
owner_test = refl

unknown_test : resolve_upstream_id (codes "/fleets") upstream_definitions ≡ none
unfolding resolve_upstream_id ◌===◌
unknown_test = refl

resolve_upstream_id_iff_example :
    (resolve_upstream_id (codes "/alerts/3") upstream_definitions ≡ some alert_notification) ↔ (
      (i : ℕ) × (d : UpstreamDefinition) × OwnsAt
        (normalize_path (codes "/alerts/3"))
        upstream_definitions
        i
        d
      × (d.id ≡ alert_notification))
resolve_upstream_id_iff_example =
    resolve_upstream_id_iff upstream_definitions (codes "/alerts/3") alert_notification table_test
