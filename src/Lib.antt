-- ===== src/Lib.antt =====
-- The core of the drone fleet operations platform: the alerting service, the API gateway, the fleet
-- registry, mission planning, telemetry ingestion and the state of the operations dashboard,
-- TypeScript programs that share the types of packages/shared-types/src.
--
-- The parts and where they are modelled:
-- - Alerts: services/alert-notification/src/alerts. Alerts.antt has the types of
--   packages/shared-types/src/alert.ts. Alerts/Escalation.antt is escalation.logic.ts
--   (legalTransition, decideAcknowledge, decideTick). Alerts/Ports.antt has the entities and what
--   the service needs of its database and of the timers of escalation.timer.ts; Alerts/Service.antt
--   is escalation.service.ts (createAlert, acknowledge, tickEscalations): its state `World` holds
--   the stored alerts, the timers and what was dispatched. Alerts/Rules.antt is rule-engine.ts and
--   Alerts/Analytics.antt is analytics.logic.ts.
-- - Dispatch: services/alert-notification/src/notifications/dispatch. Dispatch.antt is
--   dispatch.logic.ts (retry policy, backoff, fan-out) and Dispatch/Service.antt is
--   dispatch.service.ts (deliver, dispatch) with dispatch.types.ts. The escalation service calls it
--   through AlertDispatcher, whose calls its model records.
-- - Gateway: services/api-gateway/src. Gateway.antt is auth/roles.ts, Gateway/Permissions.antt is
--   auth/route-permissions.ts and AuthService.authorize, Gateway/RateLimit.antt is
--   rate-limit/rate-limit.ts and rate-limiter.service.ts, Gateway/Routing.antt is
--   routing/upstreams.ts, and Gateway/Guards.antt is AuthService.authenticate and the three guards
--   that a request passes on its way to routing/proxy.controller.ts.
-- - Fleet: services/fleet-registry/src. Fleet.antt has the types of
--   packages/shared-types/src/fleet.ts, Fleet/Maintenance.antt is drones/maintenance.ts,
--   Fleet/Store.antt is drones/in-memory-drone-store.ts with the contract of drone-store.ts,
--   Fleet/Publisher.antt is events/resilient-event-publisher.ts, and Fleet/Service.antt is
--   drones/fleet-registry.service.ts over the two.
-- - Telemetry: services/telemetry-ingestion/src. Telemetry.antt has the samples of
--   packages/shared-types/src/telemetry.ts, Telemetry/Bounds.antt is persist/bounds.ts and
--   Telemetry/Persister.antt is persist/persister.ts, with the chained drains as steps of their own.
--   Telemetry/Anomaly.antt is anomaly/detector.ts and anomaly/pipeline.ts.
-- - Missions: services/mission-planning/src. Missions.antt has the types of
--   packages/shared-types/src/mission.ts, Missions/Validation.antt is
--   missions/waypoint-validation.ts, Missions/Store.antt is missions/in-memory-mission-store.ts,
--   Missions/Service.antt is missions/mission-planning.service.ts over it, Missions/Export.antt is
--   export/mavlink.ts and export/mavlink-export.service.ts over the store, and
--   Missions/Templates.antt is templates/template.ts and templates/template-substitution.ts.
-- - Dashboard: services/ops-dashboard/src/lib, the reducers of the state behind each view.
--   Dashboard/Planner.antt, Planner/Draft.antt, Planner/Draft/Load.antt and
--   Planner/Conflicts.antt are mission-planner-state.ts, whose lists the mission planning service
--   validates;
--   Dashboard/AlertFeed.antt is alert-feed-state.ts, Dashboard/FleetMap.antt is
--   fleet-map-state.ts and Dashboard/Panels.antt is telemetry-panel-state.ts.
-- Common.antt has what they share: strings, dictionaries, numbers, lists and Boolean tests. The
-- modules below a component hold its lemmas; the modules named Tests run it at concrete inputs.
--
-- How the code is read:
-- - A string is the list of its UTF-16 code units; a Map is a list of pairs in insertion order.
-- - Times are whole milliseconds since 1970. Counters, levels and versions are natural numbers;
--   maintenance counters and event fields are JavaScript numbers, that is nan, the infinities and
--   fractions. Arithmetic on floating point numbers is a parameter.
-- - A handler is a function from the state to the state and a result, and runs to its end before
--   the next one starts; a thrown error is a value of the result. What runs between two awaits of
--   one handler is not modelled. Alert rules are a look-up that a call is given, so they may be
--   edited between two calls, but not within one.
-- - The database, the timers, Redis, the transports, the clock, random identifiers, date parsing,
--   JSON, the 32-bit floats of a buffer, the texts of numbers and upper-casing are parameters, with
--   what their documentation says of them as laws.
-- - Every loop is a recursion on the list it runs over or on the number of attempts left, so no
--   function needs fuel. The logs are left out.
--
-- Not modelled: controllers and data transfer checks of the frameworks, token verification, the
-- Postgres adapters, HTTP forwarding and OpenAPI merging, geofences and the template store of
-- mission planning, the history queries, sockets and frames of telemetry ingestion, the components,
-- clients and lists by locale of the dashboard, the vision service (Python) and the seeding tools.
pub mod Common
pub mod Alerts
pub mod Dispatch
pub mod Fleet
pub mod Gateway
pub mod Missions
pub mod Dashboard
pub mod Telemetry
