-- ===== src/Gateway/Routing.antt =====
-- services/api-gateway/src/routing/upstreams.ts: which upstream owns a path. A base URL is not
-- part of the choice.
pub mod Paths
pub mod Disjoint
mod Tests
use pawaacdrone_fleet_operat.Common.{
  ℕ, ◌+◌, Bool, true, false, not, ◌&&◌, ◌||◌, List, [], ◌∷◌, ◌++◌, Option, none, some, Str, codes,
  ◌===◌, ◌==◌, starts_with, if◌then◌else◌,
}

pub data UpstreamId : Type 0 where
  fleet_registry mission_planning telemetry_ingestion vision_ai alert_notification : UpstreamId

unfoldable pub upstream_eq : UpstreamId → UpstreamId → Bool
upstream_eq fleet_registry fleet_registry = true
upstream_eq mission_planning mission_planning = true
upstream_eq telemetry_ingestion telemetry_ingestion = true
upstream_eq vision_ai vision_ai = true
upstream_eq alert_notification alert_notification = true
upstream_eq _ _ = false

pub record UpstreamDefinition : Type 0 where
  pub id : UpstreamId
  pub prefix : Str
  pub env_var : Str
  pub title : Str
  pub spec_path : Str

-- UPSTREAM_DEFINITIONS
abbrev pub upstream_definitions : List UpstreamDefinition
upstream_definitions =
    record {
      id = fleet_registry;
      prefix = codes "/fleet";
      env_var = codes "FLEET_REGISTRY_URL";
      title = codes "Fleet Registry";
      spec_path = codes "/docs-json";
    }
    ∷ record {
      id = mission_planning;
      prefix = codes "/missions";
      env_var = codes "MISSION_PLANNING_URL";
      title = codes "Mission Planning";
      spec_path = codes "/docs-json";
    }
    ∷ record {
      id = telemetry_ingestion;
      prefix = codes "/telemetry";
      env_var = codes "TELEMETRY_INGESTION_URL";
      title = codes "Telemetry Ingestion";
      spec_path = codes "/docs-json";
    }
    ∷ record {
      id = vision_ai;
      prefix = codes "/vision";
      env_var = codes "VISION_AI_URL";
      title = codes "Vision AI Results";
      spec_path = codes "/openapi.json";
    }
    ∷ record {
      id = alert_notification;
      prefix = codes "/alerts";
      env_var = codes "ALERT_NOTIFICATION_URL";
      title = codes "Alert & Notification";
      spec_path = codes "/docs-json";
    }
    ∷ []

-- `path.search(/[?#]/)` and the slice before it
unfoldable pub before_query : Str → Str
before_query [] = []
before_query (c ∷ s) = if c == b'?' || c == b'#' then [] else c ∷ before_query s

unfoldable pub only_slashes : Str → Bool
only_slashes [] = true
only_slashes (c ∷ s) = c == b'/' && only_slashes s

-- `path.replace(/\/+$/, '')`
unfoldable pub strip_slashes : Str → Str
unfolding only_slashes
strip_slashes [] = []
strip_slashes (c ∷ s) = if only_slashes (c ∷ s) then [] else c ∷ strip_slashes s

-- `path.endsWith('/')`
unfoldable pub ends_with_slash : Str → Bool
ends_with_slash [] = false
ends_with_slash (c ∷ []) = c == b'/'
ends_with_slash (c ∷ d ∷ s) = ends_with_slash (d ∷ s)

abbrev pub longer_than_one : Str → Bool
longer_than_one (c ∷ d ∷ s) = true
longer_than_one _ = false

abbrev pub or_root : Str → Str
or_root [] = b'/' ∷ []
or_root (c ∷ s) = c ∷ s

-- the steps of `normalizePath` after the query is cut
unfoldable pub rooted : Str → Str
unfolding starts_with
rooted path = if starts_with path (b'/' ∷ []) then path else b'/' ∷ path

unfoldable pub normalize_rooted : Str → Str
unfolding strip_slashes ends_with_slash
normalize_rooted path =
    or_root (if longer_than_one path && ends_with_slash path then strip_slashes path else path)

unfoldable pub normalize_cut : Str → Str
unfolding rooted normalize_rooted
normalize_cut [] = b'/' ∷ []
normalize_cut (c ∷ s) = normalize_rooted (rooted (c ∷ s))

unfoldable pub normalize_path : Str → Str
unfolding before_query normalize_cut
normalize_path raw_path = normalize_cut (before_query raw_path)

unfoldable pub path_has_prefix : Str → Str → Bool
unfolding starts_with
path_has_prefix path prefix = path === prefix || starts_with path (prefix ++ (b'/' ∷ []))

unfoldable pub find_owner : Str → List UpstreamDefinition → Option UpstreamId
unfolding path_has_prefix
find_owner path [] = none
find_owner path (def ∷ definitions) =
    if path_has_prefix path def.prefix then some def.id else find_owner path definitions

unfoldable pub resolve_upstream_id : Str → List UpstreamDefinition → Option UpstreamId
unfolding normalize_path find_owner
resolve_upstream_id raw_path definitions = find_owner (normalize_path raw_path) definitions

unfoldable pub find_definition : UpstreamId → List UpstreamDefinition → Option UpstreamDefinition
unfolding upstream_eq
find_definition id [] = none
find_definition id (d ∷ definitions) =
    if upstream_eq d.id id then some d else find_definition id definitions

-- The check of one pair; the indices are those of the two loops.
unfoldable pub overlaps : UpstreamDefinition → UpstreamDefinition → Bool
unfolding path_has_prefix
overlaps a b = a.prefix === b.prefix || path_has_prefix a.prefix b.prefix

unfoldable pub overlaps_from : ℕ → UpstreamDefinition → ℕ → List UpstreamDefinition → Bool
unfolding overlaps
overlaps_from i a j [] = false
overlaps_from i a j (b ∷ definitions) =
    (not (i == j) && overlaps a b) || overlaps_from i a (j + 1) definitions

unfoldable pub any_overlap : List UpstreamDefinition → ℕ → List UpstreamDefinition → Bool
unfolding overlaps_from
any_overlap all i [] = false
any_overlap all i (a ∷ definitions) = overlaps_from i a 0 all || any_overlap all (i + 1) definitions

-- `assertDisjointPrefixes` returns: nothing is thrown.
unfoldable pub assert_disjoint_prefixes : List UpstreamDefinition → Bool
unfolding any_overlap
assert_disjoint_prefixes definitions = not (any_overlap definitions 0 definitions)
