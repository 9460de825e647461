-- ===== src/ControlPlane/Gateway.antt =====
-- The routes of the gateway (crates/atomo_control_plane/src/caddy.rs).
use atomo.Prelude.{
  String, not, Option, none, some, List, [], ◌∷◌, ◌++◌, str_eq, filter, if◌then◌else◌,
}
use atomo.ControlPlane.{Project}
use atomo.ControlPlane.Runtime.{Route, by_host, by_header}

abbrev pub hostname_of : Option String → List String
hostname_of none = []
hostname_of (some h) = if str_eq h "" then [] else h ∷ []

abbrev pub host_route : List String → String → List Route
host_route [] upstream = []
host_route (h ∷ hs) upstream = by_host (h ∷ hs) upstream ∷ []

module _ {Json : Type 0} where
  -- The host matchers of a project.
  unfoldable pub hosts : Project Json → List String
  hosts p = hostname_of p.hostname ++ filter (λ a. not (str_eq a "")) p.aliases

  abbrev pub routes_at : Project Json → Option String → List Route
  routes_at p none = []
  routes_at p (some u) = if str_eq u "" then [] else host_route (hosts p) u ++ by_header p.id u ∷ []

  unfoldable pub routes : List (Project Json) → List Route
  unfolding hosts
  routes [] = []
  routes (p ∷ ps) = routes_at p p.upstream ++ routes ps
