-- ===== src/Utils/Routes.antt =====
-- components/DynamicRouter.tsx: the table of routes that plugins add. A path stands for the path
-- behind '/dynamic', which every entry has in front; a component is named by a number.
use mulex_fk.Prelude.{
  ℕ, Bool, true, false, Option, none, some, List, [], ◌∷◌, ◌++◌, ◌≡◌, refl, arith, inl, inr,
  Bool-cases, if◌then◌else◌,
}
use Prim.Native.String.{String}
use text.Mathlib.Text.{◌==◌}
use text.Mathlib.TextEquality.{eq_iff}

abbrev pub Component : Type 0
Component = ℕ

abbrev pub Routes : Type 0
Routes = List (String × Component)

-- `routes().find(o => o.path === '/dynamic' + path)`
unfoldable pub find : Routes → String → Option Component
find [] path = none
find ((p, c) ∷ routes) path = if p == path then some c else find routes path

abbrev pub is_some : Option Component → Bool
is_some none = false
is_some (some c) = true

unfoldable pub add_route : String → Component → Routes → Routes
unfolding find
add_route path component routes =
    if is_some (find routes path) then routes else routes ++ ((path, component) ∷ [])

-- `p.map(x => x.path === '/dynamic' + path ? { path, component } : x)`
unfoldable pub replace : String → Component → Routes → Routes
replace path component [] = []
replace path component ((p, c) ∷ routes) =
    (if p == path then (path, component) else (p, c)) ∷ replace path component routes

unfoldable pub update_route : String → Component → Routes → Routes
unfolding find replace add_route
update_route path component routes =
    if is_some (find routes path)
    then replace path component routes
    else add_route path component routes

-- `np.splice(idx, 1)` at the first entry for the path, if there is one.
unfoldable pub remove_route : String → Routes → Routes
remove_route path [] = []
remove_route path ((p, c) ∷ routes) =
    if p == path then routes else (p, c) ∷ remove_route path routes

-- No path is listed twice.
abbrev pub HasDistinctPaths : Routes → Type 0
HasDistinctPaths [] = Unit
HasDistinctPaths ((p, c) ∷ routes) = (find routes p ≡ none) × HasDistinctPaths routes

find-append :
    (routes : Routes) (path : String) (c : Component) (j : String)
    → find (routes ++ ((path, c) ∷ [])) j
      ≡ (if is_some (find routes j) then find routes j else if path == j then some c else none)
unfolding find
find-append [] path c j = refl
find-append ((p, x) ∷ routes) path c j = ground (arith, find-append routes path c j)

find-replace :
    (routes : Routes) (path : String) (c : Component) (j : String)
    → find (replace path c routes) j
      ≡ (if path == j then (if is_some (find routes j) then some c else none) else find routes j)
unfolding find replace
find-replace [] path c j = ground arith
find-replace ((p, x) ∷ routes) path c j =
    ground (arith, find-replace routes path c j, eq_iff p path, eq_iff path j, eq_iff p j)

find-remove_route :
    (routes : Routes) (path : String) (j : String)
    → HasDistinctPaths routes
    → find (remove_route path routes) j ≡ (if path == j then none else find routes j)
unfolding find remove_route
find-remove_route [] path j d = ground arith
find-remove_route ((p, x) ∷ routes) path j (apart, d) =
    ground
      (arith, find-remove_route routes path j d, apart, eq_iff p path, eq_iff path j, eq_iff p j)

-- A call of one of the functions that the provider hands out.
pub data RouteAction : Type 0 where
  adds updates : String → Component → RouteAction
  removes : String → RouteAction

unfoldable pub run : RouteAction → Routes → Routes
unfolding add_route update_route remove_route
run (adds path c) routes = add_route path c routes
run (updates path c) routes = update_route path c routes
run (removes path) routes = remove_route path routes

abbrev pub or_else : Option Component → Component → Option Component
or_else none c = some c
or_else (some x) c = some x

-- What an action does to the component of a path.
abbrev pub after : RouteAction → (String → Option Component) → String → Option Component
after (adds path c) old j = if path == j then or_else (old j) c else old j
after (updates path c) old j = if path == j then some c else old j
after (removes path) old j = if path == j then none else old j

-- Each action changes the table as it changes the components of the paths: adding keeps a component
-- that is there, updating replaces or adds it, removing takes it away, and the other paths keep theirs.
pub run-after_routes :
    (action : RouteAction) (routes : Routes) (j : String)
    → HasDistinctPaths routes
    → find (run action routes) j ≡ after action (find routes) j
unfolding run add_route update_route remove_route find replace
run-after_routes (adds path c) routes j d =
    ground (arith, find-append routes path c j, eq_iff path j)
run-after_routes (updates path c) routes j d =
    ground (arith, find-append routes path c j, find-replace routes path c j, eq_iff path j)
run-after_routes (removes path) routes j d = find-remove_route routes path j d

HasDistinctPaths-append :
    (routes : Routes) (path : String) (c : Component)
    → find routes path ≡ none
    → HasDistinctPaths routes
    → HasDistinctPaths (routes ++ ((path, c) ∷ []))
unfolding find
HasDistinctPaths-append [] path c h d = (refl, tt)
HasDistinctPaths-append ((p, x) ∷ routes) path c h (apart, d) = (
  ground (arith, find-append routes path c p, eq_iff p path, eq_iff path p),
  HasDistinctPaths-append routes path c (ground arith) d,
)

HasDistinctPaths-replace :
    (routes : Routes) (path : String) (c : Component)
    → HasDistinctPaths routes
    → HasDistinctPaths (replace path c routes)
unfolding replace
HasDistinctPaths-replace [] path c d = tt
HasDistinctPaths-replace ((p, x) ∷ routes) path c (apart, d) = elim (Bool-cases (p == path)) [
  | inl same ↦ rw same (
    ground (arith, find-replace routes path c path, eq_iff p path),
    HasDistinctPaths-replace routes path c d,
  )
  | inr other ↦
      rw other
        (ground (arith, find-replace routes path c p), HasDistinctPaths-replace routes path c d)
]

HasDistinctPaths-remove_route :
    (routes : Routes) (path : String)
    → HasDistinctPaths routes
    → HasDistinctPaths (remove_route path routes)
unfolding remove_route
HasDistinctPaths-remove_route [] path d = tt
HasDistinctPaths-remove_route ((p, x) ∷ routes) path (apart, d) = elim (Bool-cases (p == path)) [
  | inl same ↦ rw same d
  | inr other ↦ rw other (
    ground (arith, find-remove_route routes path p d),
    HasDistinctPaths-remove_route routes path d,
  )
]

HasDistinctPaths-add_route :
    (routes : Routes) (path : String) (c : Component)
    → HasDistinctPaths routes
    → HasDistinctPaths (add_route path c routes)
unfolding add_route
HasDistinctPaths-add_route routes path c d = elim (Bool-cases (is_some (find routes path))) [
  | inl there ↦ rw there d
  | inr new ↦ rw new (HasDistinctPaths-append routes path c (ground arith) d)
]

-- Every action keeps the paths distinct.
pub run-HasDistinctPaths :
    (action : RouteAction) (routes : Routes)
    → HasDistinctPaths routes
    → HasDistinctPaths (run action routes)
unfolding run update_route
run-HasDistinctPaths (adds path c) routes d = HasDistinctPaths-add_route routes path c d
run-HasDistinctPaths (updates path c) routes d = elim (Bool-cases (is_some (find routes path))) [
  | inl there ↦ rw there (HasDistinctPaths-replace routes path c d)
  | inr new ↦ rw new (HasDistinctPaths-append routes path c (ground arith) d)
]
run-HasDistinctPaths (removes path) routes d = HasDistinctPaths-remove_route routes path d
