-- ===== src/Routes.antt =====
-- components/http/http_server: RouteRegistry (include/route_registry.hpp, source/
-- route_registry.cpp). A verb is the number that it is cast to. The table of exact routes is a list
-- of keys and handlers, the newest binding of a key first; its order is not observed. `std::regex`
-- and `std::to_string` are parameters: a compiled regex is its pattern.
pub mod Lookup
mod Tests
use demiplane.Prelude.{
  ℕ, Bool, true, false, ◌||◌, not, Option, none, some, List, [], ◌∷◌, ◌++◌, Text, codes, ◌==◌,
  if◌then◌else◌, ◌&&◌, length, ◌+◌,
}
use demiplane.Prelude.Texts.{same_text}

-- What the registry takes from the standard library: the decimal text of a number, the names that
-- `\{([^}]+)\}` finds in a path, the path with these replaced by `([^/]+)`, whether the constructor
-- of `std::regex` accepts a pattern or throws regex_error, and a match with the texts of its groups.
pub record StdText : Type 0 where
  pub to_string : ℕ → Text
  pub search_params : Text → List Text
  pub replace_params : Text → Text
  pub is_regex : Text → Bool
  pub regex_match : Text → Text → Option (List Text)

pub record RouteInfo {ℓ} (H : Type ℓ) : Type ℓ where
  pub method : ℕ
  pub path : Text
  pub pattern : Text
  pub param_names : List Text
  pub handler : H

pub record RouteRegistry {ℓ} (H : Type ℓ) : Type ℓ where
  pub exact_routes : List (Text × H)
  pub parametric_routes : List (RouteInfo H)

-- The parameters of a match: the names with the groups, as far as both go. (Of a name that a path
-- has twice the map of the source keeps the later group.)
abbrev pub Params : Type 0
Params = List (Text × Text)

unfoldable pub bind_params : List Text → List Text → Params
bind_params [] groups = []
bind_params (n ∷ names) [] = []
bind_params (n ∷ names) (g ∷ groups) = (n, g) ∷ bind_params names groups

-- `path.find('{') != npos`
unfoldable pub is_parametric_path : Text → Bool
is_parametric_path [] = false
is_parametric_path (c ∷ rest) = (c == b'{') || is_parametric_path rest

unfoldable pub make_route_key : StdText → ℕ → Text → Text
make_route_key std method path = std.to_string method ++ b':' ∷ path

abbrev pub route_pattern : StdText → Text → Text
route_pattern std path = (b'^' ∷ []) ++ std.replace_params path ++ b'$' ∷ []

-- The first of two searches that finds something.
abbrev pub first_of {ℓ} : {X : Type ℓ} → Option X → Option X → Option X
first_of none later = later
first_of (some found) later = some found

module _ {ℓ} {H : Type ℓ} where
  unfoldable pub find_exact : Text → List (Text × H) → Option H
  find_exact key [] = none
  find_exact key ((k, h) ∷ rest) = if same_text k key then some h else find_exact key rest

  unfoldable pub clear : RouteRegistry H
  clear = record { exact_routes = []; parametric_routes = [] }

  -- Both overloads of merge, as regards the registry that they are called on: each exact route of the
  -- other one is assigned over those that are there, and the parametric ones go to the end.
  unfoldable pub merge : RouteRegistry H → RouteRegistry H → RouteRegistry H
  merge other r = record {
    exact_routes = other.exact_routes ++ r.exact_routes;
    parametric_routes = r.parametric_routes ++ other.parametric_routes;
  }

  -- A handler of the exact table comes with no parameters.
  abbrev pub exact_result : Option H → Option (H × Params)
  exact_result none = none
  exact_result (some h) = some (h, [])

  -- The match of a route of the right verb.
  unfoldable pub matched : RouteInfo H → Option (List Text) → Option (H × Params)
  matched route none = none
  matched route (some groups) = some (route.handler, bind_params route.param_names groups)

  module _ (std : StdText) where
    abbrev pub route_info : ℕ → Text → H → RouteInfo H
    route_info method path handler = record {
      method = method;
      path = path;
      pattern = route_pattern std path;
      param_names = std.search_params path;
      handler = handler;
    }

    -- `none` is the regex_error of a pattern that is malformed.
    unfoldable pub create_parametric_route : ℕ → Text → H → Option (RouteInfo H)
    create_parametric_route method path handler =
        if std.is_regex (route_pattern std path)
        then some (route_info method path handler)
        else none

    abbrev pub push_back : RouteRegistry H → Option (RouteInfo H) → Option (RouteRegistry H)
    push_back r none = none
    push_back r (some route) =
        some (record r { parametric_routes = r.parametric_routes ++ route ∷ [] })

    -- `none` is the exception of create_parametric_route, which leaves the registry as it is.
    unfoldable pub add_route : ℕ → Text → H → RouteRegistry H → Option (RouteRegistry H)
    add_route method path handler r =
        if is_parametric_path path
        then push_back r (create_parametric_route method path handler)
        else some
            (record r { exact_routes = (make_route_key std method path, handler) ∷ r.exact_routes })

    -- One round of the loop of find_handler.
    unfoldable pub try_route : ℕ → Text → RouteInfo H → Option (H × Params)
    try_route method path route =
        if route.method == method then matched route (std.regex_match route.pattern path) else none

    unfoldable pub find_parametric : ℕ → Text → List (RouteInfo H) → Option (H × Params)
    find_parametric method path [] = none
    find_parametric method path (route ∷ rest) =
        first_of (try_route method path route) (find_parametric method path rest)

    -- `none` is the out_of_range that is thrown.
    unfoldable pub find_handler : ℕ → Text → RouteRegistry H → Option (H × Params)
    find_handler method path r =
        first_of (exact_result (find_exact (make_route_key std method path) r.exact_routes))
          (find_parametric method path r.parametric_routes)
