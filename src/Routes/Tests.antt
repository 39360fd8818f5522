-- ===== src/Routes/Tests.antt =====
-- A witness, with verbs written in ones and a match of everything.
use demiplane.Prelude.{
  ℕ, zero, suc, ◌≡◌, ◌==◌, ◌&&◌, refl, not, none, false, some, [], ◌∷◌, Text, All, codes,
  if◌then◌else◌, arith,
}
use demiplane.Routes.{
  StdText, RouteRegistry, clear, is_parametric_path, make_route_key, first_of, find_exact,
  exact_result, merge, route_pattern, route_info, create_parametric_route, add_route, try_route,
  find_parametric, find_handler,
}
use demiplane.Routes.Lookup.{IsDecimal, find_after, find_handler-add_route-merge}
use demiplane.Prelude.Texts.{same_text}

ones : ℕ → Text
ones zero = []
ones (suc n) = b'1' ∷ ones n

abbrev std : StdText
std = record {
  to_string = ones;
  search_params = λ path. codes "id" ∷ [];
  replace_params = λ path. path;
  is_regex = λ pattern. not (same_text pattern (codes "^/a{$"));
  regex_match = λ pattern path. some (path ∷ []);
}

no_colon : (n : ℕ) → All (λ c. (c == b':') ≡ false) (ones n)
unfolding ones
no_colon zero = tt
no_colon (suc n) = (refl, no_colon n)

apart : (m n : ℕ) → ones m ≡ ones n → m ≡ n
unfolding ones
apart zero zero h = refl
apart zero (suc n) h = absurd cc
apart (suc m) zero h = absurd cc
apart (suc m) (suc n) h = let e : ones m ≡ ones n = cc in omega (arith, apart m n e)

std-IsDecimal : IsDecimal std
std-IsDecimal = record { no_colon = no_colon; apart = apart }

abbrev served : RouteRegistry ℕ
served = record { exact_routes = (codes "1:/users", 10) ∷ []; parametric_routes = [] }

serve : add_route std 1 (codes "/users") 10 clear ≡ some served
unfolding add_route is_parametric_path make_route_key ones codes clear
serve = refl

-- A brace that opens no parameter leaves a malformed pattern.
malformed : add_route std 1 (codes "/a{") 10 served ≡ none
unfolding add_route is_parametric_path create_parametric_route same_text codes
malformed = refl

abbrev braced : Text
braced = codes "/users/{id}"

find_handler-add_route-merge_example :
    (find_after std std-IsDecimal 1 (codes "/users/7") (add_route std 1 braced 20 served) ≡ (
      if is_parametric_path braced
      then (if std.is_regex (route_pattern std braced)
          then some (
              first_of
                (find_handler std 1 (codes "/users/7") served)
                (try_route std 1 (codes "/users/7") (route_info std 1 braced 20)))
          else none)
      else some (
          if (1 == 1) && same_text braced (codes "/users/7")
          then some (20, [])
          else find_handler std 1 (codes "/users/7") served)))
    × (find_handler std 1 (codes "/users/7") (merge served served)
        ≡ first_of
            (first_of
              (exact_result
                (find_exact (make_route_key std 1 (codes "/users/7")) served.exact_routes))
              (exact_result
                (find_exact (make_route_key std 1 (codes "/users/7")) served.exact_routes)))
            (first_of
              (find_parametric std 1 (codes "/users/7") served.parametric_routes)
              (find_parametric std 1 (codes "/users/7") served.parametric_routes)))
find_handler-add_route-merge_example =
    find_handler-add_route-merge std std-IsDecimal served served 1 braced 20 1 (codes "/users/7")
