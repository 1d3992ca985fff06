-- ===== src/Site/RouteLaws.antt =====
-- Which handlers the table takes a GET or HEAD request to.
use homelab_db_provisioner.Prelude.{
  ◌≡◌, refl, sym, subst, ◌⊎◌, inl, inr, Bool, true, false, ◌||◌, Option, none, some, List, [], ◌∷◌,
  Text, txt, text_eq, arith, not, ◌&&◌, cut,
}
use homelab_db_provisioner.Site.Routes.{
  Handler, api_create_server, api_update_server, api_delete_server, api_create_database,
  api_update_database, api_delete_database, routes, choose, find_route, matches, pattern_parts,
  method_matches,
}

-- A handler that a GET request may reach: a form handler, or one of the API that reads.
abbrev pub takes_get : Handler → Bool
takes_get api_create_server = false
takes_get api_update_server = false
takes_get api_delete_server = false
takes_get api_create_database = false
takes_get api_update_database = false
takes_get api_delete_database = false
takes_get _ = true

-- No pattern of the table takes the method to another handler.
abbrev pub only_get : Text → List (Text × Handler) → Bool
only_get method [] = true
only_get method ((pattern, handler) ∷ rs) =
    (not (method_matches (pattern_parts pattern).0 method) || takes_get handler)
    && only_get method rs

abbrev pub IsGet : Text → Type 0
IsGet method = (method ≡ txt "GET") ⊎ (method ≡ txt "HEAD")

pub routes-only_get : (method : Text) → IsGet method → only_get method routes ≡ true
unfolding routes method_matches pattern_parts txt text_eq cut
routes-only_get method (inl e) = subst (λ m. only_get m routes ≡ true) (sym e) refl
routes-only_get method (inr e) = subst (λ m. only_get m routes ≡ true) (sym e) refl

pub IsGet-not_post : (method : Text) → IsGet method → text_eq method (txt "POST") ≡ false
unfolding txt text_eq
IsGet-not_post method (inl e) = rw e refl
IsGet-not_post method (inr e) = rw e refl

matches-method :
    (pattern method path : Text) (values : List (Text × Text))
    → matches pattern method path ≡ some values
    → method_matches (pattern_parts pattern).0 method ≡ true
unfolding matches
matches-method pattern method path values h = ground arith

choose-takes_get :
    (handler : Handler) (rest : Handler × List (Text × Text)) (o : Option (List (Text × Text)))
    → takes_get rest.0 ≡ true
    → ((values : List (Text × Text)) → o ≡ some values → takes_get handler ≡ true)
    → takes_get (choose handler rest o).0 ≡ true
choose-takes_get handler rest none h k = h
choose-takes_get handler rest (some values) h k = k values refl

pub find_route-takes_get :
    (rs : List (Text × Handler)) (method path : Text)
    → only_get method rs ≡ true
    → takes_get (find_route rs method path).0 ≡ true
unfolding find_route
find_route-takes_get [] method path h = refl
find_route-takes_get ((pattern, handler) ∷ rs) method path h =
    choose-takes_get handler (find_route rs method path) (matches pattern method path)
      (find_route-takes_get rs method path (ground arith))
      λ values e. ground (arith, matches-method pattern method path values e)
