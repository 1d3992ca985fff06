-- ===== src/Site/Routes.antt =====
-- The table of `newAdminHandler`, and how `http.ServeMux` uses it: a pattern is a path with an
-- optional method in front, GET also takes HEAD, and `{name}` takes one segment that is not empty.
-- The pattern "/" takes every path that no other one does; no two others take the same request.
use homelab_db_provisioner.Prelude.{
  Bool, true, ◌&&◌, ◌||◌, Option, none, some, List, [], ◌∷◌, Text, txt, text_eq, is_empty,
  starts_with, cut, split, drop, take, length, ◌-◌, if◌then◌else◌,
}

pub data Handler : Type 0 where
  index update_password generate_password reveal_password rotate_secret move_to_secret update_backup
        add_database add_server migrate_database :
      Handler
  api_list_servers api_get_server api_create_server api_update_server api_delete_server : Handler
  api_list_databases api_get_database api_create_database api_update_database api_delete_database :
      Handler

-- The patterns but for "/".
unfoldable pub routes : List (Text × Handler)
routes =
    (txt "/update-password", update_password)
    ∷ ((txt "/generate-password", generate_password)
        ∷ ((txt "/reveal-password", reveal_password)
            ∷ ((txt "/rotate-secret", rotate_secret)
                ∷ ((txt "/move-to-secret", move_to_secret)
                    ∷ ((txt "/update-backup", update_backup)
                        ∷ ((txt "/add-database", add_database)
                            ∷ ((txt "/add-server", add_server)
                                ∷ ((txt "/migrate-database", migrate_database)
                                    ∷ ((txt "GET /api/servers", api_list_servers)
                                        ∷ ((txt "GET /api/servers/{si}", api_get_server)
                                            ∷ ((txt "POST /api/servers", api_create_server)
                                                ∷ ((
                                                  txt "PATCH /api/servers/{si}",
                                                  api_update_server,
                                                )
                                                    ∷ ((
                                                      txt "DELETE /api/servers/{si}",
                                                      api_delete_server,
                                                    )
                                                        ∷ ((
                                                          txt "GET /api/servers/{si}/databases",
                                                          api_list_databases,
                                                        )
                                                            ∷ ((
                                                            txt
                                                            "GET /api/servers/{si}/databases/{di}",
                                                            api_get_database,
                                                            )
                                                            ∷ ((
                                                            txt "POST /api/servers/{si}/databases",
                                                            api_create_database,
                                                            )
                                                            ∷ ((
                                                            txt
                                                            "PATCH /api/servers/{si}/databases/{di}",
                                                            api_update_database,
                                                            )
                                                            ∷ ((
                                                            txt
                                                            "DELETE /api/servers/{si}/databases/{di}",
                                                            api_delete_database,
                                                            )
                                                            ∷ []))))))))))))))))))

-- The method of a pattern, if it has one, and its path.
unfoldable pub pattern_parts : Text → Option Text × Text
pattern_parts pattern = elim (cut b' ' pattern).1 [
  | none ↦ (none, pattern)
  | some path ↦ (some (cut b' ' pattern).0, path)
]

unfoldable pub method_matches : Option Text → Text → Bool
method_matches none method = true
method_matches (some m) method =
    text_eq m method || (text_eq m (txt "GET") && text_eq method (txt "HEAD"))

-- The name of a segment `{name}`.
unfoldable pub wildcard : Text → Option Text
wildcard segment =
    if starts_with (txt "{") segment
    then some (drop 1 (take (length segment - 1) segment))
    else none

-- One more value of the path, if the rest matches.
abbrev with_value : Text → Text → Option (List (Text × Text)) → Option (List (Text × Text))
with_value name value none = none
with_value name value (some values) = some ((name, value) ∷ values)

-- The values of the wildcards, if the path has the segments of the pattern.
unfoldable pub match_segments : List Text → List Text → Option (List (Text × Text))
match_segments [] [] = some []
match_segments [] (s ∷ ss) = none
match_segments (p ∷ ps) [] = none
match_segments (p ∷ ps) (s ∷ ss) =
    let rest = match_segments ps ss in
    elim (wildcard p) [
      | none ↦ if text_eq p s then rest else none
      | some name ↦ if is_empty s then none else with_value name s rest
    ]

unfoldable pub matches : Text → Text → Text → Option (List (Text × Text))
unfolding pattern_parts method_matches match_segments
matches pattern method path =
    let (m, p) = pattern_parts pattern in
    if method_matches m method then match_segments (split b'/' p) (split b'/' path) else none

-- The values, if the pattern matches, else what the rest of the table gives.
abbrev pub choose :
    Handler
    → Handler × List (Text × Text)
    → Option (List (Text × Text))
    → Handler × List (Text × Text)
choose handler rest none = rest
choose handler rest (some values) = (handler, values)

-- The handler of a request, with the values of its path.
unfoldable pub find_route : List (Text × Handler) → Text → Text → Handler × List (Text × Text)
find_route [] method path = (index, [])
find_route ((pattern, handler) ∷ rs) method path =
    choose handler (find_route rs method path) (matches pattern method path)
