-- ===== src/Api/Common.antt =====
-- What the handlers of the API have in common: indices, the config file, and the responses.
use homelab_db_provisioner.Prelude.{ℕ, suc, Option, List, [], ◌∷◌, ◌++◌, Text, txt, ℤ, atoi}
use homelab_db_provisioner.Config.{DatabaseConfig, DatabaseServer, Config}
use homelab_db_provisioner.World.{
  Env, Err, ConfigRead, unreadable, unparsable, parsed, Exec, pure, raise, from_some, ◌>>=◌, on_err,
  call, ask_config, config_write,
}
use homelab_db_provisioner.Http.{DatabaseResponse, ServerResponse, Response, json_error}
use homelab_db_provisioner.Admin.Row.{find_server, find_row}

unfoldable pub to_database_response : ℕ → DatabaseConfig → DatabaseResponse
to_database_response di d = record {
  index = di;
  database = d.database;
  user = d.user;
  permissions = d.permissions;
  extensions = d.extensions;
  backup = d.backup;
  k8s_secret = d.k8s_secret;
}

-- The loop over the databases, from an index on.
unfoldable pub to_database_responses : ℕ → List DatabaseConfig → List DatabaseResponse
to_database_responses di [] = []
to_database_responses di (d ∷ ds) = to_database_response di d ∷ to_database_responses (suc di) ds

unfoldable pub to_server_response : ℕ → DatabaseServer → ServerResponse
to_server_response si s = record {
  index = si;
  name = s.name;
  root_connection_string = s.root_connection_string;
  dry_run = s.dry_run;
  databases = to_database_responses 0 s.databases;
}

unfoldable pub to_server_responses : ℕ → List DatabaseServer → List ServerResponse
to_server_responses si [] = []
to_server_responses si (s ∷ ss) = to_server_response si s ∷ to_server_responses (suc si) ss

unfoldable pub path_index : Text → Text → Exec Response ℤ
path_index message value = from_some (json_error 400 message) (atoi value)

unfoldable pub server_path_index : Text → Exec Response ℤ
unfolding path_index
server_path_index = path_index (txt "invalid server index")

unfoldable pub database_path_index : Text → Exec Response ℤ
unfolding path_index
database_path_index = path_index (txt "invalid database index")

unfoldable pub decode_body : {A : Type 0} → Option A → Exec Response A
decode_body = from_some (json_error 400 (txt "invalid JSON body"))

-- `loadConfigFile`
unfoldable pub check_loaded : ConfigRead → Exec Response Config
check_loaded (unreadable e) = raise (json_error 500 (txt "failed to read config: " ++ e.message))
check_loaded (unparsable e) = raise (json_error 500 (txt "failed to read config: " ++ e.message))
check_loaded (parsed cfg) = pure cfg

unfoldable pub load_config_file : Env → Exec Response Config
load_config_file env = do r ← ask_config env; check_loaded r

-- `saveConfigFile`
unfoldable pub save_config_file : Env → Config → Exec Response (Unit {0})
save_config_file env cfg =
    on_err (λ (e : Err). json_error 500 (txt "failed to write config: " ++ e.message))
      (call env (config_write cfg))

unfoldable pub server_at : Config → ℤ → Exec Response (ℕ × DatabaseServer)
server_at cfg si = from_some (json_error 404 (txt "server not found")) (find_server cfg si)

unfoldable pub database_at : DatabaseServer → ℤ → Exec Response (ℕ × DatabaseConfig)
database_at server di = from_some (json_error 404 (txt "database not found")) (find_row server di)
