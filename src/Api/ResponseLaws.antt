-- ===== src/Api/ResponseLaws.antt =====
-- What the responses of the API tell of passwords.
use homelab_db_provisioner.Prelude.{◌≡◌, refl, ap, ℕ, suc, List, [], ◌∷◌, map}
use homelab_db_provisioner.Config.{DatabaseConfig, DatabaseServer}
use homelab_db_provisioner.World.{
  Env, Event, ConfigRead, parsed, unreadable, unparsable, pure, raise, ◌>>=◌, ask_config,
  config_read,
}
use homelab_db_provisioner.Api.Common.{
  to_database_response, to_database_responses, to_server_response, to_server_responses,
  check_loaded, load_config_file,
}
use homelab_db_provisioner.Api.Servers
use homelab_db_provisioner.Http.{json_servers}

abbrev pub hide_password : DatabaseConfig → DatabaseConfig
hide_password d = record d { password = [] }

abbrev pub hide_server : DatabaseServer → DatabaseServer
hide_server s = record s { databases = map hide_password s.databases }

-- The config without the passwords of its databases.
abbrev pub hide : ConfigRead → ConfigRead
hide (parsed cfg) = parsed (record cfg { servers = map hide_server cfg.servers })
hide (unreadable e) = unreadable e
hide (unparsable e) = unparsable e

-- The same environment, but for the passwords in the config.
abbrev pub hiding : Env → Env
hiding env = record env { config = λ t. hide (env.config t) }

to_database_responses-hide :
    (n : ℕ) (ds : List DatabaseConfig)
    → to_database_responses n (map hide_password ds) ≡ to_database_responses n ds
unfolding to_database_responses to_database_response
to_database_responses-hide n [] = refl
to_database_responses-hide n (d ∷ ds) =
    ap (λ rs. to_database_response n d ∷ rs) (to_database_responses-hide (suc n) ds)

to_server_response-hide :
    (n : ℕ) (s : DatabaseServer) → to_server_response n (hide_server s) ≡ to_server_response n s
unfolding to_server_response
to_server_response-hide n s = rw (to_database_responses-hide 0 s.databases) refl

to_server_responses-hide :
    (n : ℕ) (ss : List DatabaseServer)
    → to_server_responses n (map hide_server ss) ≡ to_server_responses n ss
unfolding to_server_responses
to_server_responses-hide n [] = refl
to_server_responses-hide n (s ∷ ss) =
    rw (to_server_response-hide n s, to_server_responses-hide (suc n) ss) refl

listed-hide :
    (r : ConfigRead) (t : List Event)
    → (check_loaded (hide r) >>= λ cfg. pure (json_servers (to_server_responses 0 cfg.servers))) t
      ≡ (check_loaded r >>= λ cfg. pure (json_servers (to_server_responses 0 cfg.servers))) t
unfolding check_loaded ◌>>=◌ pure raise
listed-hide (parsed cfg) t = rw (to_server_responses-hide 0 cfg.servers) refl
listed-hide (unreadable e) t = refl
listed-hide (unparsable e) t = refl

module _ (env : Env) (t : List Event) where
  -- The list of servers is the same response if all passwords of databases are blanked in the
  -- config: it tells nothing of them.
  pub handle_api_list_servers-hide :
      Servers.handle_api_list_servers (hiding env) t ≡ Servers.handle_api_list_servers env t
  unfolding Servers.handle_api_list_servers load_config_file ◌>>=◌ ask_config
  handle_api_list_servers-hide = listed-hide (env.config t) (config_read ∷ t)
