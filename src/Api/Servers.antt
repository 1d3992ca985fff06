-- ===== src/Api/Servers.antt =====
-- The handlers under /api/servers and /api/servers/{si}.
use homelab_db_provisioner.Prelude.{
  Bool, ◌||◌, Option, none, some, [], Text, txt, is_empty, length, set, erase_idx, if◌then◌else◌,
}
use homelab_db_provisioner.Config.{DatabaseServer}
use homelab_db_provisioner.World.{Env, Exec, pure, raise, ◌>>=◌, ◌>>◌}
use homelab_db_provisioner.Http.{Response, json_error, json_servers, json_server, no_content}
use homelab_db_provisioner.Admin.Add.{append_server}
use homelab_db_provisioner.Api.Common.{
  to_server_response, to_server_responses, server_path_index, decode_body, load_config_file,
  save_config_file, server_at,
}

pub record CreateServerRequest : Type 0 where
  pub name : Text
  pub root_connection_string : Text
  pub dry_run : Bool

-- A field that is left out is `none`.
pub record UpdateServerRequest : Type 0 where
  pub name : Option Text
  pub root_connection_string : Option Text
  pub dry_run : Option Bool

-- The value given, or the old one.
abbrev pub given_or {ℓ} : {A : Type ℓ} → Option A → A → A
given_or none old = old
given_or (some new) old = new

unfoldable pub update_server : UpdateServerRequest → DatabaseServer → DatabaseServer
update_server req s = record s {
  name = given_or req.name s.name;
  root_connection_string = given_or req.root_connection_string s.root_connection_string;
  dry_run = given_or req.dry_run s.dry_run;
}

module _ (env : Env) where
  unfoldable pub handle_api_list_servers : Exec Response Response
  handle_api_list_servers = do
    cfg ← load_config_file env
    pure (json_servers (to_server_responses 0 cfg.servers))

  unfoldable pub handle_api_get_server : Text → Exec Response Response
  handle_api_get_server path_si = do
    si ← server_path_index path_si
    cfg ← load_config_file env
    (i, server) ← server_at cfg si
    pure (json_server 200 (to_server_response i server))

  unfoldable pub handle_api_create_server : Option CreateServerRequest → Exec Response Response
  handle_api_create_server body = do
    req ← decode_body body
    if is_empty req.name || is_empty req.root_connection_string
        then raise (json_error 400 (txt "name and root_connection_string are required"))
        else (do
          cfg ← load_config_file env
          let new_server : DatabaseServer = record {
            name = req.name;
            root_connection_string = req.root_connection_string;
            dry_run = req.dry_run;
            databases = [];
          }
          save_config_file env (append_server cfg new_server)
          pure (json_server 201 (to_server_response (length cfg.servers) new_server)))

  unfoldable pub handle_api_update_server :
      Text → Option UpdateServerRequest → Exec Response Response
  handle_api_update_server path_si body = do
    si ← server_path_index path_si
    req ← decode_body body
    cfg ← load_config_file env
    (i, server) ← server_at cfg si
    let server' = update_server req server
    save_config_file env (record cfg { servers = set cfg.servers i server' })
    pure (json_server 200 (to_server_response i server'))

  unfoldable pub handle_api_delete_server : Text → Exec Response Response
  handle_api_delete_server path_si = do
    si ← server_path_index path_si
    cfg ← load_config_file env
    (i, server) ← server_at cfg si
    save_config_file env (record cfg { servers = erase_idx cfg.servers i })
    pure no_content
