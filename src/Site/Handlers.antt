-- ===== src/Site/Handlers.antt =====
-- Which function a route calls, with the values of its path.
use homelab_db_provisioner.Prelude.{Option, [], List, Text, txt}
use homelab_db_provisioner.Prelude.Dict.{get_or}
use homelab_db_provisioner.World.{Env, Exec}
use homelab_db_provisioner.Http.{Response}
use homelab_db_provisioner.Admin.Add
use homelab_db_provisioner.Admin.Edit
use homelab_db_provisioner.Admin.SecretEdit
use homelab_db_provisioner.Api.Servers
use homelab_db_provisioner.Api.Databases
use homelab_db_provisioner.Site.Request.{HttpRequest, form_request}
use homelab_db_provisioner.Site.Routes.{
  Handler, index, update_password, generate_password, reveal_password, rotate_secret,
  move_to_secret, update_backup, add_database, add_server, migrate_database, api_list_servers,
  api_get_server, api_create_server, api_update_server, api_delete_server, api_list_databases,
  api_get_database, api_create_database, api_update_database, api_delete_database,
}
use homelab_db_provisioner.Site.Page.{handle_index}

module _ (env : Env) (manager : Option Text) (r : HttpRequest) (values : List (Text × Text)) where
  -- `r.PathValue("si")` and `r.PathValue("di")`
  abbrev si : Text
  si = get_or [] (txt "si") values

  abbrev di : Text
  di = get_or [] (txt "di") values

  unfoldable pub handle : Handler → Exec Response Response
  unfolding get_or
  handle index = handle_index env r
  handle update_password = Edit.handle_update_password env (form_request r)
  handle generate_password = Edit.handle_generate_password env (form_request r)
  handle reveal_password = Edit.handle_reveal_password env (form_request r)
  handle rotate_secret = SecretEdit.handle_rotate_secret env manager (form_request r)
  handle move_to_secret = SecretEdit.handle_move_to_secret env manager (form_request r)
  handle update_backup = Edit.handle_update_backup env (form_request r)
  handle add_database = Add.handle_add_database env manager (form_request r)
  handle add_server = Add.handle_add_server env manager (form_request r)
  handle migrate_database = Edit.handle_migrate_database env (form_request r)
  handle api_list_servers = Servers.handle_api_list_servers env
  handle api_get_server = Servers.handle_api_get_server env si
  handle api_create_server = Servers.handle_api_create_server env r.body.create_server
  handle api_update_server = Servers.handle_api_update_server env si r.body.update_server
  handle api_delete_server = Servers.handle_api_delete_server env si
  handle api_list_databases = Databases.handle_api_list_databases env manager si
  handle api_get_database = Databases.handle_api_get_database env manager si di
  handle api_create_database =
      Databases.handle_api_create_database env manager si r.body.create_database
  handle api_update_database =
      Databases.handle_api_update_database env manager si di r.body.update_database
  handle api_delete_database = Databases.handle_api_delete_database env manager si di
