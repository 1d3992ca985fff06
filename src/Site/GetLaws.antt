-- ===== src/Site/GetLaws.antt =====
-- What the admin site does for a GET request.
use homelab_db_provisioner.Prelude.{◌≡◌, true, false, Option, none, some, List, [], ◌∷◌, Text, ℤ}
use homelab_db_provisioner.Config.{Config, DatabaseConfig, DatabaseServer, BackupConfig}
use homelab_db_provisioner.World.{
  Env, ConfigRead, unreadable, unparsable, parsed, Exec, raise, from_some, ◌>>=◌,
}
use homelab_db_provisioner.World.Keeps.{
  Only, here, Only-pure, Only-raise, Only-bind, Only-try, only_rules,
}
use homelab_db_provisioner.World.Reads.{IsRead}
use homelab_db_provisioner.Http.{
  Request, Response, page, http_error, redirect, json_error, json_servers, json_server,
  json_databases, json_database, no_content,
}
use homelab_db_provisioner.Health
use homelab_db_provisioner.Admin.Row.{require, check_post}
use homelab_db_provisioner.Admin.Add
use homelab_db_provisioner.Admin.Edit
use homelab_db_provisioner.Admin.SecretEdit
use homelab_db_provisioner.Api.Common
use homelab_db_provisioner.Api.Servers
use homelab_db_provisioner.Api.Databases
use homelab_db_provisioner.Site.Request.{HttpRequest, Settings, form_request}
use homelab_db_provisioner.Site.Routes.{
  Handler, index, update_password, generate_password, reveal_password, rotate_secret,
  move_to_secret, update_backup, add_database, add_server, migrate_database, api_list_servers,
  api_get_server, api_create_server, api_update_server, api_delete_server, api_list_databases,
  api_get_database, api_create_database, api_update_database, api_delete_database, routes,
}
use homelab_db_provisioner.Site.RouteLaws.{
  takes_get, IsGet, routes-only_get, IsGet-not_post, find_route-takes_get,
}
use homelab_db_provisioner.Site.Page.{handle_index, read_index, render_index}
use homelab_db_provisioner.Site.Handlers.{handle}
use homelab_db_provisioner.Site.Serve.{render, serve_route, basic_auth, protected, serve}

ruleset read_rules = (only_rules, tt)

module _ (req : Request) (h : req.is_post ≡ false) where
  -- A form handler stops at a method that is not POST.
  check_post-Only :
      {A : Type 0} (f : Unit {0} → Exec Response A) → Only IsRead (check_post req >>= f)
  unfolding check_post require raise ◌>>=◌
  check_post-Only f = record { calls = λ t. rw h here }

  check_secret_post-Only :
      {A : Type 0} (env : Env) (manager : Option Text) (f : Text → Exec Response A)
      → Only IsRead (SecretEdit.check_secret_post env manager req >>= f)
  unfolding SecretEdit.check_secret_post require raise ◌>>=◌
  check_secret_post-Only env manager f = record { calls = λ t. rw h here }

module _ (env : Env) where
  from_some-Only : {E A : Type 0} (e : E) (o : Option A) → Only IsRead (from_some e o)
  unfolding from_some
  from_some-Only e none = Only-raise e
  from_some-Only e (some a) = Only-pure a

  check_loaded-Only : (c : ConfigRead) → Only IsRead (Common.check_loaded c)
  unfolding Common.check_loaded
  check_loaded-Only (unreadable e) = Only-raise _
  check_loaded-Only (unparsable e) = Only-raise _
  check_loaded-Only (parsed c) = Only-pure c

  load_config_file-Only : Only IsRead (Common.load_config_file env)
  unfolding Common.load_config_file
  load_config_file-Only = search (read_rules, check_loaded-Only)

  read_index-Only : (path msg : Text) (c : ConfigRead) → Only IsRead (read_index path msg c)
  unfolding read_index
  read_index-Only path msg (unreadable e) = Only-raise _
  read_index-Only path msg (unparsable e) = Only-raise _
  read_index-Only path msg (parsed c) = Only-pure _

  handle_index-Only : (r : HttpRequest) → Only IsRead (handle_index env r)
  unfolding handle_index
  handle_index-Only r = search (read_rules, read_index-Only)

  server_path_index-Only : (v : Text) → Only IsRead (Common.server_path_index v)
  unfolding Common.server_path_index Common.path_index
  server_path_index-Only v = from_some-Only _ _

  database_path_index-Only : (v : Text) → Only IsRead (Common.database_path_index v)
  unfolding Common.database_path_index Common.path_index
  database_path_index-Only v = from_some-Only _ _

  server_at-Only : (cfg : Config) (si : ℤ) → Only IsRead (Common.server_at cfg si)
  unfolding Common.server_at
  server_at-Only cfg si = from_some-Only _ _

  database_at-Only : (server : DatabaseServer) (di : ℤ) → Only IsRead (Common.database_at server di)
  unfolding Common.database_at
  database_at-Only server di = from_some-Only _ _

  ruleset api_rules = (
    read_rules, load_config_file-Only, server_path_index-Only, database_path_index-Only,
    server_at-Only, database_at-Only,
  )

  module _ (manager : Option Text) (r : HttpRequest) (values : List (Text × Text))
      (get : (form_request r).is_post ≡ false) where
    handle-Only :
        (handler : Handler)
        → takes_get handler ≡ true
        → Only IsRead (handle env manager r values handler)
    unfolding handle Edit.handle_update_password Edit.handle_generate_password
        Edit.handle_reveal_password SecretEdit.handle_rotate_secret SecretEdit.handle_move_to_secret
        Edit.handle_update_backup Add.handle_add_database Add.handle_add_server
        Edit.handle_migrate_database Servers.handle_api_list_servers Servers.handle_api_get_server
        Databases.handle_api_list_databases Databases.handle_api_get_database
    handle-Only index h = handle_index-Only r
    handle-Only update_password h = check_post-Only (form_request r) get _
    handle-Only generate_password h = check_post-Only (form_request r) get _
    handle-Only reveal_password h = check_post-Only (form_request r) get _
    handle-Only rotate_secret h = check_secret_post-Only (form_request r) get env manager _
    handle-Only move_to_secret h = check_secret_post-Only (form_request r) get env manager _
    handle-Only update_backup h = check_post-Only (form_request r) get _
    handle-Only add_database h = check_post-Only (form_request r) get _
    handle-Only add_server h = check_post-Only (form_request r) get _
    handle-Only migrate_database h = check_post-Only (form_request r) get _
    handle-Only api_list_servers h = search api_rules depth 20
    handle-Only api_get_server h = search api_rules depth 20
    handle-Only api_list_databases h = search api_rules depth 20
    handle-Only api_get_database h = search api_rules depth 20
    handle-Only api_create_server h = cc
    handle-Only api_update_server h = cc
    handle-Only api_delete_server h = cc
    handle-Only api_create_database h = cc
    handle-Only api_update_database h = cc
    handle-Only api_delete_database h = cc

  module _ (days_since : Text → Option ℤ) where
    database_health-Only :
        (server : Text) (db : DatabaseConfig) (b : Option BackupConfig)
        → Only IsRead (Health.database_health env days_since server db b)
    unfolding Health.database_health Health.backup_age
    database_health-Only server db none = Only-pure _
    database_health-Only server db (some b) = search read_rules

    databases_health-Only :
        (server : Text) (dbs : List DatabaseConfig) (c : Health.Counters)
        → Only IsRead (Health.databases_health env days_since server dbs c)
    unfolding Health.databases_health
    databases_health-Only server [] c = Only-pure _
    databases_health-Only server (db ∷ dbs) c =
        Only-bind _ _ (database_health-Only server db db.backup)
          λ h. Only-bind _ _ (databases_health-Only server dbs _) λ r. Only-pure _

    health_for-Only :
        (servers : List DatabaseServer) → Only IsRead (Health.health_for env days_since servers)
    unfolding Health.health_for Health.server_health
    health_for-Only [] = Only-pure _
    health_for-Only (s ∷ ss) =
        Only-bind _ _ (Only-bind _ _ (databases_health-Only s.name s.databases _) λ r. Only-pure _)
          λ h. Only-bind _ _ (health_for-Only ss) λ hs. Only-pure _

module _ (env : Env) (refusal : HttpRequest → Option Text) (days_since : Text → Option ℤ)
    (settings : Settings) (manager : Option Text) where
  render-Only :
      (response : Response) → Only IsRead (render env refusal days_since settings manager response)
  unfolding render render_index
  render-Only (page cfg msg reveal) =
      Only-bind _ _ (Only-bind _ _ (health_for-Only env days_since cfg.servers) λ h. Only-pure _)
        λ c. Only-pure _
  render-Only (http_error status m) = Only-pure _
  render-Only (redirect m) = Only-pure _
  render-Only (json_error status m) = Only-pure _
  render-Only (json_servers ss) = Only-pure _
  render-Only (json_server status s) = Only-pure _
  render-Only (json_databases ds) = Only-pure _
  render-Only (json_database status d p) = Only-pure _
  render-Only no_content = Only-pure _

  serve_route-Only :
      (r : HttpRequest)
      → IsGet r.method
      → Only IsRead (serve_route env refusal days_since settings manager r)
  unfolding serve_route form_request
  serve_route-Only r get =
      Only-bind _ _
        (Only-try _ (
          handle-Only env manager r _ (IsGet-not_post r.method get) _
            (find_route-takes_get routes r.method r.path (routes-only_get r.method get))))
        λ result. Only-bind _ _ (render-Only _) λ content. Only-pure _

  basic_auth-Only :
      (r : HttpRequest)
      → IsGet r.method
      → Only IsRead (basic_auth env refusal days_since settings manager r)
  unfolding basic_auth
  basic_auth-Only r get = search (only_rules, serve_route-Only)

  protected-Only :
      (o : Option Text) (r : HttpRequest)
      → IsGet r.method
      → Only IsRead (protected env refusal days_since settings manager o r)
  unfolding protected
  protected-Only none r get = basic_auth-Only r get
  protected-Only (some message) r get = Only-pure _

  -- A GET or HEAD request, whatever its path, form and credentials, makes only calls that
  -- read, so it changes no database, Secret, file, object in S3 or config.
  pub serve-get :
      (r : HttpRequest)
      → IsGet r.method
      → Only IsRead (serve env refusal days_since settings manager r)
  unfolding serve
  serve-get r get = search (only_rules, protected-Only)
