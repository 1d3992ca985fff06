-- ===== src/Admin/Add.antt =====
-- The handlers that add a database or a server.
use homelab_db_provisioner.Prelude.{
  ℕ, Bool, true, not, ◌&&◌, ◌||◌, Option, none, some, [], ◌∷◌, ◌++◌, Text, txt, text_eq, is_empty,
  trim_space, any, set, ℤ, pos, negsuc, if◌then◌else◌, ◌==◌,
}
use homelab_db_provisioner.Config.{
  BackupConfig, DatabaseConfig, DatabaseServer, Config, blank_database,
}
use homelab_db_provisioner.World.{Env, Err, Exec, pure, raise, lift, ◌>>=◌, ◌>>◌, on_err}
use homelab_db_provisioner.Http.{Request, form_value, Response, redirect}
use homelab_db_provisioner.Secrets.Names.{claim_secret_name}
use homelab_db_provisioner.Secrets.Password.{generate_password}
use homelab_db_provisioner.Admin.Row.{
  check_post, parse_index, server_index, require, read_config, check_server, save,
}
use homelab_db_provisioner.Admin.Fields.{is_on, parse_backup_fields, parse_permissions}

-- `keep_count != 0`
abbrev pub is_nonzero : ℤ → Bool
is_nonzero (pos n) = not (n == 0)
is_nonzero (negsuc n) = true

-- The backup settings, unless none was given.
unfoldable pub given_backup : BackupConfig → Option BackupConfig
given_backup b =
    if b.enabled || (b.restore_on_create || is_nonzero b.keep_count) then some b else none

-- `cfg.Servers[si].Databases = append(cfg.Servers[si].Databases, db)`
unfoldable pub append_database : Config → ℕ → DatabaseServer → DatabaseConfig → Config
append_database cfg si server db = record cfg {
  servers = set cfg.servers si (record server { databases = server.databases ++ (db ∷ []) });
}

-- `cfg.Servers = append(cfg.Servers, server)`
unfoldable pub append_server : Config → DatabaseServer → Config
append_server cfg server = record cfg { servers = cfg.servers ++ (server ∷ []) }

abbrev pub has_database : Text → DatabaseConfig → Bool
has_database database d = text_eq d.database database

abbrev pub has_server_name : Text → DatabaseServer → Bool
has_server_name name s = text_eq s.name name

module _ (env : Env) (manager : Option Text) (req : Request) where
  -- The Secret's name, or the password of an entry without a Secret.
  unfoldable pub with_credentials :
      Option Text → Config → DatabaseConfig → Exec Response DatabaseConfig
  with_credentials (some namespace) cfg db = do
    name ←
        on_err (λ (e : Err). redirect (txt "Error: " ++ e.message))
          (lift (claim_secret_name env cfg (form_value req (txt "secret_name")) db.database))
    pure (record db { k8s_secret = name; password = [] })
  with_credentials none cfg db =
      if is_empty db.password
      then (do
        password ←
            on_err (λ e. redirect (txt "Error: failed to generate password"))
              (generate_password env)
        pure (record db { password = password }))
      else pure db

  added_msg : Text
  added_msg = elim manager [
    | some namespace ↦ txt "Database added"
    | none ↦
        if is_empty (form_value req (txt "password"))
        then txt "Database added with a generated password. Use Show under Manage to view it."
        else txt "Database added"
  ]

  -- The entry that the form describes, before its credentials.
  unfoldable pub form_database : Text → Text → DatabaseConfig
  form_database database user = record blank_database {
    database = database;
    user = user;
    password = form_value req (txt "password");
    permissions = parse_permissions (form_value req (txt "permissions"));
    requires_connect_string = is_on req (txt "requires_connect_string");
  }

  unfoldable pub handle_add_database : Exec Response Response
  unfolding added_msg
  handle_add_database = do
    check_post req
    si ← parse_index req server_index
    let database = trim_space (form_value req (txt "database"))
    let user = trim_space (form_value req (txt "user"))
    require (not (is_empty database) && not (is_empty user)) 400
        (txt "database and user are required")
    cfg ← read_config env
    (i, server) ← check_server cfg si
    if any (has_database database) server.databases
        then raise (
            redirect (
              txt "Error: " ++ (server.name ++ (txt " already has a database named " ++ database))))
        else (do
          db ← with_credentials manager cfg (form_database database user)
          save env (
              append_database cfg i server
                (record db { backup = given_backup (parse_backup_fields req) }))
          pure (redirect added_msg))

  unfoldable pub form_server : Text → Text → DatabaseServer
  form_server name root = record {
    name = name;
    root_connection_string = root;
    dry_run = is_on req (txt "dry_run");
    databases = [];
  }

  unfoldable pub handle_add_server : Exec Response Response
  handle_add_server = do
    check_post req
    let name = trim_space (form_value req (txt "name"))
    let root = trim_space (form_value req (txt "root_connection_string"))
    require (not (is_empty name) && not (is_empty root)) 400
        (txt "name and root_connection_string are required")
    cfg ← read_config env
    if any (has_server_name name) cfg.servers
        then raise (redirect (txt "Error: a server named " ++ (name ++ txt " already exists")))
        else (do
          save env (append_server cfg (form_server name root))
          pure (redirect (txt "Server added")))
