-- ===== src/Api/Databases.antt =====
-- The handlers under /api/servers/{si}/databases.
use homelab_db_provisioner.Prelude.{
  ◌||◌, Option, none, some, List, [], Text, txt, is_empty, length, set, erase_idx, if◌then◌else◌,
}
use homelab_db_provisioner.Config.{BackupConfig, DatabaseConfig, Config, blank_database}
use homelab_db_provisioner.World.{Env, Err, Exec, pure, raise, lift, ◌>>=◌, ◌>>◌, on_err}
use homelab_db_provisioner.Http.{Response, json_error, json_databases, json_database, no_content}
use homelab_db_provisioner.Secrets.Names.{claim_secret_name}
use homelab_db_provisioner.Secrets.Password.{generate_password}
use homelab_db_provisioner.Migrate.Target.{set_database}
use homelab_db_provisioner.Admin.Add.{append_database}
use homelab_db_provisioner.Api.Servers.{given_or}
use homelab_db_provisioner.Api.Common.{
  to_database_response, to_database_responses, server_path_index, database_path_index, decode_body,
  load_config_file, save_config_file, server_at, database_at,
}

pub record CreateDatabaseRequest : Type 0 where
  pub database : Text
  pub user : Text
  pub password : Text
  pub permissions : List Text
  pub extensions : List Text
  pub backup : Option BackupConfig
  pub secret_name : Text

pub record UpdateDatabaseRequest : Type 0 where
  pub user : Option Text
  pub password : Option Text
  pub permissions : Option (List Text)
  pub extensions : Option (List Text)
  pub backup : Option BackupConfig

-- A backup that is given replaces the old one, and is kept as a pointer.
unfoldable pub update_database : UpdateDatabaseRequest → DatabaseConfig → DatabaseConfig
update_database req db = record db {
  user = given_or req.user db.user;
  password = given_or req.password db.password;
  permissions = given_or req.permissions db.permissions;
  extensions = given_or req.extensions db.extensions;
  backup = elim req.backup [ none ↦ db.backup | some b ↦ some b ];
}

unfoldable pub requested_database : CreateDatabaseRequest → Text → DatabaseConfig
requested_database req password = record blank_database {
  database = req.database;
  user = req.user;
  password = password;
  permissions = req.permissions;
  extensions = req.extensions;
  backup = req.backup;
}

module _ (env : Env) (manager : Option Text) where
  unfoldable pub handle_api_list_databases : Text → Exec Response Response
  handle_api_list_databases path_si = do
    si ← server_path_index path_si
    cfg ← load_config_file env
    (i, server) ← server_at cfg si
    pure (json_databases (to_database_responses 0 server.databases))

  unfoldable pub handle_api_get_database : Text → Text → Exec Response Response
  handle_api_get_database path_si path_di = do
    si ← server_path_index path_si
    di ← database_path_index path_di
    cfg ← load_config_file env
    (i, server) ← server_at cfg si
    (j, db) ← database_at server di
    pure (json_database 200 (to_database_response j db) [])

  -- The password to store, and the one that was generated, if any.
  unfoldable pub choose_password : Option Text → Text → Exec Response (Text × Text)
  choose_password (some namespace) password =
      if is_empty password
      then pure ([], [])
      else raise (
          json_error 400
            (txt "omit password: new databases get a generated password in a Kubernetes Secret"))
  choose_password none password =
      if is_empty password
      then (do
        generated ←
            on_err (λ e. json_error 500 (txt "failed to generate password")) (generate_password env)
        pure (generated, generated))
      else pure (password, [])

  unfoldable pub claim_for : Option Text → Config → CreateDatabaseRequest → Exec Response Text
  claim_for none cfg req = pure []
  claim_for (some namespace) cfg req =
      on_err (λ (e : Err). json_error 400 e.message)
        (lift (claim_secret_name env cfg req.secret_name req.database))

  unfoldable pub handle_api_create_database :
      Text → Option CreateDatabaseRequest → Exec Response Response
  handle_api_create_database path_si body = do
    si ← server_path_index path_si
    req ← decode_body body
    if is_empty req.database || is_empty req.user
        then raise (json_error 400 (txt "database and user are required"))
        else (do
          (password, generated) ← choose_password manager req.password
          cfg ← load_config_file env
          (i, server) ← server_at cfg si
          name ← claim_for manager cfg req
          let db = record (requested_database req password) { k8s_secret = name }
          save_config_file env (append_database cfg i server db)
          pure (json_database 201 (to_database_response (length server.databases) db) generated))

  unfoldable pub handle_api_update_database :
      Text → Text → Option UpdateDatabaseRequest → Exec Response Response
  handle_api_update_database path_si path_di body = do
    si ← server_path_index path_si
    di ← database_path_index path_di
    req ← decode_body body
    cfg ← load_config_file env
    (i, server) ← server_at cfg si
    (j, db) ← database_at server di
    let db' = update_database req db
    save_config_file env (set_database cfg i j server db')
    pure (json_database 200 (to_database_response j db') [])

  unfoldable pub handle_api_delete_database : Text → Text → Exec Response Response
  handle_api_delete_database path_si path_di = do
    si ← server_path_index path_si
    di ← database_path_index path_di
    cfg ← load_config_file env
    (i, server) ← server_at cfg si
    (j, db) ← database_at server di
    save_config_file env (record cfg {
      servers = set cfg.servers i (record server { databases = erase_idx server.databases j });
    })
    pure no_content
