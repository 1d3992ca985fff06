-- ===== src/Admin/Edit.antt =====
-- The handlers that edit one row: passwords, backups and migrations.
use homelab_db_provisioner.Prelude.{
  Bool, false, not, ◌&&◌, ◌||◌, Option, none, some, [], ◌++◌, Text, txt, text_eq, is_empty,
  trim_space, if◌then◌else◌,
}
use homelab_db_provisioner.Config.{MigrateConfig, DatabaseServer}
use homelab_db_provisioner.World.{Env, Err, Exec, pure, raise, lift, ◌>>=◌, ◌>>◌, on_err}
use homelab_db_provisioner.Http.{Request, form_value, Response, redirect, page}
use homelab_db_provisioner.Secrets.Password.{generate_password}
use homelab_db_provisioner.Migrate.Target.{resolve_target_server}
use homelab_db_provisioner.Admin.Row.{
  Row, check_post, parse_index, server_index, db_index, require, load_row, save, replace_row,
}
use homelab_db_provisioner.Admin.Fields.{is_on, parse_backup_fields}

module _ (env : Env) (req : Request) where
  unfoldable pub handle_reveal_password : Exec Response Response
  handle_reveal_password = do
    check_post req
    si ← parse_index req server_index
    di ← parse_index req db_index
    row ← load_row env req si di
    require (is_empty row.db.k8s_secret) 400
        (txt "This password lives in a Kubernetes Secret; read it with kubectl")
    pure (
        page row.config [] (
          some (record {
            server = row.server.name;
            database = row.db.database;
            user = row.db.user;
            password = row.db.password;
          })))

  unfoldable pub handle_update_password : Exec Response Response
  handle_update_password = do
    check_post req
    si ← parse_index req server_index
    di ← parse_index req db_index
    let new_password = form_value req (txt "new_password")
    require (not (is_empty new_password)) 400 (txt "new_password is required")
    row ← load_row env req si di
    save env (replace_row row (record row.db { password = new_password }))
    pure (redirect (txt "Password updated"))

  unfoldable pub handle_generate_password : Exec Response Response
  handle_generate_password = do
    check_post req
    si ← parse_index req server_index
    di ← parse_index req db_index
    new_password ←
        on_err (λ e. redirect (txt "Error: failed to generate password")) (generate_password env)
    row ← load_row env req si di
    save env (replace_row row (record row.db { password = new_password }))
    pure (
        redirect (
          txt "Generated a new password for "
          ++ (row.db.database ++ txt " and saved it to the config file. Use Show to view it.")))

  unfoldable pub handle_update_backup : Exec Response Response
  handle_update_backup = do
    check_post req
    si ← parse_index req server_index
    di ← parse_index req db_index
    row ← load_row env req si di
    save env (replace_row row (record row.db { backup = some (parse_backup_fields req) }))
    pure (redirect (txt "Backup settings updated"))

  unfoldable pub confirm_name : Text
  confirm_name = trim_space (form_value req (txt "confirm_database"))

  -- `confirmDrop`: the box of older pages, or a name typed.
  unfoldable pub confirms_drop : Bool
  unfolding confirm_name
  confirms_drop = is_on req (txt "confirm_drop") || not (is_empty confirm_name)

  unfoldable pub drop_not_confirmed_msg : Text → Text
  drop_not_confirmed_msg db_name =
      txt
        "Error: migration not scheduled. To drop the source after migrating, type the database name \""
      ++ (db_name ++ txt "\" exactly. Leave the field empty to keep the source.")

  unfoldable pub scheduled : Text → MigrateConfig
  scheduled target = record {
    target_server = target;
    confirm_drop = confirms_drop;
    completed = false;
    completed_at = [];
    error = [];
  }

  -- A drop takes the database's name typed back.
  unfoldable pub confirm_migration : Row → Text → Exec Response (Option MigrateConfig)
  confirm_migration row target =
      if confirms_drop && not (text_eq confirm_name row.db.database)
      then raise (redirect (drop_not_confirmed_msg row.db.database))
      else pure (some (scheduled target))

  unfoldable pub resolve_target : Row → Text → Exec Response DatabaseServer
  resolve_target row target =
      on_err (λ (e : Err). redirect (txt "Error: " ++ e.message))
        (lift (resolve_target_server row.config.servers target row.server.name))

  -- The migration that the form asks for.
  unfoldable pub requested_migration : Row → Text → Exec Response (Option MigrateConfig)
  unfolding resolve_target
  requested_migration row target =
      if is_empty target
      then pure none
      else (do resolved ← resolve_target row target; confirm_migration row target)

  unfoldable pub migration_msg : Text → Text
  migration_msg target =
      if is_empty target
      then txt "Migration cleared"
      else if confirms_drop
      then txt "Migration scheduled; the source will be dropped after it's verified"
      else txt "Migration scheduled; the source will be kept"

  unfoldable pub handle_migrate_database : Exec Response Response
  unfolding migration_msg confirms_drop
  handle_migrate_database = do
    check_post req
    si ← parse_index req server_index
    di ← parse_index req db_index
    let target = trim_space (form_value req (txt "target_server"))
    row ← load_row env req si di
    migration ← requested_migration row target
    save env (replace_row row (record row.db { migrate = migration }))
    pure (redirect (migration_msg target))
