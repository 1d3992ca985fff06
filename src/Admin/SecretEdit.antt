-- ===== src/Admin/SecretEdit.antt =====
-- The handlers for Kubernetes Secrets: `handleRotateSecret` and `handleMoveToSecret`.
use homelab_db_provisioner.Prelude.{
  not, ◌&&◌, Option, none, some, [], ◌∷◌, ◌++◌, Text, txt, text_eq, is_empty, if◌then◌else◌,
}
use homelab_db_provisioner.Config.{DatabaseConfig, Config}
use homelab_db_provisioner.World.{Env, Err, Exec, pure, raise, lift, ◌>>=◌, ◌>>◌, on_err}
use homelab_db_provisioner.Http.{Request, form_value, Response, http_error, redirect}
use homelab_db_provisioner.Secrets.Names.{claim_secret_name}
use homelab_db_provisioner.Secrets.Manager.{reconcile_password, rotate_secret}
use homelab_db_provisioner.Process.Pass.{process_config}
use homelab_db_provisioner.Admin.Row.{
  Row, parse_index, server_index, db_index, require, load_row, save, replace_row,
}

-- The namespace of the manager, if Kubernetes mode is on.
unfoldable pub require_manager : Option Text → Exec Response Text
require_manager none = raise (http_error 400 (txt "Kubernetes secrets mode is not enabled"))
require_manager (some namespace) = pure namespace

-- The config of one server with one database that is provisioned after a rotation.
unfoldable pub single_server_config : Row → Config
single_server_config row = record {
  servers = record row.server { databases = row.db ∷ [] } ∷ [];
  s3 = none;
}

-- What a reconciliation tells the user.
unfoldable pub moved_msg : DatabaseConfig → Text → Text → Text
moved_msg db name live_password =
    if not (is_empty db.password) && not (text_eq live_password db.password)
    then txt "Kubernetes Secret "
      ++ (name
          ++ (txt " already existed and is now used for "
              ++ (db.database ++ txt "; its password replaces the one from the config file")))
    else txt "Moved the password for " ++ (db.database ++ (txt " into Kubernetes Secret " ++ name))

module _ (env : Env) (manager : Option Text) (req : Request) where
  -- The checks in the order of these two handlers.
  unfoldable pub check_secret_post : Exec Response Text
  check_secret_post = do
    require req.is_post 405 (txt "Method not allowed")
    namespace ← require_manager manager
    require req.form_parses 400 (txt "Bad request")
    pure namespace

  -- The provisioning runs beside the response; its calls come after those of the handler.
  unfoldable pub handle_rotate_secret : Exec Response Response
  unfolding check_secret_post
  handle_rotate_secret = do
    namespace ← check_secret_post
    si ← parse_index req server_index
    di ← parse_index req db_index
    row ← load_row env req si di
    password ←
        on_err (λ (e : Err). redirect (txt "Error: failed to rotate secret: " ++ e.message))
          (rotate_secret env namespace row.server.root_connection_string row.db)
    on_err absurd (process_config env manager (single_server_config row))
    pure (redirect (txt "Rotated Kubernetes secret " ++ row.db.k8s_secret))

  unfoldable pub move_row : Text → Row → Text → Exec Response Response
  move_row namespace row name = do
    let db = record row.db { k8s_secret = name }
    live_password ←
        on_err (λ (e : Err). redirect (txt "Error: failed to create secret: " ++ e.message))
          (reconcile_password env namespace row.server.root_connection_string db)
    save env (replace_row row (record db { password = [] }))
    pure (redirect (moved_msg row.db name live_password))

  -- The Secret is written first, the config second.
  unfoldable pub handle_move_to_secret : Exec Response Response
  unfolding check_secret_post move_row
  handle_move_to_secret = do
    namespace ← check_secret_post
    si ← parse_index req server_index
    di ← parse_index req db_index
    row ← load_row env req si di
    if not (is_empty row.db.k8s_secret)
        then raise (
            redirect
              (row.db.database ++ (txt " is already in Kubernetes Secret " ++ row.db.k8s_secret)))
        else (do
          name ←
              on_err (λ (e : Err). redirect (txt "Error: " ++ e.message))
                (lift (
                  claim_secret_name env row.config (form_value req (txt "secret_name"))
                    row.db.database))
          move_row namespace row name)
