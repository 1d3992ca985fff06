-- ===== src/Secrets/Manager.antt =====
-- The methods of `k8sSecretsManager`, and `applyK8sPassword`. A manager is its namespace.
use homelab_db_provisioner.Prelude.{
  Bool, Option, none, some, List, [], ◌∷◌, ◌++◌, Text, txt, text_eq, is_empty, ◌&&◌, Result, ok,
  err, if◌then◌else◌,
}
use homelab_db_provisioner.Prelude.Dict.{get_or, insert, erase}
use homelab_db_provisioner.Config.{DatabaseConfig}
use homelab_db_provisioner.World.{
  Env, Err, Secret, Exec, pure, raise, lift, ◌>>=◌, ◌>>◌, on_err, map_err, wrap, new_error, call,
  ask_secret, secret_get, secret_create, secret_update,
}
use homelab_db_provisioner.Secrets.Password.{generate_password}

unfoldable pub managed_by_label : Text
managed_by_label = txt "app.kubernetes.io/managed-by"

unfoldable pub managed_by_value : Text
managed_by_value = txt "homelab-db-provisioner"

unfoldable pub password_key : Text
password_key = txt "password"

unfoldable pub connection_key : Text
connection_key = txt "connection_string"

-- The Secret was created by this program.
unfoldable pub is_managed : Secret → Bool
is_managed s = text_eq (get_or [] managed_by_label s.labels) managed_by_value

-- `secret.Data[k] = v` and `delete(secret.StringData, k)` for each entry of the new contents
unfoldable pub overwrite : List (Text × Text) → Secret → Secret
overwrite [] s = s
overwrite ((k, v) ∷ entries) s =
    overwrite entries
      (record s { contents = insert k v s.contents; string_contents = erase k s.string_contents })

module _ (env : Env) where
  unfoldable pub build_connect_string : Text → DatabaseConfig → Text → Result Err Text
  build_connect_string root db password =
      map_err (wrap (txt "parse root connection string: "))
        (env.url_with_login root db.user password (txt "/" ++ db.database))

  unfoldable pub secret_data : Text → DatabaseConfig → Text → Result Err (List (Text × Text))
  secret_data root db password =
      if db.requires_connect_string
      then elim (build_connect_string root db password) [
        | err e ↦ err (wrap (txt "build connection string for " ++ (db.k8s_secret ++ txt ": ")) e)
        | ok conn_str ↦ ok ((password_key, password) ∷ ((connection_key, conn_str) ∷ []))
      ]
      else ok ((password_key, password) ∷ [])

  module _ (namespace : Text) where
    unfoldable pub check_managed : Text → Option Secret → Exec Err (Option Secret)
    check_managed name none = pure none
    check_managed name (some secret) =
        if is_managed secret
        then pure (some secret)
        else raise (
            new_error (
              txt "secret "
              ++ (name
                  ++ (txt " exists but isn't managed by "
                      ++ (managed_by_value ++ txt "; choose another name")))))

    unfoldable pub managed_secret : Text → Exec Err (Option Secret)
    managed_secret name = do
      secret ←
          on_err (wrap (txt "get secret " ++ (name ++ txt ": ")))
            (ask_secret env (secret_get namespace name))
      check_managed name secret

    unfoldable pub new_secret : Text → List (Text × Text) → Secret
    new_secret name entries = record {
      name = name;
      namespace = namespace;
      labels = (managed_by_label, managed_by_value) ∷ [];
      contents = entries;
      string_contents = [];
    }

    unfoldable pub create_secret : Text → List (Text × Text) → Exec Err (Unit {0})
    create_secret name entries =
        on_err (wrap (txt "create secret " ++ (name ++ txt ": ")))
          (call env (secret_create (new_secret name entries)))

    -- The connection string that an existing Secret lacks.
    unfoldable pub add_connect_string : Text → DatabaseConfig → Secret → Text → Exec Err Text
    add_connect_string root db secret password =
        if db.requires_connect_string && is_empty (get_or [] connection_key secret.contents)
        then (do
          conn_str ←
              on_err (wrap (txt "build connection string for " ++ (db.k8s_secret ++ txt ": ")))
                (lift (build_connect_string root db password))
          on_err (wrap (txt "update secret " ++ (db.k8s_secret ++ txt " with connection_string: ")))
              (call env (
                secret_update
                  (record secret { contents = insert connection_key conn_str secret.contents })))
          pure password)
        else pure password

    -- The password in a Secret; a missing key reads as the empty one.
    unfoldable pub from_secret : Text → DatabaseConfig → Secret → Exec Err Text
    from_secret root db secret =
        let password = get_or [] password_key secret.contents in
        if is_empty password
        then raise
            (new_error (txt "secret " ++ (db.k8s_secret ++ txt " exists but has no password key")))
        else add_connect_string root db secret password

    -- The password of a new Secret: that of the config, or else a generated one.
    unfoldable pub seed_password : Text → Exec Err Text
    seed_password password =
        if is_empty password
        then on_err (wrap (txt "generate password: ")) (generate_password env)
        else pure password

    unfoldable pub seed_secret : Text → DatabaseConfig → Exec Err Text
    seed_secret root db = do
      password ← seed_password db.password
      entries ← lift (secret_data root db password)
      create_secret db.k8s_secret entries
      pure password

    unfoldable pub from_found : Text → DatabaseConfig → Option Secret → Exec Err Text
    from_found root db none = seed_secret root db
    from_found root db (some secret) = from_secret root db secret

    unfoldable pub reconcile_password : Text → DatabaseConfig → Exec Err Text
    reconcile_password root db = do secret ← managed_secret db.k8s_secret; from_found root db secret

    unfoldable pub write_rotated : Text → List (Text × Text) → Text → Option Secret → Exec Err Text
    write_rotated name entries password none = do create_secret name entries; pure password
    write_rotated name entries password (some secret) = do
      on_err (wrap (txt "update secret " ++ (name ++ txt ": ")))
          (call env (secret_update (overwrite entries secret)))
      pure password

    unfoldable pub rotate_secret : Text → DatabaseConfig → Exec Err Text
    rotate_secret root db =
        if is_empty db.k8s_secret
        then raise (new_error (db.database ++ txt " is not stored in a Kubernetes Secret"))
        else (do
          password ← on_err (wrap (txt "generate password: ")) (generate_password env)
          entries ← lift (secret_data root db password)
          secret ← managed_secret db.k8s_secret
          write_rotated db.k8s_secret entries password secret)

  -- The manager is `none` unless USE_KUBERNETES_SECRETS=true.
  unfoldable pub apply_password : Option Text → Text → DatabaseConfig → Exec Err DatabaseConfig
  apply_password none root db =
      if is_empty db.password
      then raise (
          new_error (
            txt "k8s_secret is set but USE_KUBERNETES_SECRETS is off; refusing to provision "
            ++ (db.database ++ txt " with an empty password")))
      else pure db
  apply_password (some namespace) root db = do
    password ← reconcile_password namespace root db
    pure (record db { password = password })

  unfoldable pub apply_k8s_password : Option Text → Text → DatabaseConfig → Exec Err DatabaseConfig
  unfolding apply_password
  apply_k8s_password manager root db =
      if is_empty db.k8s_secret then pure db else apply_password manager root db
