-- ===== src/S3.antt =====
-- Backups in S3, s3.go. The SDK's client is left out: a call names the bucket.
pub mod Keys
pub mod KeysLaws
use homelab_db_provisioner.Prelude.{
  Bool, true, false, Option, none, some, List, [], ◌∷◌, ◌++◌, Text, txt, is_empty, ℤ, is_positive,
  Result, ok, err, if◌then◌else◌,
}
use homelab_db_provisioner.Config.{S3Config}
use homelab_db_provisioner.World.{
  Env, Err, Exec, pure, ◌>>=◌, ◌>>◌, on_err, try, for_each, wrap, call, call_ignoring, ask_list,
  s3_client, s3_put, s3_get, s3_list, s3_delete, open_file, create_file, make_dir, save_body,
}
use homelab_db_provisioner.Provision.Statement.{call_or}
use homelab_db_provisioner.S3.Keys.{s3_key_prefix, select_keys_to_delete, newest_key}

module _ (env : Env) where
  -- The SDK's configuration may fail to load.
  unfoldable pub new_s3_client : Exec Err (Unit {0})
  new_s3_client = call_or env (txt "load aws config: ") s3_client

  unfoldable pub upload_to_s3 : S3Config → Text → Text → Text → Exec Err (Unit {0})
  upload_to_s3 cfg server_slug database local_file = do
    call_or env (txt "open local file: ") (open_file local_file)
    let key = s3_key_prefix cfg server_slug database ++ (txt "/" ++ env.base_path local_file)
    call_or env (txt "put object " ++ (key ++ txt ": ")) (s3_put cfg.bucket key local_file)

  list_keys : S3Config → Text → Text → Exec Err (List Text)
  list_keys cfg server_slug database =
      let prefix = s3_key_prefix cfg server_slug database ++ txt "/" in
      on_err (wrap (txt "list objects " ++ (prefix ++ txt ": ")))
        (ask_list env (s3_list cfg.bucket prefix))

  unfoldable pub prune_s3_backups : S3Config → Text → Text → ℤ → Exec Err (Unit {0})
  unfolding list_keys
  prune_s3_backups cfg server_slug database keep_count =
      if is_positive keep_count
      then (do
        keys ← list_keys cfg server_slug database
        for_each (select_keys_to_delete keys keep_count)
            (λ key. call_ignoring (s3_delete cfg.bucket key)))
      else pure tt

  download : S3Config → Text → Text → Exec Err Text
  download cfg dir key = do
    call_or env (txt "mkdir " ++ (dir ++ txt ": ")) (make_dir dir)
    call_or env (txt "get object " ++ (key ++ txt ": ")) (s3_get cfg.bucket key)
    let local_path = env.join_path (dir ∷ (env.base_path key ∷ []))
    call_or env (txt "create local file: ") (create_file local_path)
    call_or env (txt "write local file: ") (save_body local_path)
    pure local_path

  -- The path of the newest backup's copy, or the empty text.
  unfoldable pub download_newest_from_s3 : S3Config → Text → Text → Text → Exec Err Text
  unfolding list_keys download
  download_newest_from_s3 cfg server_slug database dir = do
    keys ← list_keys cfg server_slug database
    let key = newest_key keys
    if is_empty key then pure [] else download cfg dir key
