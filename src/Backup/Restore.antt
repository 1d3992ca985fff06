-- ===== src/Backup/Restore.antt =====
-- Restoring: `findNewestBackup`, `restorePostgreSQL`, `restoreMariaDB`, `restoreMongoDB` and
-- `restoreDatabase`.
use homelab_db_provisioner.Prelude.{
  Option, none, some, List, [], ◌∷◌, ◌++◌, Text, txt, is_empty, Result, ok, err, if◌then◌else◌,
}
use homelab_db_provisioner.Prelude.Sort.{sort}
use homelab_db_provisioner.Slug.{slugify}
use homelab_db_provisioner.S3.{new_s3_client, download_newest_from_s3}
use homelab_db_provisioner.S3.Keys.{last_or_empty}
use homelab_db_provisioner.Config.{
  DatabaseConfig, DatabaseServer, Config, S3Config, DbType, postgresql, maria_db, mongo_db,
  detect_db_type,
}
use homelab_db_provisioner.World.{
  Env, Err, Command, Exec, pure, lift, ◌>>=◌, ◌>>◌, on_err, try, wrap, call, ask_list, glob,
  run_command, feed_from, open_file, open_gzip,
}
use homelab_db_provisioner.Conn.{conn_str_with_db, parse_mariadb_conn}
use homelab_db_provisioner.Provision.Statement.{call_or}
use homelab_db_provisioner.Backup.Dump.{plain_command, mysql_command, mongo_command, command_error}

-- The extension of backup files.
unfoldable pub backup_suffix : DbType → Text
backup_suffix mongo_db = txt ".archive.gz"
backup_suffix _ = txt ".sql.gz"

module _ (env : Env) where
  unfoldable pub backup_dir : Text → Text → Text
  backup_dir server_name database = env.join_path (
      env.dir_path env.config_path
      ∷ (txt "backups" ∷ (slugify env.to_lower server_name ∷ (database ∷ []))))

  unfoldable pub newest_in_s3 : S3Config → Text → Text → Exec Err Text
  newest_in_s3 s3 server_name database = do
    new_s3_client env
    download_newest_from_s3 env s3 (slugify env.to_lower server_name) database
        (backup_dir server_name database)

  -- An error is logged, and no file found.
  unfoldable pub or_no_file : Result Err Text → Exec ⊥ Text
  or_no_file (ok file) = pure file
  or_no_file (err e) = pure []

  unfoldable pub from_s3 : Option S3Config → Text → Text → Exec ⊥ Text
  from_s3 none server_name database = pure []
  from_s3 (some s3) server_name database = do
    r ← try (newest_in_s3 s3 server_name database)
    or_no_file r

  unfoldable pub newest_of : Option S3Config → Text → Text → Result Err (List Text) → Exec ⊥ Text
  newest_of s3 server_name database (ok (f ∷ files)) = pure (last_or_empty (sort (f ∷ files)))
  newest_of s3 server_name database _ = from_s3 s3 server_name database

  -- The newest local backup, or else the newest in S3; the empty text if there is none.
  unfoldable pub find_newest_backup : Option S3Config → Text → Text → DbType → Exec ⊥ Text
  find_newest_backup s3 server_name database db_type = do
    files ← try (
        ask_list env (
          glob (
            env.join_path (
              backup_dir server_name database
              ∷ ((database ++ (txt "_*" ++ backup_suffix db_type)) ∷ [])))))
    newest_of s3 server_name database files

  feed_into : Command → Text → Exec Err (Unit {0})
  feed_into command file = do
    call_or env (txt "open backup: ") (open_file file)
    call_or env (txt "gzip reader: ") (open_gzip file)
    on_err (command_error (command.program ++ txt ": ")) (call env (feed_from command file))

  unfoldable pub restore_postgresql : Text → Text → Text → Exec Err (Unit {0})
  unfolding feed_into
  restore_postgresql root database file = do
    conn_str ← lift (conn_str_with_db env root database)
    feed_into (plain_command (txt "psql") (txt "--no-password" ∷ (conn_str ∷ []))) file

  unfoldable pub restore_mariadb : Text → Text → Text → Exec Err (Unit {0})
  unfolding feed_into
  restore_mariadb root database file = do
    c ← on_err (wrap (txt "parse connection string: ")) (lift (parse_mariadb_conn env root))
    feed_into (mysql_command (txt "mysql") c database) file

  unfoldable pub restore_mongodb : Text → Text → Text → Exec Err (Unit {0})
  restore_mongodb uri database file = on_err (command_error (txt "mongorestore failed: ")) (
      call env
        (run_command (mongo_command (txt "mongorestore") uri database file (txt "--drop" ∷ []))))

  unfoldable pub restore_by : DbType → Text → Text → Text → Exec Err (Unit {0})
  restore_by postgresql = restore_postgresql
  restore_by mongo_db = restore_mongodb
  restore_by maria_db = restore_mariadb

  -- Errors are only logged.
  unfoldable pub restore_database : Config → DatabaseServer → DatabaseConfig → Exec ⊥ (Unit {0})
  restore_database config server db = do
    let db_type = detect_db_type server.root_connection_string
    file ← find_newest_backup config.s3 server.name db.database db_type
    if is_empty file then pure tt else (do
      r ← try (restore_by db_type server.root_connection_string db.database file)
      pure tt)
