-- ===== src/Backup/Schedule.antt =====
-- `runBackups`, with `mongoDBBackupSchedule`, which it calls at each MongoDB server.
use homelab_db_provisioner.Prelude.{
  ℕ, Bool, not, ◌&&◌, ◌||◌, Option, none, some, List, [], ◌∷◌, ◌++◌, Text, txt, text_eq, ℤ,
  is_positive, to_nat, Result, ok, err, ◌==◌, if◌then◌else◌,
}
use homelab_db_provisioner.Slug.{slugify}
use homelab_db_provisioner.S3.{new_s3_client, upload_to_s3, prune_s3_backups}
use homelab_db_provisioner.Config.{
  BackupConfig, DatabaseConfig, DatabaseServer, Config, S3Config, DbType, postgresql, maria_db,
  mongo_db, is_mongo_db, detect_db_type, is_migrated,
}
use homelab_db_provisioner.World.{
  Env, Err, Exec, pure, ◌>>=◌, ◌>>◌, try, for_each, call, call_ignoring, make_dir, remove_file,
}
use homelab_db_provisioner.Backup.Dump.{backup_postgresql, backup_mariadb, backup_mongodb}
use homelab_db_provisioner.Backup.Prune.{prune_backups, prune_mongodb_backups}
use homelab_db_provisioner.Backup.Restore.{backup_dir, backup_suffix}

-- The time of a run: the day of the week, 0 for Sunday, and the date as YYYY-MM-DD.
pub record Time : Type 0 where
  pub weekday : ℕ
  pub date : Text

-- The tests in front of a backup: the settings of a database that is due.
unfoldable pub due : Bool → DatabaseConfig → Option BackupConfig
due weekly_day db = if is_migrated db then none else elim db.backup [
  | none ↦ none
  | some b ↦
      if not b.enabled || (text_eq b.schedule (txt "weekly") && not weekly_day)
      then none
      else some b
]

module _ (env : Env) (s3 : Option S3Config) (t : Time) where
  -- After an upload, a failed one is not followed by a removal of old objects.
  prune_uploaded :
      S3Config → DatabaseServer → DatabaseConfig → ℤ → Result Err (Unit {0}) → Exec ⊥ (Unit {0})
  prune_uploaded cfg server db keep_count (err e) = pure tt
  prune_uploaded cfg server db keep_count (ok _) = do
    r ← try (prune_s3_backups env cfg (slugify env.to_lower server.name) db.database keep_count)
    pure tt

  -- `s3` is the configuration if there is one and a client could be made for it.
  unfoldable pub upload :
      Option S3Config → DatabaseServer → DatabaseConfig → ℤ → Text → Exec ⊥ (Unit {0})
  unfolding prune_uploaded
  upload none server db keep_count file = pure tt
  upload (some cfg) server db keep_count file = do
    r ← try (upload_to_s3 env cfg (slugify env.to_lower server.name) db.database file)
    prune_uploaded cfg server db keep_count r

  unfoldable pub dump : DbType → Text → Text → Text → Exec Err (Unit {0})
  dump postgresql = backup_postgresql env
  dump maria_db = backup_mariadb env
  dump mongo_db = backup_mongodb env

  unfoldable pub prune_local : DbType → Text → Text → ℕ → Exec ⊥ (Unit {0})
  prune_local mongo_db = prune_mongodb_backups env
  prune_local _ = prune_backups env

  -- A failed dump is removed. After a good one, old files go, if some are to be kept at all.
  unfoldable pub after_dump :
      DbType
      → DatabaseServer
      → DatabaseConfig
      → BackupConfig
      → Text
      → Text
      → Result Err (Unit {0})
      → Exec ⊥ (Unit {0})
  after_dump db_type server db b dir file (err e) = call_ignoring (remove_file file)
  after_dump db_type server db b dir file (ok _) = do
    if is_positive b.keep_count
        then prune_local db_type dir db.database (to_nat b.keep_count)
        else pure tt
    upload s3 server db b.keep_count file

  unfoldable pub after_mkdir :
      DbType
      → DatabaseServer
      → DatabaseConfig
      → BackupConfig
      → Text
      → Result Err (Unit {0})
      → Exec ⊥ (Unit {0})
  after_mkdir db_type server db b dir (err e) = pure tt
  after_mkdir db_type server db b dir (ok _) = do
    let file =
        env.join_path (dir ∷ ((db.database ++ (txt "_" ++ (t.date ++ backup_suffix db_type))) ∷ []))
    r ← try (dump db_type server.root_connection_string db.database file)
    after_dump db_type server db b dir file r

  back_up : DbType → DatabaseServer → DatabaseConfig → Option BackupConfig → Exec ⊥ (Unit {0})
  back_up db_type server db none = pure tt
  back_up db_type server db (some b) = do
    let dir = backup_dir env server.name db.database
    r ← try (call env (make_dir dir))
    after_mkdir db_type server db b dir r

  -- The loop body over the databases of a server.
  unfoldable pub backup_database : DbType → DatabaseServer → DatabaseConfig → Exec ⊥ (Unit {0})
  unfolding back_up
  backup_database db_type server db = back_up db_type server db (due (t.weekday == 0) db)

  mongodb_server : DatabaseServer → Exec ⊥ (Unit {0})
  mongodb_server server =
      if is_mongo_db (detect_db_type server.root_connection_string)
      then for_each server.databases (backup_database mongo_db server)
      else pure tt

  -- It goes through all MongoDB servers of the config.
  unfoldable pub mongodb_backup_schedule : List DatabaseServer → Exec ⊥ (Unit {0})
  unfolding mongodb_server
  mongodb_backup_schedule servers = for_each servers mongodb_server

  unfoldable pub backup_server : List DatabaseServer → DatabaseServer → Exec ⊥ (Unit {0})
  backup_server servers server =
      if is_mongo_db (detect_db_type server.root_connection_string)
      then mongodb_backup_schedule servers
      else for_each server.databases
          (backup_database (detect_db_type server.root_connection_string) server)

module _ (env : Env) where
  -- The S3 configuration, if a client can be made for it.
  client_for : Option S3Config → Exec ⊥ (Option S3Config)
  client_for none = pure none
  client_for (some cfg) = do
    r ← try (new_s3_client env)
    elim r [ ok _ ↦ pure (some cfg) | err e ↦ pure none ]

  unfoldable pub run_backups : Config → Time → Exec ⊥ (Unit {0})
  unfolding client_for
  run_backups config t = do
    s3 ← client_for config.s3
    for_each config.servers (backup_server env s3 t config.servers)
