-- ===== src/Health.antt =====
-- The status shown on the admin page: `healthFor` and `backupAge`. Dates are a parameter: the days
-- from a backup's date to today, as `int(today.Sub(d).Hours() / 24)` counts them, if the date can
-- be parsed.
pub mod WarnLaws
pub mod AlarmLaws
pub mod Care
pub mod ServerAlarms
use homelab_db_provisioner.Prelude.{
  ℕ, ◌+◌, Bool, true, false, not, ◌&&◌, ◌||◌, Option, none, some, List, [], ◌∷◌, ◌++◌, Text, txt,
  text_eq, is_empty, ℤ, pos, negsuc, itoa, int_text, trim_prefix, ltb, ◌==◌, length, take, Result,
  ok, if◌then◌else◌,
}
use homelab_db_provisioner.Prelude.Sort.{sort}
use homelab_db_provisioner.Config.{
  BackupConfig, MigrateConfig, DatabaseConfig, DatabaseServer, is_migrated,
}
use homelab_db_provisioner.World.{Env, Err, Exec, pure, ◌>>=◌, try, ask_list, glob}
use homelab_db_provisioner.S3.Keys.{last_or_empty}
use homelab_db_provisioner.Backup.Restore.{backup_dir}

-- `dbHealth.Backup`
pub data BackupState : Type 0 where
  off missing fresh overdue : BackupState

-- The migration of an entry: none, completed, with an error, or still to run.
pub data MigrationState : Type 0 where
  unplanned migrated failed pending : MigrationState

unfoldable pub migration_state : Option MigrateConfig → MigrationState
migration_state none = unplanned
migration_state (some m) =
    if m.completed then migrated else if is_empty m.error then pending else failed

unfoldable pub age_text : ℤ → Text
age_text (pos days) =
    if days == 0
    then txt "today"
    else if days == 1
    then txt "yesterday"
    else itoa days ++ txt " days ago"
age_text (negsuc n) = int_text (negsuc n) ++ txt " days ago"

-- More days than the limit, which is seven for a weekly backup, else one.
abbrev pub is_over : ℕ → ℤ → Bool
is_over limit (pos days) = ltb limit days
is_over limit (negsuc n) = false

-- `dbHealth`
pub record DbHealth : Type 0 where
  pub backup : BackupState
  pub last_backup : Text

abbrev pub no_backup : DbHealth
no_backup = record { backup = missing; last_backup = [] }

unfoldable pub state_of_age : Bool → ℤ → DbHealth
unfolding age_text
state_of_age weekly days = record {
  backup = if is_over (if weekly then 7 else 1) days then overdue else fresh;
  last_backup = age_text days;
}

-- The five counters of `healthFor`.
pub record Counters : Type 0 where
  pub failed_count : ℕ
  pub overdue_count : ℕ
  pub none_count : ℕ
  pub pending_count : ℕ
  pub migrated_count : ℕ

abbrev pub no_counts : Counters
no_counts = record {
  failed_count = 0;
  overdue_count = 0;
  none_count = 0;
  pending_count = 0;
  migrated_count = 0;
}

unfoldable pub count_migration : MigrationState → Counters → Counters
count_migration unplanned c = c
count_migration migrated c = record c { migrated_count = c.migrated_count + 1 }
count_migration failed c = record c { failed_count = c.failed_count + 1 }
count_migration pending c = record c { pending_count = c.pending_count + 1 }

unfoldable pub count_backup : BackupState → Counters → Counters
count_backup overdue c = record c { overdue_count = c.overdue_count + 1 }
count_backup missing c = record c { none_count = c.none_count + 1 }
count_backup _ c = c

-- `serverHealth`
pub record ServerHealth : Type 0 where
  pub items : List Text
  pub warn : Bool
  pub dbs : List DbHealth

-- `note`: no item for a count of 0.
unfoldable pub note : ℕ → Text → Text → Bool → ServerHealth → ServerHealth
note n one many warn sh =
    let item = if n == 1 then txt "1 " ++ one else itoa n ++ (txt " " ++ many) in
    let noted = record sh { items = sh.items ++ (item ∷ []); warn = sh.warn || warn } in
    if n == 0 then sh else noted

-- The five calls of `note`, in their order.
unfoldable pub note_all : Counters → ServerHealth → ServerHealth
note_all c sh =
    note c.migrated_count (txt "migrated entry to clean up") (txt "migrated entries to clean up")
      false
      (note c.pending_count (txt "migration pending") (txt "migrations pending") false (
        note c.none_count (txt "database with no backup yet") (txt "databases with no backup yet")
          true
          (note c.overdue_count (txt "backup overdue") (txt "backups overdue") true
            (note c.failed_count (txt "migration failed") (txt "migrations failed") true sh))))

module _ (env : Env) (days_since : Text → Option ℤ) where
  -- From the sorted files' last one, by the ten characters behind `database_`.
  unfoldable pub health_of_file : Bool → Text → Text → DbHealth
  health_of_file weekly database file =
      let stamp = trim_prefix (database ++ txt "_") (env.base_path file) in
      if ltb (length stamp) 10 then no_backup else elim (days_since (take 10 stamp)) [
        | none ↦ no_backup
        | some days ↦ state_of_age weekly days
      ]

  unfoldable pub health_of_files : Bool → Text → Result Err (List Text) → DbHealth
  health_of_files weekly database (ok (f ∷ fs)) =
      health_of_file weekly database (last_or_empty (sort (f ∷ fs)))
  health_of_files weekly database _ = no_backup

  unfoldable pub backup_age : Text → Text → BackupConfig → Exec ⊥ DbHealth
  backup_age server database b = do
    files ← try (
        ask_list env (
          glob (env.join_path (backup_dir env server database ∷ ((database ++ txt "_*.gz") ∷ [])))))
    pure (health_of_files (text_eq b.schedule (txt "weekly")) database files)

  -- Backups are looked at where they are enabled and the entry has not been migrated away.
  unfoldable pub database_health : Text → DatabaseConfig → Option BackupConfig → Exec ⊥ DbHealth
  database_health server db none = pure (record { backup = off; last_backup = [] })
  database_health server db (some b) =
      if b.enabled && not (is_migrated db)
      then backup_age server db.database b
      else pure (record { backup = off; last_backup = [] })

  -- The loop over the databases of a server: their states, and the counters.
  unfoldable pub databases_health :
      Text → List DatabaseConfig → Counters → Exec ⊥ (List DbHealth × Counters)
  databases_health server [] c = pure ([], c)
  databases_health server (db ∷ dbs) c = do
    h ← database_health server db db.backup
    (hs, c') ←
        databases_health server dbs
          (count_backup h.backup (count_migration (migration_state db.migrate) c))
    pure (h ∷ hs, c')

  unfoldable pub server_health : DatabaseServer → Exec ⊥ ServerHealth
  server_health server = do
    (hs, c) ← databases_health server.name server.databases no_counts
    pure (note_all c (record { items = []; warn = false; dbs = hs }))

  unfoldable pub health_for : List DatabaseServer → Exec ⊥ (List ServerHealth)
  health_for [] = pure []
  health_for (server ∷ servers) = do
    h ← server_health server
    hs ← health_for servers
    pure (h ∷ hs)
