-- ===== src/Migrate/DropLaws.antt =====
-- What `runMigration` does to the source and to the config file.
use homelab_db_provisioner.Prelude.{◌≡◌, true, false, [], Option, some, List, Text, ℕ}
use homelab_db_provisioner.Config.{MigrateConfig, DatabaseConfig, DatabaseServer, Config}
use homelab_db_provisioner.World.{Env, Event, Err, parsed, ◌>>=◌, try, config_write}
use homelab_db_provisioner.World.Keeps.{Extends, Extends-trans, Extends-weaken, Only}
use homelab_db_provisioner.Migrate.Target.{with_migrate}
use homelab_db_provisioner.Migrate.Run
use homelab_db_provisioner.Migrate.Run.{run_migration}
use homelab_db_provisioner.Migrate.CopyCalls.{IsCopying, migrate-Only}

-- A call of a migration that drops nothing: one of the copy, or the write of a config that was
-- read, in which the entry at the two indices has a migration that `mark` allows.
pub data KeepsSource (env : Env) (si di : ℕ) (mark : MigrateConfig → Type 0) : Event → Type 0 where
  copying : {e : Event} → IsCopying e → KeepsSource env si di mark e
  marking :
      (cfg c : Config) (m : MigrateConfig) (t : List Event)
      → env.config t ≡ parsed cfg
      → mark m
      → with_migrate cfg si di m ≡ some c
      → KeepsSource env si di mark (config_write c)

-- The migration is marked as failed, with this message.
abbrev pub IsFailed : MigrateConfig → Err → MigrateConfig → Type 0
IsFailed m e m' = m' ≡ record m { completed = false; error = e.message }

-- The migration is marked as succeeded.
abbrev pub IsSucceeded : MigrateConfig → MigrateConfig → Type 0
IsSucceeded m m' =
    (now : Text) × (m' ≡ record m { completed = true; completed_at = now; error = [] })

module _ (env : Env) (manager : Option Text) (config : Config) (si : ℕ) (source : DatabaseServer)
    (di : ℕ) (db : DatabaseConfig) (m : MigrateConfig) where
  after :
      {mark : MigrateConfig → Type 0} (t : List Event)
      → Only (KeepsSource env si di mark) (
          Run.finish env manager si di source db m (Run.migrate env manager config source db m t).0)
      → Extends
          (KeepsSource env si di mark)
          t
          (run_migration env manager config si source di db m t).1
  unfolding run_migration ◌>>=◌ try
  after t k =
      Extends-trans
        (Extends-weaken (λ c h. copying h) ((migrate-Only env manager config source db m).calls t))
        (k.calls _)
