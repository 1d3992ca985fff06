-- ===== src/Tests/Migrate.antt =====
-- Runs of the theorems on migrations.
use homelab_db_provisioner.Prelude.{
  ◌≡◌, ℕ, zero, suc, true, false, none, some, List, [], ◌∷◌, ◌++◌, Text, txt, Result, ok, err, pos,
  All, arith,
}
use homelab_db_provisioner.Config.{DatabaseConfig, DatabaseServer, Config, blank_database}
use homelab_db_provisioner.World.{
  Env, Event, Err, Driver, Secret, ConfigRead, parsed, new_error, random_below, secret_get,
}
use homelab_db_provisioner.World
use homelab_db_provisioner.Provision.Postgres
use homelab_db_provisioner.Prelude.Sort.{TextLe}
use homelab_db_provisioner.Prelude.Dict.{lookup}
use homelab_db_provisioner.Prelude.{◌↔◌}
use homelab_db_provisioner.Migrate.Counts.{Counts, compare_table_counts}
use homelab_db_provisioner.Migrate.CountsLaws.{compare_table_counts-none}
use homelab_db_provisioner.Migrate.Run
use homelab_db_provisioner.Config.{MigrateConfig}
use homelab_db_provisioner.World.{config_read, config_write}
use homelab_db_provisioner.Migrate.Target.{with_migrate}
use homelab_db_provisioner.Secrets.Manager
use homelab_db_provisioner.World.{sql_open, sql_ping}
use homelab_db_provisioner.Prelude.{length, ◌≤◌}
use homelab_db_provisioner.Prelude.{subst}
use homelab_db_provisioner.Tests.{main_server}

abbrev two_tables : Counts
two_tables = (txt "public.a", 1) ∷ ((txt "public.b", 2) ∷ [])

abbrev three_rows : Counts
three_rows = (txt "public.b", 2) ∷ ((txt "public.a", 3) ∷ [])

compare_table_counts-none_example :
    (compare_table_counts two_tables three_rows ≡ none)
    ↔ ((k : Text) → lookup k two_tables ≡ lookup k three_rows)
compare_table_counts-none_example = compare_table_counts-none two_tables three_rows

abbrev to_other : MigrateConfig
to_other = record {
  target_server = txt "other";
  confirm_drop = false;
  completed = false;
  completed_at = [];
  error = [];
}

abbrev other_server : DatabaseServer
other_server = record main_server { name = txt "other"; databases = [] }

abbrev two_servers : Config
two_servers = record { servers = main_server ∷ (other_server ∷ []); s3 = none }
