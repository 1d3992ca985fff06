-- ===== src/Tests.antt =====
-- Runs of the theorems at concrete inputs: a config, an environment that answers them, requests.
mod Server
mod Site
mod Admin
mod Secrets
mod Migrate
mod Provisioning
use homelab_db_provisioner.Prelude.{
  ◌≡◌, refl, ℕ, zero, suc, true, false, none, some, List, [], ◌∷◌, ◌++◌, Text, txt, text_eq,
  starts_with, Result, ok, err, pos, All, arith,
}
use homelab_db_provisioner.Config.{DatabaseConfig, DatabaseServer, Config, blank_database}
use homelab_db_provisioner.World.{
  Env, Event, Err, Driver, Conn, Secret, ConfigRead, parsed, new_error, random_below, secret_get,
}
use homelab_db_provisioner.World
use homelab_db_provisioner.Provision.Postgres
use homelab_db_provisioner.Provision.Statement.{execute}
use homelab_db_provisioner.World.Keeps.{Only}
use homelab_db_provisioner.World.Reads.{IsRead}
use homelab_db_provisioner.World.Runs.{Runs}
use homelab_db_provisioner.Http.{Request, form_value}
use homelab_db_provisioner.Sql.Escape.{apostrophe, escape_string}
use homelab_db_provisioner.Sql.Literal.{scan_string, scan_string-escape_string}
use homelab_db_provisioner.Provision.Postgres.{provision_postgresql}
use homelab_db_provisioner.Provision.MariaDb.{provision_mariadb}
use homelab_db_provisioner.Provision.MongoDb.{provision_mongodb}
use homelab_db_provisioner.Provision.DryRun.{
  provision_postgresql-dry, provision_mariadb-dry, provision_mongodb-dry,
}
use homelab_db_provisioner.Provision.Calls.{Provisioned, provision_postgresql-calls}
use homelab_db_provisioner.Process.Server.{process_server}
use homelab_db_provisioner.Process.Pass.{process_config}
use homelab_db_provisioner.Process.DryRun.{process_server-dry, process_config-dry}
use homelab_db_provisioner.Backup.Prune.{files_to_prune}
use homelab_db_provisioner.S3.Keys.{select_keys_to_delete, newest_key}
use homelab_db_provisioner.S3.KeysLaws.{select_keys_to_delete-KeepsNewest, newest_key-IsGreatest}
use homelab_db_provisioner.Prelude.Sort.{TextLe}
use homelab_db_provisioner.Prelude.Dict.{lookup, get_or}
use homelab_db_provisioner.Prelude.{◌↔◌}
use homelab_db_provisioner.Migrate.Counts.{Counts, compare_table_counts}
use homelab_db_provisioner.Migrate.CountsLaws.{compare_table_counts-none}
use homelab_db_provisioner.Migrate.Run
use homelab_db_provisioner.Migrate.Run.{run_migration}
use homelab_db_provisioner.Migrate.DropLaws.{KeepsSource, IsFailed, IsSucceeded}
use homelab_db_provisioner.Config.{MigrateConfig}
use homelab_db_provisioner.World.{config_read, config_write}
use homelab_db_provisioner.Migrate.Target.{with_migrate}
use homelab_db_provisioner.World.Keeps.{Extends}
use homelab_db_provisioner.Admin.OneRow.{RowWrite}
use homelab_db_provisioner.Admin.Edit
use homelab_db_provisioner.Admin.EditLaws.{
  MigrationEdit, handle_update_password-row, handle_reveal_password-row,
  handle_migrate_database-row,
}
use homelab_db_provisioner.Admin.Fields.{parse_backup_fields}
use homelab_db_provisioner.Prelude.{is_empty}
use homelab_db_provisioner.Secrets.Manager
use homelab_db_provisioner.Api.Servers
use homelab_db_provisioner.Api.ResponseLaws.{hiding, handle_api_list_servers-hide}
use homelab_db_provisioner.Process.Connect.{connect_with_retry}
use homelab_db_provisioner.Process.ConnectLaws.{
  Connected, connect_with_retry-Connected, length-connect_with_retry,
}
use homelab_db_provisioner.World.{sql_open, sql_ping}
use homelab_db_provisioner.Prelude.{length, ◌≤◌}
use homelab_db_provisioner.Secrets.Names.{is_claimed_by}
use homelab_db_provisioner.Secrets.UniqueLaws.{UniqueNames, claim, claims, claims_in}
use homelab_db_provisioner.Admin.Add
use homelab_db_provisioner.Admin.AddLaws.{
  WritesUnique, ReadsUnique, handle_add_database-WritesUnique,
}
use homelab_db_provisioner.Api.Databases
use homelab_db_provisioner.Api.Databases.{CreateDatabaseRequest}
use homelab_db_provisioner.Api.CreateLaws.{handle_api_create_database-WritesUnique}
use homelab_db_provisioner.Prelude.{subst}
use homelab_db_provisioner.Slug.{slugify}
use homelab_db_provisioner.Slug.Laws.{IsSlug, slugify-IsSlug}
use homelab_db_provisioner.Secrets.Password.{generate_password}
use homelab_db_provisioner.Secrets.Laws.{
  KeepsPassword, reconcile_password-keeps, unmanaged_untouched,
}
use homelab_db_provisioner.Secrets.PasswordLaws.{
  RandomInRange, IsRandom, IsOfSize, generate_password-IsOfSize,
}

abbrev app : DatabaseConfig
app = record blank_database {
  database = txt "app";
  user = txt "app_user";
  password = txt "it's";
  k8s_secret = txt "app-credentials";
}

abbrev plain : DatabaseConfig
plain = record app { k8s_secret = [] }

abbrev main_server : DatabaseServer
main_server = record {
  name = txt "main";
  root_connection_string = txt "postgres://root:pw@db:5432/postgres";
  dry_run = true;
  databases = plain ∷ [];
}

abbrev site : Config
site = record { servers = main_server ∷ []; s3 = none }

abbrev conn : Conn
conn = record { driver = Driver.postgres; dsn = main_server.root_connection_string }

abbrev stored_secret : Secret
stored_secret = record {
  name = txt "app-credentials";
  namespace = txt "default";
  labels = (txt "app.kubernetes.io/managed-by", txt "homelab-db-provisioner") ∷ [];
  contents = (txt "password", txt "secret") ∷ [];
  string_contents = [];
}

-- The least random number; there is none below 0.
abbrev least : Event → Result Err ℕ
least (random_below zero) = err (new_error (txt "no number"))
least (random_below (suc n)) = ok 0
least _ = ok 0

-- Every call succeeds, and nothing exists yet but a Secret.
abbrev world_with : Secret → Env
world_with secret = record {
  fails = λ t e. none;
  asks = λ t e. ok false;
  counts = λ t e. least e;
  lists = λ t e. ok [];
  names = λ t e. ok (some []);
  tables = λ t e. ok [];
  secrets = λ t e. ok (some secret);
  config = λ t. parsed site;
  config_path = txt "/config/config.json";
  now = λ t. txt "2026-01-01T00:00:00Z";
  url_with_path = λ u p. ok (u ++ p);
  url_with_login = λ u name password p. ok (u ++ p);
  join_path = λ ps. [];
  dir_path = λ p. p;
  base_path = λ p. p;
  split_host_port = λ s. ok (s, []);
  secret_name_errors = λ s. [];
  to_lower = λ s. s;
}

abbrev calm : Env
calm = world_with stored_secret

-- A form for the first database of the first server.
abbrev form : Request
form = record {
  is_post = true;
  form_parses = true;
  form =
      (txt "server_index", txt "0")
      ∷ ((txt "db_index", txt "0")
          ∷ ((txt "database", txt "app")
              ∷ ((txt "new_password", txt "pw") ∷ ((txt "target_server", txt "other") ∷ []))));
}

site-UniqueNames : UniqueNames site
unfolding claims_in claims claim is_claimed_by text_eq is_empty
site-UniqueNames [] h = cc
site-UniqueNames (c ∷ s) h = omega arith

calm-ReadsUnique : ReadsUnique calm
calm-ReadsUnique t cfg h = subst UniqueNames (parsed-eq h) site-UniqueNames
  where
    parsed-eq : {a b : Config} → parsed a ≡ parsed b → a ≡ b
    parsed-eq e = cc

abbrev not_found : Err
not_found = new_error (txt "target server \"other\" not found")
