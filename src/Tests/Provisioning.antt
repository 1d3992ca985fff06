-- ===== src/Tests/Provisioning.antt =====
-- Runs of the theorems on provisioning, connections and backups.
use homelab_db_provisioner.Prelude.{
  ◌≡◌, refl, true, false, none, some, List, [], ◌∷◌, ◌++◌, Text, txt, starts_with, pos, All,
}
use homelab_db_provisioner.World.{
  Env, Event, Err, Driver, Conn, Secret, ConfigRead, parsed, new_error, random_below, secret_get,
}
use homelab_db_provisioner.World
use homelab_db_provisioner.Provision.Postgres
use homelab_db_provisioner.Provision.Statement.{execute}
use homelab_db_provisioner.World.Keeps.{Only}
use homelab_db_provisioner.World.Reads.{IsRead}
use homelab_db_provisioner.Sql.Escape.{apostrophe, escape_string}
use homelab_db_provisioner.Sql.Literal.{scan_string, scan_string-escape_string}
use homelab_db_provisioner.Provision.Postgres.{provision_postgresql}
use homelab_db_provisioner.Provision.Calls.{Provisioned, provision_postgresql-calls}
use homelab_db_provisioner.Process.Server.{process_server}
use homelab_db_provisioner.Process.Pass.{process_config}
use homelab_db_provisioner.Process.DryRun.{process_server-dry, process_config-dry}
use homelab_db_provisioner.Backup.Prune.{prune_backups}
use homelab_db_provisioner.Backup.PruneLaws.{KeepsNewest, removing, prune_backups-KeepsNewest}
use homelab_db_provisioner.S3.Keys.{select_keys_to_delete, newest_key}
use homelab_db_provisioner.S3.KeysLaws.{select_keys_to_delete-KeepsNewest, newest_key-IsGreatest}
use homelab_db_provisioner.Prelude.Sort.{TextLe}
use homelab_db_provisioner.Prelude.{ok, ◌++◌}
use homelab_db_provisioner.World.{glob}
use homelab_db_provisioner.World.{config_read, config_write}
use homelab_db_provisioner.Process.Connect.{connect_with_retry}
use homelab_db_provisioner.Process.ConnectLaws.{
  Connected, connect_with_retry-Connected, length-connect_with_retry,
}
use homelab_db_provisioner.World.{sql_open, sql_ping}
use homelab_db_provisioner.Prelude.{length, ◌≤◌}
use homelab_db_provisioner.Tests.{not_found, app, main_server, site, conn, calm}

scan_string-escape_string_example :
    scan_string false (escape_string (txt "it's") ++ (apostrophe ∷ txt " OWNER"))
    ≡ some (txt "it's", txt " OWNER")
unfolding starts_with txt
scan_string-escape_string_example = scan_string-escape_string (txt "it's") (txt " OWNER") refl

process_server-dry_example : Only IsRead (process_server calm none site main_server)
process_server-dry_example = process_server-dry calm none site main_server refl

process_config-dry_example : Only IsRead (process_config calm none site)
process_config-dry_example = process_config-dry calm none site (refl, tt)

abbrev calls_of_run : List Event
calls_of_run = (provision_postgresql calm conn conn.dsn app false []).1

provision_postgresql-calls_example : Provisioned calm conn app true [] calls_of_run
unfolding provision_postgresql World.◌>>=◌ World.on_err Postgres.check_user_exists World.ask execute
    World.call Postgres.check_database_exists Postgres.create_database World.try
provision_postgresql-calls_example =
    provision_postgresql-calls calm conn conn.dsn app [] calls_of_run true refl refl

abbrev days : List Text
days = txt "app_2026-01-02" ∷ (txt "app_2026-01-01" ∷ (txt "app_2026-01-03" ∷ []))

-- Three backups are listed.
abbrev stocked : Env
stocked = record calm { lists = λ t e. ok days }

prune_backups-KeepsNewest_example :
    (gone : List Text) × KeepsNewest days gone 2
    × (prune_backups stocked (txt "/backups") (txt "app") 2 [] ≡ (
      ok tt,
      removing gone
          (glob (stocked.join_path (txt "/backups" ∷ ((txt "app" ++ txt "_*.sql.gz") ∷ []))) ∷ []),
    ))
prune_backups-KeepsNewest_example =
    prune_backups-KeepsNewest stocked (txt "/backups") (txt "app") 2 []

select_keys_to_delete-KeepsNewest_example : KeepsNewest days (select_keys_to_delete days (pos 1)) 1
select_keys_to_delete-KeepsNewest_example = select_keys_to_delete-KeepsNewest days (pos 1) refl

newest_key-IsGreatest_example : All (λ k. TextLe k (newest_key days)) days
newest_key-IsGreatest_example = newest_key-IsGreatest days

abbrev calls_of_connect : List Event
calls_of_connect = sql_ping conn ∷ (sql_open conn ∷ [])

connect_with_retry-Connected_example : (conn ≡ conn) × Connected calm conn calls_of_connect
unfolding connect_with_retry World.◌>>=◌ World.try homelab_db_provisioner.Process.Connect.attempt
    World.call
connect_with_retry-Connected_example =
    connect_with_retry-Connected calm conn 5 [] calls_of_connect conn refl

-- Every call fails.
abbrev broken : Env
broken = record calm { fails = λ t e. some not_found }

length-connect_with_retry_example : length (connect_with_retry broken conn 5 []).1 ≤ 10
length-connect_with_retry_example = length-connect_with_retry broken conn 5 []
