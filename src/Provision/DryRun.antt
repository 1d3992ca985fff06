-- ===== src/Provision/DryRun.antt =====
-- What a dry run of the provisioning functions calls.
use homelab_db_provisioner.Prelude.{true, none, some, List, [], ◌∷◌, Text}
use homelab_db_provisioner.Config.{DatabaseConfig}
use homelab_db_provisioner.World.{Env, Conn}
use homelab_db_provisioner.World.Keeps.{Only, Only-pure, Only-raise, Only-bind, only_rules}
use homelab_db_provisioner.World.Reads.{IsRead}
use homelab_db_provisioner.Provision.Statement.{call_or, execute}
use homelab_db_provisioner.Provision.Postgres
use homelab_db_provisioner.Provision.Postgres.{provision_postgresql, provision_extensions}
use homelab_db_provisioner.Provision.MariaDb
use homelab_db_provisioner.Provision.MariaDb.{provision_mariadb}
use homelab_db_provisioner.Provision.MongoDb
use homelab_db_provisioner.Provision.MongoDb.{provision_mongodb}

ruleset dry_rules = (only_rules, tt)

module _ (env : Env) where
  execute-Only_reads :
      (conn : Conn) (label sql : Text) → Only IsRead (execute env true conn label sql)
  unfolding execute
  execute-Only_reads conn label sql = Only-pure tt

  create_database-Only_reads :
      (conn : Conn) (config : DatabaseConfig)
      → Only IsRead (Postgres.create_database env true conn config)
  unfolding Postgres.create_database
  create_database-Only_reads conn config = Only-pure tt

  check_user_exists-Only_reads :
      (conn : Conn) (name : Text) → Only IsRead (Postgres.check_user_exists env conn name)
  unfolding Postgres.check_user_exists
  check_user_exists-Only_reads conn name = search dry_rules

  check_database_exists-Only_reads :
      (conn : Conn) (name : Text) → Only IsRead (Postgres.check_database_exists env conn name)
  unfolding Postgres.check_database_exists
  check_database_exists-Only_reads conn name = search dry_rules

  maybe_extensions-Only_reads :
      (root : Text) (config : DatabaseConfig) (es : List Text)
      → Only IsRead (Postgres.maybe_extensions env root config true es)
  unfolding Postgres.maybe_extensions provision_extensions
  maybe_extensions-Only_reads root config [] = Only-pure tt
  maybe_extensions-Only_reads root config (e ∷ es) = Only-pure tt

  -- A dry run against PostgreSQL makes no call but queries, whatever they answer.
  pub provision_postgresql-dry :
      (conn : Conn) (root : Text) (config : DatabaseConfig)
      → Only IsRead (provision_postgresql env conn root config true)
  unfolding provision_postgresql
  provision_postgresql-dry conn root config =
      search
        (
          dry_rules, execute-Only_reads, create_database-Only_reads, check_user_exists-Only_reads,
          check_database_exists-Only_reads, maybe_extensions-Only_reads,
        )
        depth 20

  -- A dry run against MariaDB makes no call but queries, whatever they answer.
  pub provision_mariadb-dry :
      (conn : Conn) (config : DatabaseConfig) → Only IsRead (provision_mariadb env conn config true)
  unfolding provision_mariadb MariaDb.check_user_exists MariaDb.check_database_exists
  provision_mariadb-dry conn config = search (dry_rules, execute-Only_reads) depth 20

  database_listed-Only_reads :
      (uri database : Text) → Only IsRead (MongoDb.database_listed env uri database)
  unfolding MongoDb.database_listed
  database_listed-Only_reads uri database =
      Only-bind _ _ (search dry_rules) elim [ none ↦ Only-raise _ | some names ↦ Only-pure _ ]

  -- A dry run against MongoDB makes no call but the connection and the listing of databases,
  -- whatever is answered.
  pub provision_mongodb-dry :
      (uri : Text) (config : DatabaseConfig) → Only IsRead (provision_mongodb env uri config true)
  unfolding provision_mongodb call_or
  provision_mongodb-dry uri config = search (dry_rules, database_listed-Only_reads) depth 20
