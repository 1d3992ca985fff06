-- ===== src/Provision/MariaDb.antt =====
-- `provisionMariaDB` of main.go and what it calls.
use homelab_db_provisioner.Prelude.{Bool, not, Text, txt, ltb, if◌then◌else◌}
use homelab_db_provisioner.Config.{DatabaseConfig}
use homelab_db_provisioner.World.{
  Env, Err, Conn, Exec, pure, ◌>>=◌, ◌>>◌, on_err, wrap, ask_number, sql_query,
}
use homelab_db_provisioner.Sql.MariaDb as Sql
use homelab_db_provisioner.Provision.Statement.{execute}

module _ (env : Env) where
  unfoldable pub check_user_exists : Conn → Text → Exec Err Bool
  check_user_exists conn username = do
    count ← ask_number env (sql_query conn Sql.user_count username)
    pure (ltb 0 count)

  unfoldable pub check_database_exists : Conn → Text → Exec Err Bool
  check_database_exists conn database = do
    count ← ask_number env (sql_query conn Sql.database_count database)
    pure (ltb 0 count)

  -- Whether the database was created, or an error.
  unfoldable pub provision_mariadb : Conn → DatabaseConfig → Bool → Exec Err Bool
  provision_mariadb conn config dry_run = do
    db_exists ←
        on_err (wrap (txt "failed to check database existence: "))
          (check_database_exists conn config.database)
    execute env dry_run conn (txt "failed to create database: ") (Sql.create_database config)
    user_exists ←
        on_err (wrap (txt "failed to check user existence: ")) (check_user_exists conn config.user)
    if user_exists
        then execute env dry_run conn (txt "failed to update user password: ")
            (Sql.alter_user config)
        else execute env dry_run conn (txt "failed to create user: ") (Sql.create_user config)
    execute env dry_run conn (txt "failed to grant privileges: ") (Sql.grant config)
    execute env dry_run conn (txt "failed to flush privileges: ") Sql.flush
    pure (not db_exists)
