-- ===== src/Migrate/Copy.antt =====
-- Copying and dropping: `migratePostgreSQLData`, `dropPostgreSQLDatabase`, `isConnectionError`.
use homelab_db_provisioner.Prelude.{
  Bool, some, List, [], ◌∷◌, ◌++◌, Text, txt, contains, any, Result, ok, err,
}
use homelab_db_provisioner.World.{
  Env, Err, Driver, Conn, Exec, raise, lift, ◌>>=◌, ◌>>◌, try, call, call_ignoring, Command,
  sql_open, sql_exec, open_pipe, start_command, run_command, kill_command, wait_command,
}
use homelab_db_provisioner.Sql.Postgres.{drop_database}
use homelab_db_provisioner.Conn.{conn_str_with_db}
use homelab_db_provisioner.Provision.Statement.{call_or}
use homelab_db_provisioner.Backup.Dump.{plain_command}

unfoldable pub conn_err_markers : List Text
conn_err_markers =
    txt "could not connect"
    ∷ (txt "connection refused"
        ∷ (txt "could not translate host name"
            ∷ (txt "no such host" ∷ (txt "connection timed out" ∷ []))))

unfoldable pub is_connection_error : Env → Text → Bool
is_connection_error env stderr =
    let low = env.to_lower stderr in any (λ m. contains m low) conn_err_markers

-- `&pgDumpError{err: e, stderr: …}`
unfoldable pub dump_error : Err → Err
dump_error e = record e {
  message = txt "pg_dump: " ++ (e.message ++ (txt ": " ++ e.output));
  dump = some e.output;
}

unfoldable pub dump_command : Text → Command
dump_command src = plain_command (txt "pg_dump") (txt "--no-password" ∷ (src ∷ []))

unfoldable pub psql_command : Text → Command
psql_command tgt =
    plain_command (txt "psql")
      (txt "--no-password" ∷ (txt "--set" ∷ (txt "ON_ERROR_STOP=0" ∷ (tgt ∷ []))))

module _ (env : Env) where
  -- A failed dump stops `psql`; errors of `psql` are only logged.
  unfoldable pub after_pg_dump : Command → Result Err (Unit {0}) → Exec Err (Unit {0})
  after_pg_dump psql (ok _) = call_ignoring (wait_command psql)
  after_pg_dump psql (err e) = do
    call_ignoring (kill_command psql)
    call_ignoring (wait_command psql)
    raise (dump_error e)

  unfoldable pub migrate_postgresql_data : Text → Text → Text → Exec Err (Unit {0})
  migrate_postgresql_data source target database = do
    src ← lift (conn_str_with_db env source database)
    tgt ← lift (conn_str_with_db env target database)
    call_or env (txt "stdout pipe: ") (open_pipe (dump_command src))
    call_or env (txt "start psql: ") (start_command (psql_command tgt))
    r ← try (call env (run_command (dump_command src)))
    after_pg_dump (psql_command tgt) r

  unfoldable pub drop_postgresql_database : Text → Text → Exec Err (Unit {0})
  drop_postgresql_database root database = do
    let conn : Conn = record { driver = Driver.postgres; dsn = root }
    call_or env (txt "open source: ") (sql_open conn)
    call_or env (txt "drop database: ") (sql_exec conn (drop_database database))
