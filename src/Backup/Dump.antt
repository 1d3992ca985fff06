-- ===== src/Backup/Dump.antt =====
-- One dump: `backupPostgreSQL`, `backupMariaDB` and `backupMongoDB`.
use homelab_db_provisioner.Prelude.{List, [], ◌∷◌, ◌++◌, Text, txt, Result, ok, err}
use homelab_db_provisioner.World.{
  Env, Err, Command, Exec, raise, lift, ◌>>=◌, ◌>>◌, on_err, try, wrap, call, call_ignoring,
  run_command, dump_to, create_file, close_gzip, close_file,
}
use homelab_db_provisioner.Conn.{MariaDbConn, conn_str_with_db, parse_mariadb_conn}
use homelab_db_provisioner.Provision.Statement.{call_or}

abbrev pub plain_command : Text → List Text → Command
plain_command program args = record { program = program; args = args; variables = [] }

-- `mysqldump` and `mysql` take the password from the environment.
unfoldable pub mysql_command : Text → MariaDbConn → Text → Command
mysql_command program c database = record {
  program = program;
  args = txt "-h" ∷ (c.host ∷ (txt "-P" ∷ (c.port ∷ (txt "-u" ∷ (c.user ∷ (database ∷ []))))));
  variables = (txt "MYSQL_PWD=" ++ c.password) ∷ [];
}

unfoldable pub mongo_command : Text → Text → Text → Text → List Text → Command
mongo_command program uri database file more = record {
  program = program;
  args =
      txt "--uri"
      ∷ (uri ∷ (txt "--db" ∷ (database ∷ ((txt "--archive=" ++ file) ∷ (txt "--gzip" ∷ more)))));
  variables = [];
}

-- `fmt.Errorf("label%w: %s", err, stderr)`
unfoldable pub command_error : Text → Err → Err
command_error label e = record e { message = label ++ (e.message ++ (txt ": " ++ e.output)) }

module _ (env : Env) where
  after_close : Text → Result Err (Unit {0}) → Exec Err (Unit {0})
  after_close dest (ok _) = call env (close_file dest)
  after_close dest (err e) = do call_ignoring (close_file dest); raise (wrap (txt "gzip close: ") e)

  after_dump : Text → Text → Result Err (Unit {0}) → Exec Err (Unit {0})
  unfolding after_close
  after_dump program dest (ok _) = do r ← try (call env (close_gzip dest)); after_close dest r
  after_dump program dest (err e) = do
    call_ignoring (close_gzip dest)
    call_ignoring (close_file dest)
    raise (command_error (program ++ txt ": ") e)

  -- The file is created, the command's output goes there through gzip, and both are closed.
  dump_into : Command → Text → Exec Err (Unit {0})
  unfolding after_dump
  dump_into command dest = do
    call_or env (txt "create file: ") (create_file dest)
    r ← try (call env (dump_to command dest))
    after_dump command.program dest r

  unfoldable pub backup_postgresql : Text → Text → Text → Exec Err (Unit {0})
  unfolding dump_into
  backup_postgresql root database dest = do
    conn_str ← lift (conn_str_with_db env root database)
    dump_into (plain_command (txt "pg_dump") (txt "--no-password" ∷ (conn_str ∷ []))) dest

  unfoldable pub backup_mariadb : Text → Text → Text → Exec Err (Unit {0})
  unfolding dump_into
  backup_mariadb root database dest = do
    c ← on_err (wrap (txt "parse connection string: ")) (lift (parse_mariadb_conn env root))
    dump_into (mysql_command (txt "mysqldump") c database) dest

  unfoldable pub backup_mongodb : Text → Text → Text → Exec Err (Unit {0})
  backup_mongodb uri database dest =
      on_err (command_error (txt "mongodump failed: "))
        (call env (run_command (mongo_command (txt "mongodump") uri database dest [])))
