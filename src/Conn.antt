-- ===== src/Conn.antt =====
-- Connection strings: the DSN of the MariaDB driver (`processConfig`), `parseMariaDBConn` and
-- `connStrWithDB` of backup.go.
pub mod MongoDb
use homelab_db_provisioner.Prelude.{
  Option, none, some, List, [], ◌∷◌, not, ◌&&◌, starts_with, if◌then◌else◌, ◌++◌, Text, txt,
  trim_prefix, split, cut, cut_last, Result, ok, err,
}
use homelab_db_provisioner.Prelude.Dict.{insert}
use homelab_db_provisioner.World.{Env, Err, wrap, new_error, map_err}

-- Without the scheme, as both readers of a MariaDB connection string begin.
unfoldable pub strip_scheme : Text → Text
strip_scheme s = trim_prefix (txt "mysql://") (trim_prefix (txt "mariadb://") s)

-- `credHostPart`, split at @: the parts but the first two are dropped.
dsn_of : Text → List Text → Text → Text
dsn_of whole (credentials ∷ (host_port ∷ _)) db_name =
    credentials ++ (txt "@tcp(" ++ (host_port ++ (txt ")/" ++ db_name)))
dsn_of whole _ db_name = whole

dsn_parts : Text → List Text → Text
unfolding dsn_of
dsn_parts whole (cred_host ∷ (db_name ∷ _)) = dsn_of whole (split b'@' cred_host) db_name
dsn_parts whole _ = whole

unfoldable pub mariadb_dsn : Text → Text
unfolding strip_scheme dsn_parts
mariadb_dsn root = let s = strip_scheme root in dsn_parts s (split b'/' s)

-- host, port, user, password
pub record MariaDbConn : Type 0 where
  pub host : Text
  pub port : Text
  pub user : Text
  pub password : Text

unfoldable pub conn_str_with_db : Env → Text → Text → Result Err Text
conn_str_with_db env root database =
    map_err (wrap (txt "parse connection string: ")) (env.url_with_path root (txt "/" ++ database))

module _ (env : Env) where
  with_host : Text → Text → Result Err (Text × Text) → Result Err MariaDbConn
  with_host user password (err e) = err e
  with_host user password (ok (host, port)) =
      ok (record { host = host; port = port; user = user; password = password })

  with_credentials : Text → Text × Option Text → Result Err MariaDbConn
  unfolding with_host
  with_credentials host_port (user, none) = err (new_error (txt "missing : in credentials"))
  with_credentials host_port (user, some password) =
      with_host user password (env.split_host_port host_port)

  at_split : Option (Text × Text) → Result Err MariaDbConn
  unfolding with_credentials
  at_split none = err (new_error (txt "missing @ in connection string"))
  at_split (some (creds, host_port)) = with_credentials host_port (cut b':' creds)

  unfoldable pub parse_mariadb_conn : Text → Result Err MariaDbConn
  unfolding strip_scheme at_split
  parse_mariadb_conn conn_str = at_split (cut_last b'@' (cut b'/' (strip_scheme conn_str)).0)
