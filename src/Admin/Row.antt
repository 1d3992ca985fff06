-- ===== src/Admin/Row.antt =====
-- What the form handlers have in common: the checks in front, the row that a form was rendered
-- for, and the writing of the config file. `json.MarshalIndent` cannot fail on a `Config`.
use homelab_db_provisioner.Prelude.{
  ℕ, Bool, true, false, not, ◌&&◌, Option, none, some, ◌++◌, Text, txt, text_eq, is_empty, ℤ, atoi,
  in_range, length, get_elem?, if◌then◌else◌,
}
use homelab_db_provisioner.Config.{DatabaseConfig, DatabaseServer, Config}
use homelab_db_provisioner.World.{
  Env, Err, ConfigRead, unreadable, unparsable, parsed, Exec, pure, raise, from_some, ◌>>=◌, ◌>>◌,
  on_err, call, ask_config, config_write,
}
use homelab_db_provisioner.Http.{Request, form_value, Response, http_error, redirect}
use homelab_db_provisioner.Migrate.Target.{set_database}

-- `http.Error(...)` and `return`, unless the test holds
unfoldable pub require : Bool → ℕ → Text → Exec Response (Unit {0})
require true status message = pure tt
require false status message = raise (http_error status message)

-- The method and the form.
unfoldable pub check_post : Request → Exec Response (Unit {0})
unfolding require
check_post req = do
  require req.is_post 405 (txt "Method not allowed")
  require req.form_parses 400 (txt "Bad request")

unfoldable pub parse_index : Request → Text → Exec Response ℤ
parse_index req key = from_some (http_error 400 (txt "Invalid " ++ key)) (atoi (form_value req key))

abbrev pub server_index : Text
server_index = txt "server_index"

abbrev pub db_index : Text
db_index = txt "db_index"

unfoldable pub stale_row_msg : Text
stale_row_msg =
    txt
      "Error: the config file changed since this page loaded, so nothing was saved. Check the row and try again."

-- A form value that is given and differs.
abbrev pub differs : Text → Text → Bool
differs given actual = not (is_empty given) && not (text_eq actual given)

unfoldable pub stale_row : Request → DatabaseServer → DatabaseConfig → Bool
stale_row req server db =
    if differs (form_value req (txt "server")) server.name
    then true
    else differs (form_value req (txt "database")) db.database

-- A row of the config at its indices.
pub record Row : Type 0 where
  pub config : Config
  pub si : ℕ
  pub server : DatabaseServer
  pub di : ℕ
  pub db : DatabaseConfig

unfoldable pub check_config : ConfigRead → Exec Response Config
check_config (unreadable e) = raise (redirect (txt "Error: failed to read config"))
check_config (unparsable e) = raise (redirect (txt "Error: failed to parse config"))
check_config (parsed cfg) = pure cfg

unfoldable pub read_config : Env → Exec Response Config
read_config env = do r ← ask_config env; check_config r

-- The server and its index, if the index is in range.
unfoldable pub find_server : Config → ℤ → Option (ℕ × DatabaseServer)
find_server cfg si = elim (in_range si (length cfg.servers)) [
  | none ↦ none
  | some i ↦ elim (get_elem? cfg.servers i) [ none ↦ none | some s ↦ some (i, s) ]
]

unfoldable pub find_row : DatabaseServer → ℤ → Option (ℕ × DatabaseConfig)
find_row server di = elim (in_range di (length server.databases)) [
  | none ↦ none
  | some i ↦ elim (get_elem? server.databases i) [ none ↦ none | some d ↦ some (i, d) ]
]

unfoldable pub check_server : Config → ℤ → Exec Response (ℕ × DatabaseServer)
check_server cfg si =
    from_some (http_error 400 (txt "server_index out of range")) (find_server cfg si)

unfoldable pub check_row : DatabaseServer → ℤ → Exec Response (ℕ × DatabaseConfig)
check_row server di = from_some (http_error 400 (txt "db_index out of range")) (find_row server di)

-- The config file is read, the indices are checked, and a stale row is refused.
unfoldable pub load_row : Env → Request → ℤ → ℤ → Exec Response Row
unfolding check_server check_row
load_row env req si di = do
  cfg ← read_config env
  (i, server) ← check_server cfg si
  (j, db) ← check_row server di
  if stale_row req server db
      then raise (redirect stale_row_msg)
      else pure (record { config = cfg; si = i; server = server; di = j; db = db })

unfoldable pub write_config_err_msg : Err → Text
write_config_err_msg e =
    let msg = txt "Error: couldn't save the config file: " ++ e.message in
    if e.read_only
    then msg
      ++ txt
          ". The file is read-only (a Kubernetes ConfigMap mount is read-only); edit the source config instead."
    else msg

unfoldable pub save : Env → Config → Exec Response (Unit {0})
save env cfg = on_err (λ e. redirect (write_config_err_msg e)) (call env (config_write cfg))

-- The config in which the row's entry is another one.
unfoldable pub replace_row : Row → DatabaseConfig → Config
replace_row r db = set_database r.config r.si r.di r.server db
