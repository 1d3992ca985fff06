-- ===== src/Process/Load.antt =====
-- `loadConfig`.
use homelab_db_provisioner.Prelude.{
  ℕ, ◌+◌, Option, none, some, List, [], ◌∷◌, ◌++◌, txt, is_empty, itoa, if◌then◌else◌,
}
use homelab_db_provisioner.Config.{DatabaseServer, Config}
use homelab_db_provisioner.World.{
  Env, Err, ConfigRead, unreadable, unparsable, parsed, Exec, pure, raise, ◌>>=◌, wrap, new_error,
  ask_config,
}

-- The loop over the servers, from an index on: the first one without a connection string.
unfoldable pub check_servers : ℕ → List DatabaseServer → Option Err
check_servers i [] = none
check_servers i (s ∷ ss) =
    let rest = check_servers (i + 1) ss in
    if is_empty s.root_connection_string
    then some (new_error (txt "server " ++ (itoa i ++ txt ": root connection string is required")))
    else rest

-- The config, if no server has failed.
abbrev pub unless : Option Err → Config → Exec Err Config
unless (some e) config = raise e
unless none config = pure config

-- The validation.
unfoldable pub validate : Config → Exec Err Config
unfolding check_servers
validate config = elim config.servers [
  | [] ↦ raise (new_error (txt "at least one server configuration is required"))
  | s ∷ ss ↦ unless (check_servers 0 (s ∷ ss)) config
]

unfoldable pub check_read : ConfigRead → Exec Err Config
check_read (unreadable e) = raise (wrap (txt "failed to read config file: ") e)
check_read (unparsable e) = raise (wrap (txt "failed to parse config: ") e)
check_read (parsed config) = validate config

unfoldable pub load_config : Env → Exec Err Config
unfolding check_read validate
load_config env = do r ← ask_config env; check_read r
