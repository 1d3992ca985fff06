-- ===== src/Migrate/Target.antt =====
-- `allDatabasesMigrated`, `resolveTargetServer` and `persistMigrate`.
use homelab_db_provisioner.Prelude.{
  ℕ, Bool, true, false, not, ◌&&◌, Option, none, some, List, [], ◌∷◌, ◌++◌, Text, txt, text_eq, all,
  Result, ok, err, get_elem?, set, if◌then◌else◌,
}
use homelab_db_provisioner.Config.{
  MigrateConfig, DatabaseConfig, DatabaseServer, Config, is_migrated, is_postgresql, detect_db_type,
}
use homelab_db_provisioner.World.{
  Env, Err, ConfigRead, parsed, Exec, pure, ◌>>=◌, new_error, call_ignoring, ask_config,
  config_write,
}

abbrev pub is_nonempty : List DatabaseConfig → Bool
is_nonempty [] = false
is_nonempty (d ∷ ds) = true

unfoldable pub all_databases_migrated : DatabaseServer → Bool
all_databases_migrated server = is_nonempty server.databases && all is_migrated server.databases

-- The loop: the first server of the name decides.
unfoldable pub find_target : Text → List DatabaseServer → Result Err DatabaseServer
find_target target [] = err (new_error (txt "target server \"" ++ (target ++ txt "\" not found")))
find_target target (s ∷ ss) =
    let rest = find_target target ss in
    if not (text_eq s.name target)
    then rest
    else if not (is_postgresql (detect_db_type s.root_connection_string))
    then err (new_error (txt "target server \"" ++ (target ++ txt "\" is not PostgreSQL")))
    else ok s

unfoldable pub resolve_target_server : List DatabaseServer → Text → Text → Result Err DatabaseServer
unfolding find_target
resolve_target_server servers target source =
    if text_eq target source
    then err (new_error (txt "target server must differ from source"))
    else find_target target servers

-- `cfg.Servers[si].Databases[di] = db`, where both indices are in range
unfoldable pub set_database : Config → ℕ → ℕ → DatabaseServer → DatabaseConfig → Config
set_database cfg si di server db = record cfg {
  servers = set cfg.servers si (record server { databases = set server.databases di db });
}

-- The row at two indices, with its server.
unfoldable pub get_database : Config → ℕ → ℕ → Option (DatabaseServer × DatabaseConfig)
get_database cfg si di = elim (get_elem? cfg.servers si) [
  | none ↦ none
  | some server ↦ elim (get_elem? server.databases di) [ none ↦ none | some db ↦ some (server, db) ]
]

-- What `persistMigrate` writes back after it has read the file.
unfoldable pub with_migrate : Config → ℕ → ℕ → MigrateConfig → Option Config
with_migrate cfg si di m = elim (get_database cfg si di) [
  | none ↦ none
  | some (server, db) ↦ some (set_database cfg si di server (record db { migrate = some m }))
]

unfoldable pub write_config : Option Config → Exec ⊥ (Unit {0})
write_config none = pure tt
write_config (some cfg) = call_ignoring (config_write cfg)

unfoldable pub persist_read : ConfigRead → ℕ → ℕ → MigrateConfig → Exec ⊥ (Unit {0})
persist_read (parsed cfg) si di m = write_config (with_migrate cfg si di m)
persist_read _ si di m = pure tt

-- Errors are only logged.
unfoldable pub persist_migrate : Env → ℕ → ℕ → MigrateConfig → Exec ⊥ (Unit {0})
persist_migrate env si di m = do r ← ask_config env; persist_read r si di m
