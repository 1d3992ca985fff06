-- ===== src/Process/OnceLaws.antt =====
-- A whole run of the program on a config with one PostgreSQL server, on the abstract server.
use homelab_db_provisioner.Prelude.{◌≡◌, Bool, true, Option, none, some, [], ◌∷◌, Text}
use homelab_db_provisioner.Config.{MigrateConfig, DatabaseConfig, DatabaseServer, Config, S3Config}
use homelab_db_provisioner.World.{Env}

-- No migration, or one that is completed.
abbrev pub is_settled : Option MigrateConfig → Bool
is_settled none = true
is_settled (some m) = m.completed

abbrev pub IsSettled : DatabaseConfig → Type 0
IsSettled db = is_settled db.migrate ≡ true

-- A config with one server.
abbrev pub only_server : DatabaseServer → Option S3Config → Config
only_server server s3 = record { servers = server ∷ []; s3 = s3 }

module _ (env : Env) (manager : Option Text) (server : DatabaseServer) (s3 : Option S3Config) where
  abbrev config : Config
  config = only_server server s3
