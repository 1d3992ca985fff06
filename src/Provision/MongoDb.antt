-- ===== src/Provision/MongoDb.antt =====
-- `provisionMongoDB` of mongo.go. The client is its connection string.
use homelab_db_provisioner.Prelude.{
  Bool, true, false, not, Option, none, some, ◌++◌, Text, txt, text_eq, contains, any, Result, ok,
  err, if◌then◌else◌,
}
use homelab_db_provisioner.Config.{DatabaseConfig}
use homelab_db_provisioner.World.{
  Env, Err, Exec, pure, raise, ◌>>=◌, ◌>>◌, on_err, try, wrap, new_error, call, call_ignoring,
  ask_names, mongo_connect, mongo_list, mongo_drop_user, mongo_create_user, mongo_insert,
}
use homelab_db_provisioner.Provision.Statement.{call_or}

-- The test of an entry of the database list.
abbrev pub has_name : Text → Option Text → Bool
has_name database none = false
has_name database (some name) = text_eq name database

module _ (env : Env) where
  -- `listDatabases`, and the loop over its reply
  unfoldable pub database_listed : Text → Text → Exec Err Bool
  database_listed uri database = do
    reply ← on_err (wrap (txt "failed to list databases: ")) (ask_names env (mongo_list uri))
    elim reply [
      | none ↦ raise (new_error (txt "unexpected database list format"))
      | some names ↦ pure (any (has_name database) names)
    ]

  unfoldable pub create_user : Bool → Text → DatabaseConfig → Exec Err (Unit {0})
  create_user true uri config = pure tt
  create_user false uri config = do
    call_ignoring (mongo_drop_user uri config.user)
    call_or env (txt "failed to create user: ")
        (mongo_create_user uri config.user config.password config.database)

  -- An error of the insertion that says "already exists" is ignored.
  unfoldable pub after_insert : Result Err (Unit {0}) → Exec Err (Unit {0})
  after_insert (ok _) = pure tt
  after_insert (err e) =
      if contains (txt "already exists") e.message
      then pure tt
      else raise (wrap (txt "failed to create collection: ") e)

  unfoldable pub create_collection : Bool → Text → DatabaseConfig → Exec Err (Unit {0})
  unfolding after_insert
  create_collection true uri config = pure tt
  create_collection false uri config = do
    r ← try (call env (mongo_insert uri config.database (config.database ++ txt "_data")))
    after_insert r

  -- Whether the database was created, or an error.
  unfoldable pub provision_mongodb : Text → DatabaseConfig → Bool → Exec Err Bool
  unfolding database_listed create_user create_collection
  provision_mongodb uri config dry_run = do
    call_or env (txt "failed to connect to MongoDB: ") (mongo_connect uri)
    db_exists ← database_listed uri config.database
    create_user dry_run uri config
    create_collection dry_run uri config
    pure (not db_exists)
