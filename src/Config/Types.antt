-- ===== src/Config/Types.antt =====
-- The types of main.go, lines 22 to 74, and `detectDBType`.
use homelab_db_provisioner.Prelude.{
  Bool, true, false, ◌||◌, Option, none, some, List, [], Text, txt, starts_with, ℤ, if◌then◌else◌,
}

pub record BackupConfig : Type 0 where
  pub enabled : Bool
  pub schedule : Text
  pub keep_count : ℤ
  pub restore_on_create : Bool

pub record MigrateConfig : Type 0 where
  pub target_server : Text
  pub confirm_drop : Bool
  pub completed : Bool
  pub completed_at : Text
  pub error : Text

pub record S3Config : Type 0 where
  pub bucket : Text
  pub region : Text
  pub endpoint : Text
  pub prefix : Text

pub record DatabaseConfig : Type 0 where
  pub database : Text
  pub user : Text
  pub password : Text
  pub permissions : List Text
  pub extensions : List Text
  pub backup : Option BackupConfig
  pub requires_connect_string : Bool
  pub k8s_secret : Text
  pub migrate : Option MigrateConfig

pub record DatabaseServer : Type 0 where
  pub name : Text
  pub root_connection_string : Text
  pub dry_run : Bool
  pub databases : List DatabaseConfig

pub record Config : Type 0 where
  pub servers : List DatabaseServer
  pub s3 : Option S3Config

pub data DbType : Type 0 where
  postgresql maria_db mongo_db : DbType

abbrev pub is_postgresql : DbType → Bool
is_postgresql postgresql = true
is_postgresql _ = false

abbrev pub is_mongo_db : DbType → Bool
is_mongo_db mongo_db = true
is_mongo_db _ = false

unfoldable pub detect_db_type : Text → DbType
detect_db_type conn_str =
    if starts_with (txt "mongodb://") conn_str || starts_with (txt "mongodb+srv://") conn_str
    then mongo_db
    else if starts_with (txt "mariadb://") conn_str || starts_with (txt "mysql://") conn_str
    then maria_db
    else postgresql

-- `db.Migrate != nil && db.Migrate.Completed`
abbrev pub is_migrated : DatabaseConfig → Bool
is_migrated db = elim db.migrate [ none ↦ false | some m ↦ m.completed ]

-- An entry with the zero value in every field.
abbrev pub blank_database : DatabaseConfig
blank_database = record {
  database = [];
  user = [];
  password = [];
  permissions = [];
  extensions = [];
  backup = none;
  requires_connect_string = false;
  k8s_secret = [];
  migrate = none;
}
