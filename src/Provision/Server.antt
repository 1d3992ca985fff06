-- ===== src/Provision/Server.antt =====
-- An abstract PostgreSQL server: the roles with their passwords, the databases with their owners
-- and the privileges granted. It says what the statements that provisioning executes do to a
-- server, what the server answers, and what provisioning is meant to achieve.
use homelab_db_provisioner.Prelude.{
  ◌≡◌, ℕ, ◌+◌, Bool, true, false, not, ◌&&◌, Option, none, some, List, [], ◌∷◌, Text, txt, text_eq,
  is_empty, starts_with, free_of, ltb, ok, All, if◌then◌else◌,
}
use homelab_db_provisioner.Prelude.Dict.{lookup, insert}
use homelab_db_provisioner.Config.{DatabaseConfig}
use homelab_db_provisioner.World.{Env, Event, Err, Driver, Conn, sql_exec, sql_query}
use homelab_db_provisioner.Sql.Postgres as Sql
use homelab_db_provisioner.Sql.Reader.{
  Statement, create_role, alter_role, create_database, set_owner, create_extension,
  refresh_collation, unknown, quote, is_words, read,
}

-- Privileges, on a database, for a role.
pub record Grant : Type 0 where
  pub privileges : Text
  pub database : Text
  pub role : Text

pub record State : Type 0 where
  -- roles with their passwords, databases with their owners
  pub roles : List (Text × Text)
  pub databases : List (Text × Text)
  pub grants : List Grant
  -- texts that were executed and that the reader does not know: what they did is open
  pub unread : List Text

abbrev is_some : {A : Type 0} → Option A → Bool
is_some none = false
is_some (some a) = true

unfoldable pub has : Text → List (Text × Text) → Bool
has name m = is_some (lookup name m)

-- What a statement that succeeds does.
unfoldable pub apply : Statement → State → State
apply (create_role role password) s = record s { roles = insert role password s.roles }
apply (alter_role role password) s = record s { roles = insert role password s.roles }
apply (create_database database owner) s = record s {
  databases = insert database owner s.databases;
}
apply (set_owner database owner) s = record s { databases = insert database owner s.databases }
apply (Statement.grant privileges database role) s =
    let g : Grant = record { privileges = privileges; database = database; role = role } in
    record s { grants = g ∷ s.grants }
apply (create_extension name) s = s
apply refresh_collation s = s
apply (unknown sql) s = record s { unread = sql ∷ s.unread }

-- What a statement does that fails. A text that is not known can be several statements, of which
-- only one failed.
unfoldable pub failed : Statement → State → State
unfolding apply
failed (unknown sql) s = apply (unknown sql) s
failed _ s = s

-- What a statement does that is executed on another connection, where only an extension is known
-- to stay away from roles, databases and grants.
unfoldable pub elsewhere : Text → Statement → State → State
unfolding apply
elsewhere sql (create_extension name) s = s
elsewhere sql _ s = apply (unknown sql) s

-- The bytes of a text in UTF-8.
abbrev bytes : ℕ → ℕ
bytes c = if ltb c 0x80 then 1 else if ltb c 0x800 then 2 else if ltb c 0x10000 then 3 else 4

unfoldable byte_length : Text → ℕ
byte_length [] = 0
byte_length (c ∷ s) = bytes c + byte_length s

-- A name that PostgreSQL takes as it is between quotation marks: not empty, at most 63 bytes, no
-- quotation mark, no NUL, and none of the names that are reserved for roles.
unfoldable pub is_plain : Text → Bool
unfolding byte_length
is_plain name =
    free_of quote name
    && (free_of 0 name
        && (not (is_empty name)
            && (ltb (byte_length name) 64
                && (not (starts_with (txt "pg_") name)
                    && (not (text_eq name (txt "public")) && not (text_eq name (txt "none")))))))

-- What a superuser's statement needs to succeed: plain names, and a password without a NUL. CREATE
-- wants the name to be new, ALTER and GRANT want it to be there, and so does an owner. Of the
-- privileges, all are known to be a right word.
abbrev pub IsValid : Statement → State → Type 0
IsValid (create_role role password) s =
    (is_plain role ≡ true) × (free_of 0 password ≡ true) × (has role s.roles ≡ false)
IsValid (alter_role role password) s =
    (is_plain role ≡ true) × (free_of 0 password ≡ true) × (has role s.roles ≡ true)
IsValid (create_database database owner) s =
    (is_plain database ≡ true)
    × (is_plain owner ≡ true)
    × (has database s.databases ≡ false)
    × (has owner s.roles ≡ true)
IsValid (set_owner database owner) s =
    (is_plain database ≡ true)
    × (is_plain owner ≡ true)
    × (has database s.databases ≡ true)
    × (has owner s.roles ≡ true)
IsValid (Statement.grant privileges database role) s =
    (privileges ≡ txt "ALL PRIVILEGES")
    × (is_plain database ≡ true)
    × (is_plain role ≡ true)
    × (has database s.databases ≡ true)
    × (has role s.roles ≡ true)
IsValid _ s = ⊥

-- A config entry that PostgreSQL can take as it is.
pub record IsPlain (config : DatabaseConfig) : Type 0 where
  pub user_plain : is_plain config.user ≡ true
  pub database_plain : is_plain config.database ≡ true
  pub password_plain : free_of 0 config.password ≡ true
  pub privileges_plain : is_words (Sql.privileges config.permissions) ≡ true
  pub extensions_plain : All (λ name. free_of quote name ≡ true) config.extensions

-- Two connections to the same server as the same user.
unfoldable pub same_driver : Driver → Driver → Bool
same_driver Driver.postgres Driver.postgres = true
same_driver Driver.mysql Driver.mysql = true
same_driver _ _ = false

unfoldable pub same_conn : Conn → Conn → Bool
unfolding same_driver
same_conn c d = same_driver c.driver d.driver && text_eq c.dsn d.dsn

-- What a call does, by the error with which it ended.
unfoldable pub effect : Conn → Event → Option Err → State → State
effect conn (sql_exec c sql) none s =
    if same_conn c conn then apply (read sql) s else elsewhere sql (read sql) s
effect conn (sql_exec c sql) (some e) s =
    if same_conn c conn then failed (read sql) s else elsewhere sql (read sql) s
effect conn _ _ s = s

-- The state of the server behind a connection after the calls, the newest first.
unfoldable pub replay : (List Event → Event → Option Err) → Conn → State → List Event → State
replay fails conn start [] = start
replay fails conn start (e ∷ t) = effect conn e (fails t e) (replay fails conn start t)

-- The state is known: no text was executed that the reader does not know.
abbrev pub IsKnown : State → Type 0
IsKnown s = s.unread ≡ []

-- What the catalogue queries of provisioning answer in a known state, if they answer: whether the
-- role or the database is there.
pub record IsTruthful (env : Env) (conn : Conn) (start : State) : Type 0 where
  pub user_answer :
      (t : List Event) (name : Text) (b : Bool)
      → IsKnown (replay env.fails conn start t)
      → env.asks t (sql_query conn Sql.user_exists name) ≡ ok b
      → has name (replay env.fails conn start t).roles ≡ b
  pub database_answer :
      (t : List Event) (name : Text) (b : Bool)
      → IsKnown (replay env.fails conn start t)
      → env.asks t (sql_query conn Sql.database_exists name) ≡ ok b
      → has name (replay env.fails conn start t).databases ≡ b

-- A server that is up: in a known state it answers each catalogue query, and no valid statement
-- fails.
pub record IsUp (env : Env) (conn : Conn) (start : State) : Type 0 where
  pub user_query :
      (t : List Event) (name : Text)
      → IsKnown (replay env.fails conn start t)
      → env.asks t (sql_query conn Sql.user_exists name)
        ≡ ok (has name (replay env.fails conn start t).roles)
  pub database_query :
      (t : List Event) (name : Text)
      → IsKnown (replay env.fails conn start t)
      → env.asks t (sql_query conn Sql.database_exists name)
        ≡ ok (has name (replay env.fails conn start t).databases)
  pub valid_statement :
      (t : List Event) (sql : Text)
      → IsKnown (replay env.fails conn start t)
      → IsValid (read sql) (replay env.fails conn start t)
      → env.fails t (sql_exec conn sql) ≡ none

-- What provisioning is meant to achieve, whatever was there before: the role has the password,
-- the database is owned by the role, and the privileges are granted.
unfoldable pub provisioned : DatabaseConfig → State → State
provisioned config s = record s {
  roles = insert config.user config.password s.roles;
  databases = insert config.database config.user s.databases;
  grants =
      record {
        privileges = Sql.privileges config.permissions;
        database = config.database;
        role = config.user;
      }
      ∷ s.grants;
}
