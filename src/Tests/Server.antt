-- ===== src/Tests/Server.antt =====
-- Runs of the theorems on the abstract PostgreSQL server, which starts with nothing on it.
use homelab_db_provisioner.Prelude.{
  ◌≡◌, refl, Bool, true, false, not, [], List, txt, text_eq, free_of, is_empty, starts_with, cut,
  Result, ok, if◌then◌else◌,
}
use homelab_db_provisioner.World.{Env, Event, Err, sql_query, sql_exec}
use homelab_db_provisioner.World
use homelab_db_provisioner.Config.{DatabaseServer}
use homelab_db_provisioner.Prelude.{arith, none, ◌∷◌}
use homelab_db_provisioner.Process.Server.{process_server}
use homelab_db_provisioner.World.{parsed}
use homelab_db_provisioner.Process.OnceLaws.{only_server}
use homelab_db_provisioner.Process.Achieves.{IsReady, achieved, process_server-achieves}
use homelab_db_provisioner.Prelude.Dict.{lookup, insert}
use homelab_db_provisioner.Sql.Reader
use homelab_db_provisioner.Sql.Escape.{quote_identifier, escape_string}
use homelab_db_provisioner.Sql.Literal.{scan_string}
use homelab_db_provisioner.Provision.Postgres
use homelab_db_provisioner.Provision.Statement.{execute}
use homelab_db_provisioner.Sql.Postgres as Sql
use homelab_db_provisioner.Sql.Reader.{Statement, create_database, quote, read}
use homelab_db_provisioner.Provision.Server.{
  is_plain, effect, same_conn, same_driver, apply, State, IsPlain, IsTruthful, IsUp, has, replay,
  provisioned,
}
use homelab_db_provisioner.Provision.Postgres.{provision_postgresql}
use homelab_db_provisioner.Provision.Refines.{provision_postgresql-again}
use homelab_db_provisioner.Provision.Succeeds.{provision_postgresql-achieves}
use homelab_db_provisioner.Tests.{app, conn, calm, plain, site, main_server}

abbrev nothing : State
nothing = record { roles = []; databases = []; grants = []; unread = [] }

-- The catalogue queries of a server in this state.
abbrev answer : Event → State → Result Err Bool
answer (sql_query c q name) s =
    ok (if text_eq q Sql.user_exists then has name s.roles else has name s.databases)
answer _ s = ok false

abbrev wet_server : DatabaseServer
wet_server = record main_server { dry_run = false }

abbrev live : Env
live = record calm {
  asks = λ t e. answer e (replay calm.fails conn nothing t);
  config = λ t. parsed (only_server wet_server none);
}

live-IsUp : IsUp live conn nothing
unfolding text_eq txt Sql.user_exists Sql.database_exists
live-IsUp = record {
  user_query = λ t name known. refl;
  database_query = λ t name known. refl;
  valid_statement = λ t sql known v. refl;
}

live-IsTruthful : IsTruthful live conn nothing
unfolding text_eq txt Sql.user_exists Sql.database_exists
live-IsTruthful = record {
  user_answer = λ t name b known e. cc;
  database_answer = λ t name b known e. cc;
}

app-IsPlain : IsPlain app
unfolding is_plain Reader.is_words Reader.is_word_char free_of txt is_empty starts_with text_eq
    Sql.privileges
app-IsPlain = record {
  user_plain = refl;
  database_plain = refl;
  password_plain = refl;
  privileges_plain = refl;
  extensions_plain = tt;
}

provision_postgresql-achieves_example :
    (t' : List Event) × (provision_postgresql live conn conn.dsn app false []
      ≡ (ok (not (has app.database (replay live.fails conn nothing []).databases)), t'))
    × (replay live.fails conn nothing t' ≡ provisioned app (replay live.fails conn nothing []))
unfolding replay
provision_postgresql-achieves_example =
    provision_postgresql-achieves live conn nothing app app-IsPlain live-IsUp conn.dsn [] refl refl
      refl

abbrev first_run : List Event
first_run = (provision_postgresql live conn conn.dsn app false []).1

abbrev second_run : List Event
second_run = (provision_postgresql live conn conn.dsn app false first_run).1

provision_postgresql-again_example :
    (false ≡ false)
    × ((replay live.fails conn nothing second_run).roles
        ≡ (replay live.fails conn nothing first_run).roles)
    × ((replay live.fails conn nothing second_run).databases
        ≡ (replay live.fails conn nothing first_run).databases)
unfolding provision_postgresql World.◌>>=◌ World.on_err Postgres.check_user_exists World.ask text_eq
    Sql.user_exists txt has lookup replay execute World.call Postgres.check_database_exists
    Sql.database_exists effect same_conn insert Postgres.create_database World.try
    Postgres.after_create apply same_driver Sql.alter_owner Sql.alter_user Sql.create_database
    Sql.create_user Sql.grant Sql.privileges Sql.with_password Reader.after read Reader.read_grant
    Reader.read_login Reader.read_name Reader.read_names Reader.without_last Reader.before
    Reader.is_words Reader.is_word_char quote_identifier escape_string scan_string cut starts_with
    World.pure Postgres.maybe_extensions
provision_postgresql-again_example =
    provision_postgresql-again live conn nothing app app-IsPlain conn.dsn [] first_run second_run
      true false live-IsTruthful refl refl refl

plain-IsReady : IsReady plain
unfolding is_plain Reader.is_words Reader.is_word_char free_of txt is_empty starts_with text_eq
    Sql.privileges
plain-IsReady = record {
  in_config = refl;
  plain = record {
    user_plain = refl;
    database_plain = refl;
    password_plain = refl;
    privileges_plain = refl;
    extensions_plain = tt;
  };
  all_privileges = refl;
  no_extensions = refl;
  no_restore = refl;
}

process_server-achieves_example :
    (t' : List Event) × (process_server live none site wet_server [] ≡ (ok tt, t'))
    × (replay live.fails conn nothing t'
        ≡ achieved (plain ∷ []) (replay live.fails conn nothing []))
unfolding homelab_db_provisioner.Config.detect_db_type starts_with txt replay
    homelab_db_provisioner.Process.Connect.attempt World.◌>>=◌ World.call
process_server-achieves_example =
    process_server-achieves live none site wet_server nothing refl live-IsUp 4 [] refl refl
      (plain-IsReady, tt) (omega arith) refl
