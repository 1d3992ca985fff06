-- ===== src/Tests/Site.antt =====
-- Runs of the theorems on the admin site, the start of the program, its status and its loops.
use homelab_db_provisioner.Prelude.{
  ◌≡◌, refl, ◌<◌, ◌≤◌, inl, inr, ◌||◌, Bool, true, false, not, none, some, Option, [], ◌∷◌, List,
  Text, txt, text_eq, is_empty, any, ℤ, pos, ok, length, contains, arith,
}
use homelab_db_provisioner.World.Inversion.{Succeeds}
use homelab_db_provisioner.World.Keeps.{Only}
use homelab_db_provisioner.World.Reads.{IsRead}
use homelab_db_provisioner.Process.Connect.{connect_with_retry}
use homelab_db_provisioner.Process.ConnectLaws.{connect_with_retry-Succeeds}
use homelab_db_provisioner.Admin.SecretEdit
use homelab_db_provisioner.Admin.MoveLaws.{MovesUnique, handle_move_to_secret-Unique}
use homelab_db_provisioner.Slug.{squeeze, double_dash}
use homelab_db_provisioner.Slug.LoopLaws.{squeeze-terminates}
use homelab_db_provisioner.Site.Request.{HttpRequest, Settings}
use homelab_db_provisioner.Site.Serve.{is_authorized, serve}
use homelab_db_provisioner.Site.GetLaws.{serve-get}
use homelab_db_provisioner.World.{Event}
use homelab_db_provisioner.Config.{DatabaseServer}
use homelab_db_provisioner.Health.{off, server_health}
use homelab_db_provisioner.Health.Care.{WarnsRightly}
use homelab_db_provisioner.Health.ServerAlarms.{server_health-WarnsRightly}
use homelab_db_provisioner.Tests.{plain, main_server}
use homelab_db_provisioner.Startup.{Pod, is_on, main}
use homelab_db_provisioner.Startup.GuardLaws.{IsManaged, main-login, main-IsManaged}
use homelab_db_provisioner.Tests.{form, calm-ReadsUnique, calm, conn}

abbrev settings : Settings
settings = record {
  admin_site = txt "true";
  admin_user = txt "admin";
  admin_password = txt "secret";
  admin_port = [];
  use_kubernetes_secrets = txt "true";
  watch_mode = [];
  config_path = [];
}

abbrev pod : Pod
pod = record { in_cluster = ok tt; new_client = ok tt; namespace_file = ok (txt "default") }

-- A stranger asks for the page, and the operator for the list of servers.
abbrev stranger : HttpRequest
stranger = record {
  method = txt "POST";
  path = txt "/";
  login = none;
  msg = [];
  form_parses = true;
  form = [];
  body = record {
    create_server = none;
    update_server = none;
    create_database = none;
    update_database = none;
  };
}

abbrev operator : HttpRequest
operator = record stranger {
  method = txt "GET";
  path = txt "/api/servers";
  login = some (txt "admin", txt "secret");
}

abbrev from_anywhere : HttpRequest → Option Text
from_anywhere r = none

abbrev undated : Text → Option ℤ
undated stamp = none

serve-get_example : Only IsRead (serve calm from_anywhere undated settings none operator)
serve-get_example = serve-get calm from_anywhere undated settings none operator (inl refl)

main-login_example :
    (user : Text) × (password : Text) × (operator.login ≡ some (user, password))
    × (is_empty user ≡ false)
    × (is_empty password ≡ false)
unfolding main text_eq txt is_empty homelab_db_provisioner.Startup.init_k8s_secrets_manager
    homelab_db_provisioner.Prelude.trim_space is_authorized
main-login_example = main-login settings pod operator.login refl refl

main-IsManaged_example : IsManaged pod (main settings pod)
unfolding text_eq txt
main-IsManaged_example = main-IsManaged settings pod refl

-- A server with a database whose migration has failed.
abbrev sick : DatabaseServer
sick = record main_server {
  databases =
      record plain {
        migrate = some (record {
          target_server = txt "other";
          confirm_drop = false;
          completed = false;
          completed_at = [];
          error = txt "no route to host";
        });
      }
      ∷ [];
}

abbrev sick_run : List Event
sick_run = (server_health calm undated sick []).1

server_health-WarnsRightly_example :
    WarnsRightly calm undated (calm.lists []) sick.name true sick.databases
unfolding server_health homelab_db_provisioner.World.◌>>=◌
    homelab_db_provisioner.Health.databases_health homelab_db_provisioner.Health.database_health
    homelab_db_provisioner.Health.note_all homelab_db_provisioner.Health.note
    homelab_db_provisioner.Health.count_backup homelab_db_provisioner.Health.count_migration
    homelab_db_provisioner.Health.migration_state is_empty txt
server_health-WarnsRightly_example =
    server_health-WarnsRightly calm undated (calm.lists []) sick [] sick_run
      (record {
        items = txt "1 migration failed" ∷ [];
        warn = true;
        dbs = record { backup = off; last_backup = [] } ∷ [];
      })
      (λ t e. refl) refl

connect_with_retry-Succeeds_example : Succeeds (connect_with_retry calm conn 5) []
connect_with_retry-Succeeds_example =
    connect_with_retry-Succeeds calm conn 3 5 [] (λ s h. (refl, refl)) (omega arith)

squeeze-terminates_example :
    (contains double_dash (squeeze 6 (txt "a---b")) ≡ false)
    × (squeeze 9 (txt "a---b") ≡ squeeze 6 (txt "a---b"))
unfolding txt
squeeze-terminates_example = squeeze-terminates 6 9 (txt "a---b") (omega arith) (omega arith)

handle_move_to_secret-Unique_example :
    Only MovesUnique (SecretEdit.handle_move_to_secret calm (some (txt "default")) form)
handle_move_to_secret-Unique_example =
    handle_move_to_secret-Unique calm (some (txt "default")) form calm-ReadsUnique
