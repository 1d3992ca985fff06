-- ===== src/Site/Page.antt =====
-- `handleIndex`, and the data that `renderIndex` hands to the template.
use homelab_db_provisioner.Prelude.{
  Bool, true, false, Option, none, some, List, [], ◌∷◌, ◌++◌, Text, txt, text_eq, starts_with, ℤ,
  if◌then◌else◌,
}
use homelab_db_provisioner.Config.{DatabaseServer, Config, is_postgresql, detect_db_type}
use homelab_db_provisioner.World.{
  Env, ConfigRead, unreadable, unparsable, parsed, Exec, pure, raise, ◌>>=◌, ask_config,
}
use homelab_db_provisioner.Http.{RevealedPassword, Response, http_error, page}
use homelab_db_provisioner.Health.{ServerHealth, health_for}
use homelab_db_provisioner.Site.Request.{HttpRequest, Settings}

-- `adminTemplateData`
pub record AdminTemplateData : Type 0 where
  pub servers : List DatabaseServer
  pub flash : Text
  pub flash_error : Bool
  pub k8s_enabled : Bool
  pub namespace : Text
  pub watch_mode : Bool
  pub reveal : Option RevealedPassword
  pub pg_server_names : List Text
  pub health : List ServerHealth

abbrev has_manager : Option Text → Bool
has_manager none = false
has_manager (some namespace) = true

abbrev namespace_of : Option Text → Text
namespace_of none = []
namespace_of (some namespace) = namespace

-- The names of all PostgreSQL servers.
unfoldable pub pg_names : List DatabaseServer → List Text
pg_names [] = []
pg_names (s ∷ ss) =
    let rest = pg_names ss in
    if is_postgresql (detect_db_type s.root_connection_string) then s.name ∷ rest else rest

unfoldable pub read_index : Text → Text → ConfigRead → Exec Response Response
read_index config_path msg (unreadable e) =
    raise (
      http_error 500
        (txt "Failed to read config file " ++ (config_path ++ (txt ": " ++ e.message))))
read_index config_path msg (unparsable e) = raise (
    http_error 500 (
      txt "Config file "
      ++ (config_path
          ++ (txt " is not valid JSON: "
              ++ (e.message ++ txt "\nFix the file and reload this page.")))))
read_index config_path msg (parsed cfg) = pure (page cfg msg none)

module _ (env : Env) where
  unfoldable pub handle_index : HttpRequest → Exec Response Response
  unfolding read_index
  handle_index r =
      if text_eq r.path (txt "/")
      then (do config ← ask_config env; read_index env.config_path r.msg config)
      else raise (http_error 404 (txt "404 page not found"))

  unfoldable pub render_index :
      (Text → Option ℤ)
      → Settings
      → Option Text
      → Config
      → Text
      → Option RevealedPassword
      → Exec ⊥ AdminTemplateData
  render_index days_since settings manager cfg msg reveal = do
    health ← health_for env days_since cfg.servers
    pure (record {
      servers = cfg.servers;
      flash = msg;
      flash_error = starts_with (txt "Error:") msg;
      k8s_enabled = has_manager manager;
      namespace = namespace_of manager;
      watch_mode = text_eq settings.watch_mode (txt "true");
      reveal = reveal;
      pg_server_names = pg_names cfg.servers;
      health = health;
    })
