-- ===== src/Http.antt =====
-- Requests and responses of the admin site and of the JSON API, as far as the handlers read and
-- build them.
use homelab_db_provisioner.Prelude.{ℕ, Bool, Option, List, [], Text}
use homelab_db_provisioner.Prelude.Dict.{get_or}
use homelab_db_provisioner.Config.{BackupConfig, Config}

-- A form post: whether the method is POST and the form can be parsed, and the form's values.
pub record Request : Type 0 where
  pub is_post : Bool
  pub form_parses : Bool
  pub form : List (Text × Text)

-- `r.FormValue(key)`
unfoldable pub form_value : Request → Text → Text
form_value req key = get_or [] key req.form

-- `revealedPassword`
pub record RevealedPassword : Type 0 where
  pub server : Text
  pub database : Text
  pub user : Text
  pub password : Text

-- `databaseResponse` and `serverResponse` of api.go
pub record DatabaseResponse : Type 0 where
  pub index : ℕ
  pub database : Text
  pub user : Text
  pub permissions : List Text
  pub extensions : List Text
  pub backup : Option BackupConfig
  pub k8s_secret : Text

pub record ServerResponse : Type 0 where
  pub index : ℕ
  pub name : Text
  pub root_connection_string : Text
  pub dry_run : Bool
  pub databases : List DatabaseResponse

-- A page has the config, the message and perhaps a password, which is then not cached. A redirect
-- goes to the page with a message in its URL.
pub data Response : Type 0 where
  http_error : ℕ → Text → Response
  redirect : Text → Response
  page : Config → Text → Option RevealedPassword → Response
  json_error : ℕ → Text → Response
  json_servers : List ServerResponse → Response
  json_server : ℕ → ServerResponse → Response
  json_databases : List DatabaseResponse → Response
  json_database : ℕ → DatabaseResponse → Text → Response
  no_content : Response
