-- ===== src/Site/Request.antt =====
-- An HTTP request as the admin site reads it, and the environment variables of the process.
use homelab_db_provisioner.Prelude.{Bool, Option, List, Text, txt, text_eq}
use homelab_db_provisioner.Http.{Request}
use homelab_db_provisioner.Api.Servers.{CreateServerRequest, UpdateServerRequest}
use homelab_db_provisioner.Api.Databases.{CreateDatabaseRequest, UpdateDatabaseRequest}

-- What a body decodes to, for each type that a handler decodes it to, `none` if it does not.
pub record Body : Type 0 where
  pub create_server : Option CreateServerRequest
  pub update_server : Option UpdateServerRequest
  pub create_database : Option CreateDatabaseRequest
  pub update_database : Option UpdateDatabaseRequest

-- The path is clean and has no escapes. The login is that of `BasicAuth`, the message the query's
-- `msg`. The form is what `FormValue` sees.
pub record HttpRequest : Type 0 where
  pub method : Text
  pub path : Text
  pub login : Option (Text × Text)
  pub msg : Text
  pub form_parses : Bool
  pub form : List (Text × Text)
  pub body : Body

-- The request as the form handlers read it.
unfoldable pub form_request : HttpRequest → Request
form_request r = record {
  is_post = text_eq r.method (txt "POST");
  form_parses = r.form_parses;
  form = r.form;
}

-- The environment variables, "" where one is not set.
pub record Settings : Type 0 where
  pub admin_site : Text
  pub admin_user : Text
  pub admin_password : Text
  pub admin_port : Text
  pub use_kubernetes_secrets : Text
  pub watch_mode : Text
  pub config_path : Text
