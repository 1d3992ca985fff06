-- ===== src/Tests/Admin.antt =====
-- Runs of the theorems on the handlers of the admin site and of the API.
use homelab_db_provisioner.Prelude.{◌≡◌, false, none, some, [], ◌∷◌, txt}
use homelab_db_provisioner.World.Keeps.{Only}
use homelab_db_provisioner.Http.{Request, form_value}
use homelab_db_provisioner.Admin.OneRow.{RowWrite}
use homelab_db_provisioner.Admin.Edit
use homelab_db_provisioner.Admin.EditLaws.{
  MigrationEdit, handle_update_password-row, handle_reveal_password-row,
  handle_migrate_database-row,
}
use homelab_db_provisioner.Prelude.{is_empty}
use homelab_db_provisioner.Api.Servers
use homelab_db_provisioner.Api.ResponseLaws.{hiding, handle_api_list_servers-hide}
use homelab_db_provisioner.Admin.Add
use homelab_db_provisioner.Admin.AddLaws.{WritesUnique, handle_add_database-WritesUnique}
use homelab_db_provisioner.Api.Databases
use homelab_db_provisioner.Api.Databases.{CreateDatabaseRequest}
use homelab_db_provisioner.Api.CreateLaws.{handle_api_create_database-WritesUnique}
use homelab_db_provisioner.Tests.{calm, form, calm-ReadsUnique}

handle_update_password-row_example :
    Only
      (RowWrite calm form (λ old new.
        (new ≡ record old { password = form_value form (txt "new_password") })
        × (is_empty new.password ≡ false)))
      (Edit.handle_update_password calm form)
handle_update_password-row_example = handle_update_password-row calm form

handle_reveal_password-row_example :
    Only (RowWrite calm form (λ old new. ⊥)) (Edit.handle_reveal_password calm form)
handle_reveal_password-row_example = handle_reveal_password-row calm form

handle_migrate_database-row_example :
    Only (RowWrite calm form (MigrationEdit form)) (Edit.handle_migrate_database calm form)
handle_migrate_database-row_example = handle_migrate_database-row calm form

-- A form that adds a second database to the first server.
abbrev add_form : Request
add_form = record form {
  form =
      (txt "server_index", txt "0")
      ∷ ((txt "database", txt "app2") ∷ ((txt "user", txt "app2") ∷ []));
}

handle_add_database-WritesUnique_example :
    Only WritesUnique (Add.handle_add_database calm (some (txt "default")) add_form)
handle_add_database-WritesUnique_example =
    handle_add_database-WritesUnique calm (some (txt "default")) add_form calm-ReadsUnique

abbrev body : CreateDatabaseRequest
body = record {
  database = txt "app2";
  user = txt "app2";
  password = [];
  permissions = [];
  extensions = [];
  backup = none;
  secret_name = txt "app2-credentials";
}

handle_api_create_database-WritesUnique_example :
    Only WritesUnique
      (Databases.handle_api_create_database calm (some (txt "default")) (txt "0") (some body))
handle_api_create_database-WritesUnique_example =
    handle_api_create_database-WritesUnique calm (some (txt "default")) (txt "0") (some body)
      calm-ReadsUnique

handle_api_list_servers-hide_example :
    Servers.handle_api_list_servers (hiding calm) [] ≡ Servers.handle_api_list_servers calm []
handle_api_list_servers-hide_example = handle_api_list_servers-hide calm []
