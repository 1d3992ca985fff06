-- ===== src/Tests/Secrets.antt =====
-- Runs of the theorems on Secrets, passwords and slugs.
use homelab_db_provisioner.Prelude.{
  ◌≡◌, refl, zero, suc, none, [], ◌∷◌, Text, txt, text_eq, ok, arith,
}
use homelab_db_provisioner.World.{
  Env, Event, Err, Driver, Conn, Secret, ConfigRead, parsed, new_error, random_below, secret_get,
}
use homelab_db_provisioner.World
use homelab_db_provisioner.World.Reads.{IsRead}
use homelab_db_provisioner.World.Runs.{Runs}
use homelab_db_provisioner.Prelude.Dict.{get_or}
use homelab_db_provisioner.World.{config_read, config_write}
use homelab_db_provisioner.Prelude.{is_empty}
use homelab_db_provisioner.Secrets.Manager
use homelab_db_provisioner.World.{sql_open, sql_ping}
use homelab_db_provisioner.Slug.{slugify}
use homelab_db_provisioner.Slug.Laws.{IsSlug, slugify-IsSlug}
use homelab_db_provisioner.Secrets.SeedLaws.{
  Rotated, Created, rotate_secret-writes, reconcile_password-creates,
}
use homelab_db_provisioner.Secrets.Password.{generate_password}
use homelab_db_provisioner.Secrets.Laws.{
  KeepsPassword, reconcile_password-keeps, unmanaged_untouched,
}
use homelab_db_provisioner.Secrets.PasswordLaws.{
  RandomInRange, IsRandom, IsOfSize, generate_password-IsOfSize,
}
use homelab_db_provisioner.Tests.{app, stored_secret, world_with, calm}

abbrev foreign_secret : Secret
foreign_secret = record stored_secret { labels = [] }

least-RandomInRange : RandomInRange calm
least-RandomInRange t zero n h = cc
least-RandomInRange t (suc k) n h = ground arith

reconcile_password-keeps_example :
    Runs
      (KeepsPassword (txt "secret"))
      (λ p. p ≡ txt "secret")
      (Manager.reconcile_password calm (txt "default") (txt "postgres://db") app)
unfolding Manager.password_key txt get_or text_eq
reconcile_password-keeps_example =
    reconcile_password-keeps calm (txt "default") (txt "postgres://db") app stored_secret
      (λ t. refl)

unmanaged_untouched_example :
    Runs IsRead
      (λ p. ⊥)
      (Manager.reconcile_password
        (world_with foreign_secret)
        (txt "default")
        (txt "postgres://db")
        app)
    × Runs IsRead
        (λ p. ⊥)
        (Manager.rotate_secret
          (world_with foreign_secret)
          (txt "default")
          (txt "postgres://db")
          app)
unfolding Manager.is_managed text_eq get_or Manager.managed_by_value txt
unmanaged_untouched_example =
    unmanaged_untouched (world_with foreign_secret) (txt "default") (txt "postgres://db") app
      foreign_secret (λ t. refl) refl

generate_password-IsOfSize_example : Runs IsRandom (IsOfSize 20) (generate_password calm)
generate_password-IsOfSize_example = generate_password-IsOfSize calm least-RandomInRange

abbrev twenty : Text
twenty = txt "aaaaaaaaaaaaaaaaaaaa"

rotate_secret-writes_example :
    Rotated calm
      (txt "default")
      (txt "postgres://db")
      app
      twenty
      []
      (Manager.rotate_secret calm (txt "default") (txt "postgres://db") app []).1
unfolding Manager.rotate_secret is_empty txt World.◌>>=◌ World.on_err generate_password
    World.ask_number homelab_db_provisioner.Secrets.Password.charset Manager.secret_data
    Manager.managed_secret World.ask_secret Manager.check_managed Manager.is_managed text_eq get_or
    Manager.managed_by_label Manager.managed_by_value Manager.write_rotated World.call
rotate_secret-writes_example =
    rotate_secret-writes calm (txt "default") (txt "postgres://db") app []
      (Manager.rotate_secret calm (txt "default") (txt "postgres://db") app []).1 twenty refl

-- No Secret exists.
abbrev bare : Env
bare = record calm { secrets = λ t e. ok none }

reconcile_password-creates_example :
    Created bare
      (txt "default")
      (txt "postgres://db")
      app
      (txt "it's")
      (World.secret_get (txt "default") app.k8s_secret ∷ [])
      (Manager.reconcile_password bare (txt "default") (txt "postgres://db") app []).1
unfolding Manager.reconcile_password World.◌>>=◌ Manager.managed_secret World.on_err
    World.ask_secret Manager.check_managed Manager.from_found Manager.seed_secret
    Manager.seed_password is_empty txt Manager.secret_data Manager.create_secret World.call
reconcile_password-creates_example =
    reconcile_password-creates bare (txt "default") (txt "postgres://db") app []
      (Manager.reconcile_password bare (txt "default") (txt "postgres://db") app []).1 (txt "it's")
      refl refl

slugify-IsSlug_example : IsSlug (slugify calm.to_lower (txt "my  server!"))
slugify-IsSlug_example = slugify-IsSlug calm.to_lower (txt "my  server!")
