-- ===== src/Admin/AddLaws.antt =====
-- What adding a database does to the names of Secrets.
use homelab_db_provisioner.Prelude.{
  ◌≡◌, refl, inl, inr, ℕ, true, Option, none, some, List, Text, txt, is_empty, get_elem?,
  Bool-cases, any, trim_space,
}
use homelab_db_provisioner.Config.{DatabaseConfig, DatabaseServer, Config}
use homelab_db_provisioner.World.{
  Env, Event, Err, parsed, on_err, config_read, config_write, random_below,
}
use homelab_db_provisioner.World.Keeps.{Only}
use homelab_db_provisioner.World.Runs.{
  Runs, Anything, Runs-pure, Runs-raise, Runs-lift, Runs-bind, Runs-on_err, Runs-Only, Only-Runs,
}
use homelab_db_provisioner.Http.{Request, form_value, Response}
use homelab_db_provisioner.Secrets.Password.{generate_password}
use homelab_db_provisioner.Secrets.PasswordLaws.{random_chars-Only}
use homelab_db_provisioner.Secrets.UniqueLaws.{
  UniqueNames, Free, claim_secret_name-none, append-UniqueNames,
}
use homelab_db_provisioner.Admin.Row.{server_index}
use homelab_db_provisioner.Admin.OneRow.{
  Runs-require, Runs-check_post, Runs-parse_index, Runs-read_config, Runs-check_server, Runs-save,
}
use homelab_db_provisioner.Admin.Add
use homelab_db_provisioner.Admin.Add.{append_database}

-- Each config that is written has unique names; nothing else is called but random numbers and the
-- read of the config.
abbrev pub WritesUnique : Event → Type 0
WritesUnique (config_write c) = UniqueNames c
WritesUnique config_read = Unit
WritesUnique (random_below n) = Unit
WritesUnique _ = ⊥

-- Each config that is read has unique names.
abbrev pub ReadsUnique : Env → Type 0
ReadsUnique env = (t : List Event) (cfg : Config) → env.config t ≡ parsed cfg → UniqueNames cfg

pub append_database-UniqueNames :
    (cfg : Config) (i : ℕ) (server : DatabaseServer) (db : DatabaseConfig)
    → UniqueNames cfg
    → get_elem? cfg.servers i ≡ some server
    → Free cfg db
    → UniqueNames (append_database cfg i server db)
unfolding append_database
append_database-UniqueNames cfg i server db u found free =
    append-UniqueNames cfg i server _ db u found refl free

module _ (env : Env) (manager : Option Text) (req : Request) where
  password-Runs :
      (f : Err → Response) → Runs WritesUnique Anything (on_err f (generate_password env))
  unfolding generate_password
  password-Runs f = Runs-on_err _ _ (Runs-Only _ (random_chars-Only env (λ n. tt) 20))

  with_credentials-Runs :
      (m : Option Text) (cfg : Config) (db : DatabaseConfig)
      → is_empty db.k8s_secret ≡ true
      → Runs WritesUnique (Free cfg) (Add.with_credentials env manager req m cfg db)
  unfolding Add.with_credentials
  with_credentials-Runs (some namespace) cfg db e =
      Runs-bind _ _ (Runs-on_err _ _ (Runs-lift _ (claim_secret_name-none env cfg _ db.database)))
        λ name free. Runs-pure _ (inr free)
  with_credentials-Runs none cfg db e = elim (Bool-cases (is_empty db.password)) [
    | inl q ↦ rw q (Runs-bind _ _ (password-Runs _) λ p _. Runs-pure _ (inl e))
    | inr q ↦ rw q (Runs-pure _ (inl e))
  ]

  -- If the names of Secrets are unique in each config that is read, so they are in each config that
  -- "add database" writes: a name that a live entry has is not given to the new one.
  pub handle_add_database-WritesUnique :
      ReadsUnique env → Only WritesUnique (Add.handle_add_database env manager req)
  unfolding Add.handle_add_database Add.form_database is_empty
  handle_add_database-WritesUnique unique = Only-Runs {Q = Anything} _ (
      Runs-bind _ _ (Runs-check_post req) λ _ _.
        Runs-bind _ _ (Runs-parse_index req server_index) λ si _.
          Runs-bind _ _ (Runs-require _ _ _) λ _ _.
            Runs-bind _ _ (Runs-read_config env tt) λ cfg (t, read).
              Runs-bind _ _ (Runs-check_server env tt cfg si) λ p found.
                elim (Bool-cases (
                  any (Add.has_database (trim_space (form_value req (txt "database"))))
                    p.1.databases)) [
                      | inl q ↦ rw q (Runs-raise _)
                      | inr q ↦ rw q (
                          Runs-bind _ _ (with_credentials-Runs manager cfg _ refl) λ db free.
                            Runs-bind _ _
                              (Runs-save env _ (
                                append_database-UniqueNames cfg p.0 p.1 _ (unique t cfg read)
                                  found.1 free))
                              λ _ _. Runs-pure {Q = Anything} _ tt)
                    ])
