-- ===== src/Api/CreateLaws.antt =====
-- What the API's creation of a database does to the names of Secrets.
use homelab_db_provisioner.Prelude.{
  ◌≡◌, refl, ◌⊎◌, inl, inr, ◌||◌, true, Option, none, some, List, Text, is_empty, Bool-cases,
  get_elem?, ℤ,
}
use homelab_db_provisioner.Config.{Config}
use homelab_db_provisioner.World.{Env, Event, ConfigRead, parsed, unreadable, unparsable}
use homelab_db_provisioner.World.Keeps.{Only}
use homelab_db_provisioner.World.Runs.{
  Runs, Anything, Runs-pure, Runs-raise, Runs-lift, Runs-from_some, Runs-bind, Runs-on_err,
  Runs-call, Runs-ask_config, Runs-Only, Only-Runs,
}
use homelab_db_provisioner.Secrets.Names.{find_claim_in}
use homelab_db_provisioner.Secrets.Password.{generate_password}
use homelab_db_provisioner.Secrets.PasswordLaws.{random_chars-Only}
use homelab_db_provisioner.Secrets.UniqueLaws.{UniqueNames, claim_secret_name-none}
use homelab_db_provisioner.Admin.AddLaws.{WritesUnique, ReadsUnique, append_database-UniqueNames}
use homelab_db_provisioner.Admin.OneRow.{find_server-some}
use homelab_db_provisioner.Api.Common.{
  server_path_index, path_index, decode_body, check_loaded, load_config_file, save_config_file,
  server_at,
}
use homelab_db_provisioner.Api.Databases
use homelab_db_provisioner.Api.Databases.{CreateDatabaseRequest}

module _ (env : Env) where
  check_loaded-Runs :
      (r : ConfigRead)
      → (t : List Event) × (env.config t ≡ r)
      → Runs WritesUnique (λ cfg. (t : List Event) × (env.config t ≡ parsed cfg)) (check_loaded r)
  unfolding check_loaded
  check_loaded-Runs (unreadable e) h = Runs-raise _
  check_loaded-Runs (unparsable e) h = Runs-raise _
  check_loaded-Runs (parsed cfg) h = Runs-pure cfg h

  load-Runs :
      Runs WritesUnique
        (λ cfg. (t : List Event) × (env.config t ≡ parsed cfg))
        (load_config_file env)
  unfolding load_config_file
  load-Runs = Runs-bind _ _ (Runs-ask_config env tt) check_loaded-Runs

  save-Runs : (c : Config) → UniqueNames c → Runs WritesUnique Anything (save_config_file env c)
  unfolding save_config_file
  save-Runs c u = Runs-on_err _ _ (Runs-call env _ u)

  server_at-Runs :
      (cfg : Config) (si : ℤ)
      → Runs WritesUnique (λ (i, s). get_elem? cfg.servers i ≡ some s) (server_at cfg si)
  unfolding server_at
  server_at-Runs cfg si = Runs-from_some _ _ (λ (i, s) e. (find_server-some cfg si i s e).1)

  server_path_index-Runs : (p : Text) → Runs WritesUnique Anything (server_path_index p)
  unfolding server_path_index path_index
  server_path_index-Runs p = Runs-from_some _ _ (λ _ _. tt)

  decode_body-Runs : {A : Type 0} (b : Option A) → Runs WritesUnique Anything (decode_body b)
  unfolding decode_body
  decode_body-Runs b = Runs-from_some _ _ (λ _ _. tt)

  choose_password-Runs :
      (manager m : Option Text) (password : Text)
      → Runs WritesUnique Anything (Databases.choose_password env manager m password)
  unfolding Databases.choose_password generate_password
  choose_password-Runs manager (some namespace) password = elim (Bool-cases (is_empty password)) [
    | inl q ↦ rw q (Runs-pure _ tt)
    | inr q ↦ rw q (Runs-raise _)
  ]
  choose_password-Runs manager none password = elim (Bool-cases (is_empty password)) [
    | inl q ↦ rw q (
        Runs-bind {Q = Anything} _ _
          (Runs-on_err _ _ (Runs-Only _ (random_chars-Only env (λ n. tt) 20)))
          λ _ _. Runs-pure _ tt)
    | inr q ↦ rw q (Runs-pure _ tt)
  ]

  claim_for-Runs :
      (manager m : Option Text) (cfg : Config) (req : CreateDatabaseRequest)
      → Runs WritesUnique
          (λ n. (is_empty n ≡ true) ⊎ (find_claim_in n cfg.servers ≡ none))
          (Databases.claim_for env manager m cfg req)
  unfolding Databases.claim_for is_empty
  claim_for-Runs manager none cfg req = Runs-pure _ (inl refl)
  claim_for-Runs manager (some namespace) cfg req =
      Runs-on_err _ _ (Runs-lift _ (λ n h. inr (claim_secret_name-none env cfg _ req.database n h)))

  module _ (manager : Option Text) (path_si : Text) (body : Option CreateDatabaseRequest) where
    -- If the names of Secrets are unique in each config that is read, so they are in each config
    -- that the API's creation of a database writes.
    pub handle_api_create_database-WritesUnique :
        ReadsUnique env
        → Only WritesUnique (Databases.handle_api_create_database env manager path_si body)
    unfolding Databases.handle_api_create_database
    handle_api_create_database-WritesUnique unique = Only-Runs {Q = Anything} _ (
        Runs-bind _ _ (server_path_index-Runs path_si) λ si _.
          Runs-bind _ _ (decode_body-Runs body) λ req _.
            elim (Bool-cases (is_empty req.database || is_empty req.user)) [
              | inl q ↦ rw q (Runs-raise _)
              | inr q ↦ rw q (
                  Runs-bind _ _ (choose_password-Runs manager manager req.password) λ pw _.
                    Runs-bind _ _ load-Runs λ cfg (t, read).
                      Runs-bind _ _ (server_at-Runs cfg si) λ p found.
                        Runs-bind _ _ (claim_for-Runs manager manager cfg req) λ name free.
                          Runs-bind _ _
                            (save-Runs _ (
                              append_database-UniqueNames cfg p.0 p.1 _ (unique t cfg read) found
                                free))
                            λ _ _. Runs-pure _ tt)
            ])
