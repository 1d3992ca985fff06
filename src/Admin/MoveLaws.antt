-- ===== src/Admin/MoveLaws.antt =====
-- What moving a password into a Secret does to the names of Secrets.
use homelab_db_provisioner.Prelude.{
  ◌≡◌, subst, inl, inr, ℕ, zero, suc, ◌+◌, Option, none, some, List, [], ◌∷◌, Text, is_empty,
  get_elem?, set, Bool-cases, not, arith,
}
use homelab_db_provisioner.Config.{DatabaseConfig}
use homelab_db_provisioner.World.{
  Env, Event, Secret, config_read, config_write, random_below, secret_get, secret_create,
  secret_update,
}
use homelab_db_provisioner.World.Keeps.{Only, Only-pure, only_rules}
use homelab_db_provisioner.World.Runs.{
  Runs, Anything, Runs-pure, Runs-raise, Runs-lift, Runs-bind, Runs-on_err, Runs-Only, Only-Runs,
}
use homelab_db_provisioner.Http.{Request}
use homelab_db_provisioner.Secrets.Manager
use homelab_db_provisioner.Secrets.Password.{generate_password}
use homelab_db_provisioner.Secrets.PasswordLaws.{random_chars-Only}
use homelab_db_provisioner.Secrets.UniqueLaws.{
  UniqueNames, claim, claims, claim-cases, claims_in-set, find_claim_in-none,
  claim_secret_name-none,
}
use homelab_db_provisioner.Secrets.Names.{find_claim_in}
use homelab_db_provisioner.Migrate.Target.{set_database}
use homelab_db_provisioner.Admin.Row.{Row, server_index, db_index, replace_row}
use homelab_db_provisioner.Admin.OneRow.{
  Loaded, Runs-require, Runs-parse_index, Runs-load_row, Runs-save,
}
use homelab_db_provisioner.Admin.AddLaws.{ReadsUnique}
use homelab_db_provisioner.Admin.SecretEdit

-- Each config that is written has unique names; nothing else is called but reads, random numbers and
-- the writing of Secrets.
abbrev pub MovesUnique : Event → Type 0
MovesUnique (config_write c) = UniqueNames c
MovesUnique config_read = Unit
MovesUnique (random_below n) = Unit
MovesUnique (secret_get namespace name) = Unit
MovesUnique (secret_create s) = Unit
MovesUnique (secret_update s) = Unit
MovesUnique _ = ⊥

claims-set :
    (name : Text) (ds : List DatabaseConfig) (j : ℕ) (d d' : DatabaseConfig)
    → get_elem? ds j ≡ some d
    → claims name (set ds j d') + claim name d ≡ claims name ds + claim name d'
unfolding claims
claims-set name [] j d d' h = cc
claims-set name (x ∷ ds) zero d d' h = ground arith
claims-set name (x ∷ ds) (suc j) d d' h = omega (arith, claims-set name ds j d d' h)

module _ (r : Row) (new : DatabaseConfig) where
  -- The names stay unique if an entry takes a name that none has.
  replace-UniqueNames :
      UniqueNames r.config
      → get_elem? r.config.servers r.si ≡ some r.server
      → get_elem? r.server.databases r.di ≡ some r.db
      → find_claim_in new.k8s_secret r.config.servers ≡ none
      → UniqueNames (replace_row r new)
  unfolding replace_row set_database
  replace-UniqueNames u at_server at_db free name given =
      let servers =
        claims_in-set name r.config.servers r.si r.server
          (record r.server { databases = set r.server.databases r.di new }) at_server in
      let rows = claims-set name r.server.databases r.di r.db new at_db in
      elim (claim-cases name new) [
        | inl z ↦ omega (arith, servers, rows, z, u name given)
        | inr (o, n) ↦ omega (
          arith,
          servers,
          rows,
          o,
          find_claim_in-none name r.config.servers
              (subst (λ k. find_claim_in k r.config.servers ≡ none) n free),
        )
      ]

ruleset move_rules = (only_rules, tt)

module _ (env : Env) (namespace : Text) where
  check_managed-Only :
      (name : Text) (s : Option Secret)
      → Only MovesUnique (Manager.check_managed env namespace name s)
  unfolding Manager.check_managed
  check_managed-Only name none = Only-pure none
  check_managed-Only name (some s) = search move_rules

  managed_secret-Only : (name : Text) → Only MovesUnique (Manager.managed_secret env namespace name)
  unfolding Manager.managed_secret
  managed_secret-Only name = search (move_rules, check_managed-Only)

  add_connect_string-Only :
      (root : Text) (db : DatabaseConfig) (s : Secret) (password : Text)
      → Only MovesUnique (Manager.add_connect_string env namespace root db s password)
  unfolding Manager.add_connect_string
  add_connect_string-Only root db s password = search move_rules depth 12

  from_secret-Only :
      (root : Text) (db : DatabaseConfig) (s : Secret)
      → Only MovesUnique (Manager.from_secret env namespace root db s)
  unfolding Manager.from_secret
  from_secret-Only root db s = search (move_rules, add_connect_string-Only)

  generate-Only : Only MovesUnique (generate_password env)
  unfolding generate_password
  generate-Only = random_chars-Only env (λ n. tt) 20

  seed_password-Only :
      (password : Text) → Only MovesUnique (Manager.seed_password env namespace password)
  unfolding Manager.seed_password
  seed_password-Only password = search (move_rules, generate-Only)

  create_secret-Only :
      (name : Text) (entries : List (Text × Text))
      → Only MovesUnique (Manager.create_secret env namespace name entries)
  unfolding Manager.create_secret
  create_secret-Only name entries = search move_rules

  seed_secret-Only :
      (root : Text) (db : DatabaseConfig)
      → Only MovesUnique (Manager.seed_secret env namespace root db)
  unfolding Manager.seed_secret
  seed_secret-Only root db = search (move_rules, seed_password-Only, create_secret-Only) depth 12

  from_found-Only :
      (root : Text) (db : DatabaseConfig) (s : Option Secret)
      → Only MovesUnique (Manager.from_found env namespace root db s)
  unfolding Manager.from_found
  from_found-Only root db none = seed_secret-Only root db
  from_found-Only root db (some s) = from_secret-Only root db s

  reconcile_password-Only :
      (root : Text) (db : DatabaseConfig)
      → Only MovesUnique (Manager.reconcile_password env namespace root db)
  unfolding Manager.reconcile_password
  reconcile_password-Only root db = search (move_rules, managed_secret-Only, from_found-Only)

module _ (env : Env) (manager : Option Text) (req : Request) where
  move_row-Runs :
      (namespace : Text) (row : Row) (name : Text)
      → ReadsUnique env
      → Loaded env req row
      → find_claim_in name row.config.servers ≡ none
      → Runs MovesUnique Anything (SecretEdit.move_row env manager req namespace row name)
  unfolding SecretEdit.move_row
  move_row-Runs namespace row name unique loaded free =
      Runs-bind _ _ (Runs-on_err _ _ (Runs-Only _ (reconcile_password-Only env namespace _ _)))
        λ live _.
          Runs-bind _ _
            (Runs-save env _ (
              replace-UniqueNames row _ (unique loaded.read.0 row.config loaded.read.1)
                loaded.is_row.server_found loaded.is_row.db_found free))
            λ _ _. Runs-pure {Q = Anything} _ tt

  manager-Runs : (m : Option Text) → Runs MovesUnique Anything (SecretEdit.require_manager m)
  unfolding SecretEdit.require_manager
  manager-Runs none = Runs-raise _
  manager-Runs (some namespace) = Runs-pure namespace tt

  check-Runs : Runs MovesUnique Anything (SecretEdit.check_secret_post env manager req)
  unfolding SecretEdit.check_secret_post
  check-Runs = Runs-bind _ _ (Runs-require _ _ _) λ _ _.
      Runs-bind _ _ (manager-Runs manager)
        λ namespace _. Runs-bind _ _ (Runs-require _ _ _) λ _ _. Runs-pure namespace tt

  -- If the names of Secrets are unique in each config that is read, so they are in each config that
  -- "move to Secret" writes: a name that a live entry has is not taken by another one.
  pub handle_move_to_secret-Unique :
      ReadsUnique env → Only MovesUnique (SecretEdit.handle_move_to_secret env manager req)
  unfolding SecretEdit.handle_move_to_secret
  handle_move_to_secret-Unique unique = Only-Runs {Q = Anything} _ (
      Runs-bind _ _ check-Runs λ namespace _.
        Runs-bind _ _ (Runs-parse_index req server_index) λ si hs.
          Runs-bind _ _ (Runs-parse_index req db_index) λ di hd.
            Runs-bind _ _ (Runs-load_row env tt req si di hs hd) λ row loaded.
              elim (Bool-cases (not (is_empty row.db.k8s_secret))) [
                | inl q ↦ rw q (Runs-raise _)
                | inr q ↦ rw q (
                    Runs-bind _ _
                      (Runs-on_err _ _
                        (Runs-lift _ (claim_secret_name-none env row.config _ row.db.database)))
                      λ name free. move_row-Runs namespace row name unique loaded free)
              ])
