-- ===== src/Admin/OneRow.antt =====
-- What the common steps of the form handlers establish: the row that is edited is the one that the
-- form names, of a config that was read, and it is not stale.
use homelab_db_provisioner.Prelude.{
  ◌≡◌, refl, ℕ, Bool, true, false, some, List, Text, ℤ, pos, atoi, get_elem?, arith,
}
use homelab_db_provisioner.Config.{DatabaseConfig, DatabaseServer, Config}
use homelab_db_provisioner.World.{
  Env, Event, ConfigRead, unreadable, unparsable, parsed, Exec, config_read, config_write,
  random_below,
}
use homelab_db_provisioner.World.Runs.{
  Runs, Anything, Runs-pure, Runs-raise, Runs-from_some, Runs-if, Runs-bind, Runs-on_err, Runs-call,
  Runs-ask_config,
}
use homelab_db_provisioner.Http.{Request, form_value, Response}
use homelab_db_provisioner.Admin.Row.{
  Row, require, check_post, parse_index, server_index, db_index, stale_row, check_config,
  read_config, find_server, find_row, check_server, check_row, load_row, save, replace_row,
}

-- The row stands in its config at its indices.
pub record IsRow (r : Row) : Type 0 where
  pub server_found : get_elem? r.config.servers r.si ≡ some r.server
  pub db_found : get_elem? r.server.databases r.di ≡ some r.db

-- The row that the form names by its indices, of a config that was read. If the form names the
-- server or the database too, these are the row's.
pub record Loaded (env : Env) (req : Request) (r : Row) : Type 0 where
  pub is_row : IsRow r
  pub read : (t : List Event) × (env.config t ≡ parsed r.config)
  pub server_named : atoi (form_value req server_index) ≡ some (pos r.si)
  pub db_named : atoi (form_value req db_index) ≡ some (pos r.di)
  pub is_fresh : stale_row req r.server r.db ≡ false

-- Of the calls of a handler that edits one row, each write replaces that row's entry by one that
-- `edit` allows, and leaves the rest of the config as it was read.
abbrev pub RowWrite : Env → Request → (DatabaseConfig → DatabaseConfig → Type 0) → Event → Type 0
RowWrite env req edit (config_write c) =
    (r : Row) × (new : DatabaseConfig) × Loaded env req r × edit r.db new × (c ≡ replace_row r new)
RowWrite env req edit config_read = Unit
RowWrite env req edit (random_below n) = Unit
RowWrite env req edit _ = ⊥

pub find_server-some :
    (cfg : Config) (si : ℤ) (i : ℕ) (s : DatabaseServer)
    → find_server cfg si ≡ some (i, s)
    → (si ≡ pos i) × (get_elem? cfg.servers i ≡ some s)
unfolding find_server
find_server-some cfg (pos n) i s h = ground arith
find_server-some cfg (ℤ.negsuc n) i s h = ground arith

find_row-some :
    (server : DatabaseServer) (di : ℤ) (i : ℕ) (d : DatabaseConfig)
    → find_row server di ≡ some (i, d)
    → (di ≡ pos i) × (get_elem? server.databases i ≡ some d)
unfolding find_row
find_row-some server (pos n) i d h = ground arith
find_row-some server (ℤ.negsuc n) i d h = ground arith

module _ {P : Event → Type 0} where
  pub Runs-require :
      (b : Bool) (status : ℕ) (message : Text) → Runs P (λ _. b ≡ true) (require b status message)
  unfolding require
  Runs-require true status message = Runs-pure tt refl
  Runs-require false status message = Runs-raise _

  pub Runs-check_post : (req : Request) → Runs P Anything (check_post req)
  unfolding check_post
  Runs-check_post req =
      Runs-bind _ _ (Runs-require _ _ _) λ _ _. Runs-bind' (Runs-require req.form_parses 400 _)
    where
      Runs-bind' :
          {b : Bool} {m : Exec Response (Unit {0})} → Runs P (λ _. b ≡ true) m → Runs P Anything m
      Runs-bind' k = record { calls = k.calls; result = λ t a h. tt }

  pub Runs-parse_index :
      (req : Request) (key : Text)
      → Runs P (λ n. atoi (form_value req key) ≡ some n) (parse_index req key)
  unfolding parse_index
  Runs-parse_index req key = Runs-from_some _ _ (λ n e. e)

  module _ (env : Env) (read_ok : P config_read) where
    check_config-Runs :
        (r : ConfigRead)
        → (t : List Event) × (env.config t ≡ r)
        → Runs P (λ cfg. (t : List Event) × (env.config t ≡ parsed cfg)) (check_config r)
    unfolding check_config
    check_config-Runs (unreadable e) h = Runs-raise _
    check_config-Runs (unparsable e) h = Runs-raise _
    check_config-Runs (parsed cfg) h = Runs-pure cfg h

    pub Runs-read_config :
        Runs P (λ cfg. (t : List Event) × (env.config t ≡ parsed cfg)) (read_config env)
    unfolding read_config
    Runs-read_config = Runs-bind _ _ (Runs-ask_config env read_ok) check_config-Runs

    pub Runs-check_server :
        (cfg : Config) (si : ℤ)
        → Runs P (λ (i, s). (si ≡ pos i) × (get_elem? cfg.servers i ≡ some s)) (check_server cfg si)
    unfolding check_server
    Runs-check_server cfg si = Runs-from_some _ _ (λ (i, s) e. find_server-some cfg si i s e)

    Runs-check_row :
        (server : DatabaseServer) (di : ℤ)
        → Runs P
            (λ (i, d). (di ≡ pos i) × (get_elem? server.databases i ≡ some d))
            (check_row server di)
    unfolding check_row
    Runs-check_row server di = Runs-from_some _ _ (λ (i, d) e. find_row-some server di i d e)

    pub Runs-load_row :
        (req : Request) (si di : ℤ)
        → atoi (form_value req server_index) ≡ some si
        → atoi (form_value req db_index) ≡ some di
        → Runs P (Loaded env req) (load_row env req si di)
    unfolding load_row
    Runs-load_row req si di hs hd = Runs-bind _ _ Runs-read_config λ cfg read.
        Runs-bind _ _ (Runs-check_server cfg si) λ p found.
          Runs-bind _ _ (Runs-check_row p.1 di) λ q found'.
            Runs-if _ _ _ (λ _. Runs-raise _)
              λ fresh. Runs-pure _ (record {
                is_row = record { server_found = found.1; db_found = found'.1 };
                read = read;
                server_named = rw (← found.0) hs;
                db_named = rw (← found'.0) hd;
                is_fresh = fresh;
              })

pub Runs-save :
    {P : Event → Type 0} (env : Env) (cfg : Config)
    → P (config_write cfg)
    → Runs P Anything (save env cfg)
unfolding save
Runs-save env cfg h = Runs-on_err _ _ (Runs-call env _ h)
