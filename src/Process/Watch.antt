-- ===== src/Process/Watch.antt =====
-- `runOnce` and `runWatchMode`. The endless loop is a function over the modification times that
-- `os.Stat` reports, `none` for an error; 0 is Go's zero time.
use homelab_db_provisioner.Prelude.{
  ℕ, Option, none, some, List, [], ◌∷◌, Text, Result, ok, err, ltb, if◌then◌else◌,
}
use homelab_db_provisioner.Config.{Config}
use homelab_db_provisioner.World.{Env, Err, Exec, pure, ◌>>=◌, ◌>>◌, on_err, try}
use homelab_db_provisioner.Process.Load.{load_config}
use homelab_db_provisioner.Process.Pass.{process_config}

module _ (env : Env) (manager : Option Text) where
  -- A config that cannot be loaded is fatal here.
  unfoldable pub run_once : Exec Err (Unit {0})
  run_once = do config ← load_config env; on_err absurd (process_config env manager config)

  process_loaded : Result Err Config → Exec ⊥ (Unit {0})
  process_loaded (err e) = pure tt
  process_loaded (ok config) = process_config env manager config

  -- The time is noted before the file is loaded.
  unfoldable pub watch_round : ℕ → Option ℕ → Exec ⊥ ℕ
  unfolding process_loaded
  watch_round last_mod_time none = pure last_mod_time
  watch_round last_mod_time (some current) =
      if ltb last_mod_time current
      then (do r ← try (load_config env); process_loaded r; pure current)
      else pure last_mod_time

  unfoldable pub watch : ℕ → List (Option ℕ) → Exec ⊥ ℕ
  watch last_mod_time [] = pure last_mod_time
  watch last_mod_time (stat ∷ stats) = do last ← watch_round last_mod_time stat; watch last stats
