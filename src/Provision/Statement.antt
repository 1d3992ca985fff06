-- ===== src/Provision/Statement.antt =====
-- The step that the provisioning functions share: a statement that a dry run only logs.
use homelab_db_provisioner.Prelude.{Bool, true, false, Text}
use homelab_db_provisioner.World.{Env, Err, Event, Conn, Exec, pure, wrap, on_err, call, sql_exec}

module _ (env : Env) where
  -- A call whose error is wrapped.
  unfoldable pub call_or : Text → Event → Exec Err (Unit {0})
  call_or label e = on_err (wrap label) (call env e)

  -- `if dryRun { log } else if _, err := db.ExecContext(...); err != nil { return err }`
  unfoldable pub execute : Bool → Conn → Text → Text → Exec Err (Unit {0})
  unfolding call_or
  execute true conn label sql = pure tt
  execute false conn label sql = call_or label (sql_exec conn sql)
