-- ===== src/Process/Connect.antt =====
-- `connectWithRetry`. The waits between attempts are left out.
use homelab_db_provisioner.Prelude.{ℕ, zero, suc, ◌++◌, Text, txt, itoa, ok, err}
use homelab_db_provisioner.World.{
  Env, Err, Conn, Exec, pure, raise, ◌>>=◌, ◌>>◌, try, wrap, new_error, call, sql_open, sql_ping,
}

module _ (env : Env) (conn : Conn) where
  -- Opening and the ping of one attempt.
  unfoldable pub attempt : Exec Err (Unit {0})
  attempt = do call env (sql_open conn); call env (sql_ping conn)

  -- The text in front of the error, the attempts left, and the error of the last one made.
  unfoldable pub attempts : Text → ℕ → Err → Exec Err Conn
  attempts failure zero last = raise (wrap failure last)
  attempts failure (suc k) last = do
    r ← try attempt
    elim r [ ok _ ↦ pure conn | err e ↦ attempts failure k e ]

  unfoldable pub connect_with_retry : ℕ → Exec Err Conn
  unfolding attempts
  connect_with_retry max_retries =
      attempts (txt "failed to connect after " ++ (itoa max_retries ++ txt " attempts: "))
        max_retries (new_error (txt "%!w(<nil>)"))
