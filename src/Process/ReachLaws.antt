-- ===== src/Process/ReachLaws.antt =====
-- `connectWithRetry` where one of the attempts that are allowed succeeds.
use homelab_db_provisioner.Prelude.{
  ◌≡◌, subst, ap, ℕ, zero, suc, ◌<◌, List, Result, ok, err, arith, Text,
}
use homelab_db_provisioner.World.{Env, Event, Err, Conn}
use homelab_db_provisioner.World.Inversion.{
  try-ok, Succeeds, bind-Succeeds, pure-Succeeds, try-Succeeds,
}
use homelab_db_provisioner.Process.Connect.{attempt, attempts, connect_with_retry}

module _ (env : Env) (conn : Conn) where
  -- The calls behind so many attempts that follow one another.
  unfoldable pub after_attempts : ℕ → List Event → List Event
  after_attempts zero t = t
  after_attempts (suc i) t = after_attempts i (attempt env conn t).1

  -- After an attempt that failed, the successful one is still to come, and one attempt nearer.
  later :
      (i k : ℕ) (e : Err) (t t₁ : List Event)
      → i < suc k
      → (attempt env conn (after_attempts i t)).0 ≡ ok tt
      → attempt env conn t ≡ (err e, t₁)
      → (j : ℕ) × (j < k) × ((attempt env conn (after_attempts j t₁)).0 ≡ ok tt)
  unfolding after_attempts
  later zero k e t t₁ h p q = cc
  later (suc i) k e t t₁ h p q = (
    i,
    omega arith,
    subst (λ (s : List Event). (attempt env conn (after_attempts i s)).0 ≡ ok tt)
        (ap (λ (r : Result Err (Unit {0}) × List Event). r.1) q) p,
  )

  attempts-reach :
      (failure : Text) (i k : ℕ) (e : Err) (t : List Event)
      → i < k
      → (attempt env conn (after_attempts i t)).0 ≡ ok tt
      → Succeeds (attempts env conn failure k e) t
  unfolding attempts after_attempts
  attempts-reach failure i zero e t h p = absurd (omega arith)
  attempts-reach failure i (suc k) e t h p =
      bind-Succeeds _ _ t (try-Succeeds (attempt env conn) t) elim [
        | ok u ↦ λ t₁ q. pure-Succeeds conn t₁
        | err e' ↦ λ t₁ q.
            let (j, h', p') = later i k e' t t₁ h p (try-ok _ t t₁ (err e') q) in
            attempts-reach failure j k e' t₁ h' p'
      ]

  -- If one of the attempts that are allowed succeeds, a connection is returned.
  pub connect_with_retry-reaches :
      (i max_retries : ℕ) (t : List Event)
      → i < max_retries
      → (attempt env conn (after_attempts i t)).0 ≡ ok tt
      → Succeeds (connect_with_retry env conn max_retries) t
  unfolding connect_with_retry
  connect_with_retry-reaches i k t h p = attempts-reach _ i k _ t h p
