-- ===== src/Process/ConnectLaws.antt =====
-- What `connectWithRetry` returns, and how many calls it makes.
use homelab_db_provisioner.Prelude.{
  ◌≡◌, refl, sym, subst, ◌∙◌, ap, ℕ, zero, suc, ◌+◌, ◌*◌, ◌≤◌, ◌<◌, none, List, ◌∷◌, Result, ok,
  err, arith, length, Text,
}
use native.Mathlib.Decide.{dec_lt}
use homelab_db_provisioner.World.{
  Env, Event, Err, Conn, Exec, pure, raise, continue, from_option, ◌>>=◌, try, call, sql_open,
  sql_ping,
}
use homelab_db_provisioner.World.Inversion.{
  bind_cases, try-ok, call-ok, pure-ok, Succeeds, bind-Succeeds, pure-Succeeds, try-Succeeds,
}
use homelab_db_provisioner.Process.Connect.{attempt, attempts, connect_with_retry}

ok_not_err :
    {a : Unit {0}} {e : Err} {t t₁ : List Event}
    → ◌≡◌ {A = Result Err (Unit {0}) × List Event} (ok a, t) (err e, t₁)
    → ⊥
ok_not_err h = cc

module _ (env : Env) (conn : Conn) where
  -- The two newest calls opened the connection and pinged the server, and neither failed.
  pub record Connected (t : List Event) : Type 0 where
    pub before : List Event
    pub trace : t ≡ sql_ping conn ∷ (sql_open conn ∷ before)
    pub opened : env.fails before (sql_open conn) ≡ none
    pub pinged : env.fails (sql_open conn ∷ before) (sql_ping conn) ≡ none

  attempt-Connected :
      (t t' : List Event) (u : Unit {0}) → attempt env conn t ≡ (ok u, t') → Connected t'
  unfolding attempt
  attempt-Connected t t' u h = bind_cases _ _ t t' u h λ a t₁ h₁ h₂.
      let (f, e) = call-ok env (sql_open conn) t t₁ a h₁ in
      let (f', e') = call-ok env (sql_ping conn) t₁ t' u h₂ in
      record {
        before = t;
        trace = e' ∙ ap (λ s. sql_ping conn ∷ s) e;
        opened = f;
        pinged = ap (λ s. env.fails s (sql_ping conn)) (sym e) ∙ f';
      }

  abbrev or_again : Text → ℕ → Result Err (Unit {0}) → Exec Err Conn
  or_again failure k r = elim r [ ok _ ↦ pure conn | err e ↦ attempts env conn failure k e ]

  after_attempt-Connected :
      (failure : Text) (k : ℕ)
      → ((e : Err) (t t' : List Event) (c : Conn)
          → attempts env conn failure k e t ≡ (ok c, t')
          → (c ≡ conn) × Connected t')
      → (r : Result Err (Unit {0})) (t t₁ t' : List Event) (c : Conn) → attempt env conn t ≡ (r, t₁)
      → or_again failure k r t₁ ≡ (ok c, t')
      → (c ≡ conn) × Connected t'
  after_attempt-Connected failure k rec (ok u) t t₁ t' c h₁ h₂ =
      let (e, e') = pure-ok conn c t₁ t' h₂ in
      (sym e, subst Connected e' (attempt-Connected t t₁ u h₁))
  after_attempt-Connected failure k rec (err e) t t₁ t' c h₁ h₂ = rec e t₁ t' c h₂

  attempts-Connected :
      (failure : Text) (k : ℕ) (e : Err) (t t' : List Event) (c : Conn)
      → attempts env conn failure k e t ≡ (ok c, t')
      → (c ≡ conn) × Connected t'
  unfolding attempts raise
  attempts-Connected failure zero e t t' c h = absurd (ground arith)
  attempts-Connected failure (suc k) e t t' c h = bind_cases _ _ t t' c h λ r t₁ h₁ h₂.
      after_attempt-Connected failure k (attempts-Connected failure k) r t t₁ t' c
        (try-ok _ t t₁ r h₁) h₂

  -- A connection that is returned is the one asked for, and the last two calls opened it and pinged
  -- the server without an error.
  pub connect_with_retry-Connected :
      (max_retries : ℕ) (t t' : List Event) (c : Conn)
      → connect_with_retry env conn max_retries t ≡ (ok c, t')
      → (c ≡ conn) × Connected t'
  unfolding connect_with_retry
  connect_with_retry-Connected k t t' c h = attempts-Connected _ k _ t t' c h

  length-ping :
      (r : Result Err (Unit {0})) (t : List Event)
      → length (continue r (λ _. call env (sql_ping conn)) t).1 ≤ length t + 1
  unfolding call
  length-ping (ok u) t = omega arith
  length-ping (err e) t = omega arith

  length-attempt : (t : List Event) → length (attempt env conn t).1 ≤ length t + 2
  unfolding attempt ◌>>=◌ call
  length-attempt t =
      omega (arith, length-ping (from_option (env.fails t (sql_open conn))) (sql_open conn ∷ t))

  length-or_again :
      (failure : Text) (k : ℕ)
      → ((e : Err) (t : List Event) → length (attempts env conn failure k e t).1 ≤ length t + 2 * k)
      → (r : Result Err (Unit {0})) (t : List Event)
      → length (or_again failure k r t).1 ≤ length t + 2 * k
  unfolding pure
  length-or_again failure k rec (ok u) t = omega arith
  length-or_again failure k rec (err e) t = rec e t

  length-attempts :
      (failure : Text) (k : ℕ) (e : Err) (t : List Event)
      → length (attempts env conn failure k e t).1 ≤ length t + 2 * k
  unfolding attempts ◌>>=◌ try raise
  length-attempts failure zero e t = omega arith
  length-attempts failure (suc k) e t = omega (
    arith,
    length-attempt t,
    length-or_again failure k (length-attempts failure k) (attempt env conn t).0
        (attempt env conn t).1,
  )

  -- However the calls end, at most two of them are made for each attempt that is allowed.
  pub length-connect_with_retry :
      (max_retries : ℕ) (t : List Event)
      → length (connect_with_retry env conn max_retries t).1 ≤ length t + 2 * max_retries
  unfolding connect_with_retry
  length-connect_with_retry k t = length-attempts _ k _ t

  -- The server accepts connections once so many calls have been made.
  abbrev pub UpAfter : ℕ → Type 0
  UpAfter n =
      (s : List Event)
      → n ≤ length s
      → (env.fails s (sql_open conn) ≡ none) × (env.fails s (sql_ping conn) ≡ none)

  attempt-up :
      (n : ℕ) (t : List Event)
      → UpAfter n
      → n ≤ length t
      → attempt env conn t ≡ (ok tt, sql_ping conn ∷ (sql_open conn ∷ t))
  unfolding attempt ◌>>=◌ call
  attempt-up n t up h =
      let (o, p) = up t h in let (o', p') = up (sql_open conn ∷ t) (omega arith) in rw (o, p') refl

  open-grows :
      (r : Result Err (Unit {0})) (t : List Event)
      → length t ≤ length (continue r (λ _. call env (sql_ping conn)) t).1
  unfolding call
  open-grows (ok u) t = omega arith
  open-grows (err e) t = omega arith

  attempt-grows : (t : List Event) → length t + 1 ≤ length (attempt env conn t).1
  unfolding attempt ◌>>=◌ call
  attempt-grows t =
      omega (arith, open-grows (from_option (env.fails t (sql_open conn))) (sql_open conn ∷ t))

  -- An attempt that failed was made before the server was up.
  failed-early :
      (n : ℕ) (t t₁ : List Event) (e : Err)
      → UpAfter n
      → attempt env conn t ≡ (err e, t₁)
      → (length t < n) × (length t + 1 ≤ length t₁)
  failed-early n t t₁ e up h = (
    elim (dec_lt (length t) n) [
      | yes p ↦ p
      | no p ↦ absurd (ok_not_err (sym (attempt-up n t up (omega arith)) ∙ h))
    ],
    subst (λ s. length t + 1 ≤ length s) (ap (λ (r : Result Err (Unit {0}) × List Event). r.1) h)
        (attempt-grows t),
  )

  attempts-Succeeds :
      (failure : Text) (n k : ℕ) (e : Err) (t : List Event)
      → UpAfter n
      → n < length t + k
      → 0 < k
      → Succeeds (attempts env conn failure k e) t
  unfolding attempts
  attempts-Succeeds failure n zero e t up h k = absurd (omega arith)
  attempts-Succeeds failure n (suc k) e t up h _ =
      bind-Succeeds _ _ t (try-Succeeds (attempt env conn) t) elim [
        | ok u ↦ λ t₁ p. pure-Succeeds conn t₁
        | err e' ↦ λ t₁ p.
            let (early, grown) = failed-early n t t₁ e' up (try-ok _ t t₁ (err e') p) in
            attempts-Succeeds failure n k e' t₁ up (omega arith) (omega arith)
      ]

  -- If the server accepts connections once `n` more calls have been made, and more than `n`
  -- attempts are allowed, a connection is returned.
  pub connect_with_retry-Succeeds :
      (n max_retries : ℕ) (t : List Event)
      → UpAfter (length t + n)
      → n < max_retries
      → Succeeds (connect_with_retry env conn max_retries) t
  unfolding connect_with_retry
  connect_with_retry-Succeeds n k t up h =
      attempts-Succeeds _ (length t + n) k _ t up (omega arith) (omega arith)
