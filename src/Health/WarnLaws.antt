-- ===== src/Health/WarnLaws.antt =====
-- When a server's status warns, and when it has no item at all.
use homelab_db_provisioner.Prelude.{
  ◌≡◌, refl, sym, ap, ℕ, Bool, true, false, not, ◌||◌, ◌&&◌, Option, List, [], ◌∷◌, Text, ltb, any,
  ok, arith, ◌==◌, ◌++◌, txt, itoa,
}
use homelab_db_provisioner.Prelude.{ℤ}
use homelab_db_provisioner.Config.{DatabaseConfig, DatabaseServer}
use homelab_db_provisioner.World.{Env, Event}
use homelab_db_provisioner.World.Inversion.{bind_cases, pure-ok}
use homelab_db_provisioner.Health.{
  BackupState, off, missing, fresh, overdue, MigrationState, unplanned, failed, migration_state,
  DbHealth, Counters, no_counts, count_migration, count_backup, ServerHealth, note, note_all,
  databases_health, server_health,
}

-- A backup that needs attention.
abbrev pub is_alarming : BackupState → Bool
is_alarming overdue = true
is_alarming missing = true
is_alarming _ = false

abbrev pub is_failed : MigrationState → Bool
is_failed failed = true
is_failed _ = false

abbrev pub is_planned : MigrationState → Bool
is_planned unplanned = false
is_planned _ = true

abbrev pub alarms : DbHealth → Bool
alarms h = is_alarming h.backup

abbrev pub has_failed_migration : DatabaseConfig → Bool
has_failed_migration db = is_failed (migration_state db.migrate)

abbrev pub has_migration : DatabaseConfig → Bool
has_migration db = is_planned (migration_state db.migrate)

-- Some counter that warns is not 0, and some counter at all.
pub warned : Counters → Bool
warned c = ltb 0 c.failed_count || (ltb 0 c.overdue_count || ltb 0 c.none_count)

pub noticed : Counters → Bool
unfolding warned
noticed c = warned c || (ltb 0 c.pending_count || ltb 0 c.migrated_count)

warned-count :
    (b : BackupState) (m : MigrationState) (c : Counters)
    → warned (count_backup b (count_migration m c)) ≡ (warned c || (is_failed m || is_alarming b))
unfolding warned count_backup count_migration
warned-count overdue m c = ground arith
warned-count missing m c = ground arith
warned-count off m c = ground arith
warned-count fresh m c = ground arith

noticed-count :
    (b : BackupState) (m : MigrationState) (c : Counters)
    → noticed (count_backup b (count_migration m c))
      ≡ (noticed c || (is_planned m || is_alarming b))
unfolding noticed warned count_backup count_migration
noticed-count overdue m c = ground arith
noticed-count missing m c = ground arith
noticed-count off m c = ground arith
noticed-count fresh m c = ground arith

module _ (env : Env) (days_since : Text → Option ℤ) (w : Counters → Bool)
    (p : MigrationState → Bool)
    (step : (b : BackupState) (m : MigrationState) (c : Counters)
      → w (count_backup b (count_migration m c)) ≡ (w c || (p m || is_alarming b))) where
  -- What a counter that a database's state sets has seen after the loop.
  databases_health-seen :
      (server : Text) (dbs : List DatabaseConfig) (c c' : Counters) (hs : List DbHealth)
      (t t' : List Event)
      → databases_health env days_since server dbs c t ≡ (ok (hs, c'), t')
      → w c' ≡ (
          w c
          || (any (λ (db : DatabaseConfig). p (migration_state db.migrate)) dbs || any alarms hs))
  unfolding databases_health
  databases_health-seen server [] c c' hs t t' h =
      let e = (pure-ok _ _ t t' h).0 in
      rw
        (
          ap (λ (q : List DbHealth × Counters). q.1) (sym e),
          ap (λ (q : List DbHealth × Counters). q.0) (sym e),
        )
        (ground arith)
  databases_health-seen server (db ∷ dbs) c c' hs t t' h =
      bind_cases _ _ t t' (hs, c') h
        λ a t₁ p₁ h₁.
          bind_cases _ _ t₁ t' (hs, c') h₁
            λ r t₂ p₂ h₂.
              let e = (pure-ok _ _ t₂ t' h₂).0 in
              let ih = databases_health-seen server dbs _ r.1 r.0 t₁ t₂ p₂ in
              rw
                (
                  ap (λ (q : List DbHealth × Counters). q.1) (sym e),
                  ap (λ (q : List DbHealth × Counters). q.0) (sym e),
                  ih,
                  step a.backup (migration_state db.migrate) c,
                )
                (ground arith)

note-warn :
    (n : ℕ) (one many : Text) (warn : Bool) (sh : ServerHealth)
    → (note n one many warn sh).warn ≡ (sh.warn || (ltb 0 n && warn))
unfolding note
note-warn n one many warn sh = ground arith

-- No element.
abbrev pub is_nil : {A : Type 0} → List A → Bool
is_nil [] = true
is_nil (a ∷ as') = false

is_nil-append : {A : Type 0} (xs : List A) (x : A) → is_nil (xs ++ (x ∷ [])) ≡ false
is_nil-append [] x = refl
is_nil-append (y ∷ xs) x = refl

note-items :
    (n : ℕ) (one many : Text) (warn : Bool) (sh : ServerHealth)
    → is_nil (note n one many warn sh).items ≡ (is_nil sh.items && (n == 0))
unfolding note
note-items n one many warn sh = ground (
  arith,
  is_nil-append sh.items (txt "1 " ++ one),
  is_nil-append sh.items (itoa n ++ (txt " " ++ many)),
)

note-dbs :
    (n : ℕ) (one many : Text) (warn : Bool) (sh : ServerHealth)
    → (note n one many warn sh).dbs ≡ sh.dbs
unfolding note
note-dbs n one many warn sh = ground arith

pub note_all_lem :
    (c : Counters) (hs : List DbHealth)
    → let sh : ServerHealth = note_all c (record { items = []; warn = false; dbs = hs }) in
      (sh.warn ≡ warned c) × (is_nil sh.items ≡ not (noticed c)) × (sh.dbs ≡ hs)
unfolding note_all warned noticed
note_all_lem c hs =
    (simp note-warn (ground arith), simp note-items (ground arith), simp note-dbs refl)

-- A server's status warns exactly if a database of it has a migration that failed, or a backup
-- that is overdue or missing. It has no item at all exactly if no database has a migration and no
-- backup is overdue or missing.
pub server_health-warn :
    (env : Env) (days_since : Text → Option ℤ) (server : DatabaseServer) (t t' : List Event)
    (sh : ServerHealth)
    → server_health env days_since server t ≡ (ok sh, t')
    → (sh.warn ≡ (any has_failed_migration server.databases || any alarms sh.dbs))
      × (is_nil sh.items ≡ not (any has_migration server.databases || any alarms sh.dbs))
unfolding server_health
server_health-warn env days_since server t t' sh h = bind_cases _ _ t t' sh h λ r t₁ p₁ h₁.
    let e = sym (pure-ok _ _ t₁ t' h₁).0 in
    let (w, n, d) = note_all_lem r.1 r.0 in
    let f =
      databases_health-seen env days_since warned is_failed warned-count server.name
        server.databases no_counts r.1 r.0 t t₁ p₁ in
    let g =
      databases_health-seen env days_since noticed is_planned noticed-count server.name
        server.databases no_counts r.1 r.0 t t₁ p₁ in
    rw e (rw (w, n, d, f, g) (unfold warned noticed in (refl, refl)))
