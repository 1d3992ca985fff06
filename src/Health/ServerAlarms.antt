-- ===== src/Health/ServerAlarms.antt =====
-- When a server's status warns, while the same backups are listed.
use homelab_db_provisioner.Prelude.{
  ◌≡◌, refl, sym, ap, ◌∙◌, subst, not, ◌||◌, ◌&&◌, Option, none, some, List, [], ◌∷◌, ◌++◌, Text,
  txt, text_eq, any, ℤ, Result, ok, arith,
}
use homelab_db_provisioner.Config.{BackupConfig, DatabaseConfig, DatabaseServer, is_migrated}
use homelab_db_provisioner.World.{Env, Event, Err, try, ask_list, glob}
use homelab_db_provisioner.World.Inversion.{bind_cases, pure-ok, if_cases}
use homelab_db_provisioner.World.Runs.{ok-eq}
use homelab_db_provisioner.Backup.Restore.{backup_dir}
use homelab_db_provisioner.Health.{
  DbHealth, Counters, no_counts, ServerHealth, health_of_files, backup_age, database_health,
  databases_health, server_health,
}
use homelab_db_provisioner.Health.WarnLaws.{
  alarms, has_failed_migration, server_health-warn, note_all_lem,
}
use homelab_db_provisioner.Health.Care.{backups, fixed, care, WarnsRightly, any-WarnsRightly}

module _ (env : Env) (days_since : Text → Option ℤ) (listing : Event → Result Err (List Text))
    (server : Text) (stable : (t : List Event) (e : Event) → env.lists t e ≡ listing e) where
  listed-backups :
      (database : Text) (r : Result Err (List Text)) (t t' : List Event)
      → try {F = ⊥}
          (ask_list env (
            glob
              (env.join_path (backup_dir env server database ∷ ((database ++ txt "_*.gz") ∷ [])))))
          t
        ≡ (ok r, t')
      → backups env days_since listing server database ≡ r
  unfolding try ask_list
  listed-backups database r t t' h =
      sym (stable t _)
      ∙ ok-eq _ _ (ap (λ (x : Result ⊥ (Result Err (List Text)) × List Event). x.0) h)

  database_health-fixed :
      (db : DatabaseConfig) (o : Option BackupConfig) (h : DbHealth) (t t' : List Event)
      → database_health env days_since server db o t ≡ (ok h, t')
      → fixed env days_since listing server db o ≡ h
  unfolding database_health backup_age
  database_health-fixed db none h t t' e = (pure-ok _ _ t t' e).0
  database_health-fixed db (some b) h t t' e =
      if_cases (b.enabled && not (is_migrated db)) _ _ t (ok h, t') e
        (λ k p. rw k (
          bind_cases _ _ t t' h p λ r t₁ q l.
            ap (health_of_files env days_since (text_eq b.schedule (txt "weekly")) db.database)
              (listed-backups db.database r t t₁ q)
            ∙ (pure-ok _ _ t₁ t' l).0))
        (λ k p. rw k (pure-ok _ _ t t' p).0)

  databases_health-care :
      (dbs : List DatabaseConfig) (c c' : Counters) (hs : List DbHealth) (t t' : List Event)
      → databases_health env days_since server dbs c t ≡ (ok (hs, c'), t')
      → (any has_failed_migration dbs || any alarms hs)
        ≡ any (care env days_since listing server) dbs
  unfolding databases_health
  databases_health-care [] c c' hs t t' h =
      rw (ap (λ (q : List DbHealth × Counters). q.0) (sym (pure-ok _ _ t t' h).0)) refl
  databases_health-care (db ∷ dbs) c c' hs t t' h =
      bind_cases _ _ t t' (hs, c') h
        λ a t₁ p₁ h₁.
          bind_cases _ _ t₁ t' (hs, c') h₁
            λ r t₂ p₂ h₂.
              let ih = databases_health-care dbs _ r.1 r.0 t₁ t₂ p₂ in
              let same = database_health-fixed db db.backup a t t₁ p₁ in
              rw (ap (λ (q : List DbHealth × Counters). q.0) (sym (pure-ok _ _ t₂ t' h₂).0), same)
                (ground arith)

-- As long as the same backups are listed while the status of a server is computed, it warns exactly
-- if one of its databases needs attention: its migration is not completed and has an error, or
-- its backups are enabled, it is not migrated away, and no recent backup is listed. One is
-- recent if it is the greatest by its path, its name goes on with a date behind the name of the
-- database, and this date is at most one day ago, or seven for a weekly schedule.
pub server_health-WarnsRightly :
    (env : Env) (days_since : Text → Option ℤ) (listing : Event → Result Err (List Text))
    (server : DatabaseServer) (t t' : List Event) (sh : ServerHealth)
    → ((t : List Event) (e : Event) → env.lists t e ≡ listing e)
    → server_health env days_since server t ≡ (ok sh, t')
    → WarnsRightly env days_since listing server.name sh.warn server.databases
unfolding server_health
server_health-WarnsRightly env days_since listing server t t' sh stable h =
    bind_cases _ _ t t' sh h λ r t₁ p₁ h₁.
      let (_, _, d) = note_all_lem r.1 r.0 in
      let dbs : sh.dbs ≡ r.0 =
        ap (λ (x : ServerHealth). x.dbs) (sym (pure-ok _ _ t₁ t' h₁).0) ∙ d in
      let (warn, _) = server_health-warn env days_since server t t' sh h in
      let cares =
        databases_health-care env days_since listing server.name stable server.databases no_counts
          r.1 r.0 t t₁ p₁ in
      subst (λ b. WarnsRightly env days_since listing server.name b server.databases)
        (sym (
          warn
          ∙ (ap (λ hs. any has_failed_migration server.databases || any alarms hs) dbs ∙ cares)))
        (any-WarnsRightly env days_since listing server.name server.databases)
