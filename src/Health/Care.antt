-- ===== src/Health/Care.antt =====
-- Which entries of a server need attention, by the config and by the backups that are listed, and
-- Boolean tests that decide it.
use homelab_db_provisioner.Prelude.{
  ◌≡◌, refl, sym, ap, ◌∙◌, subst, ◌⊎◌, inl, inr, Bool, true, false, not, ◌||◌, ◌&&◌, Bool-cases,
  Option, none, some, List, [], ◌∷◌, ◌++◌, Text, txt, text_eq, is_empty, any, All, ℤ, Result, arith,
  if◌then◌else◌,
}
use homelab_db_provisioner.Config.{BackupConfig, MigrateConfig, DatabaseConfig, is_migrated}
use homelab_db_provisioner.World.{Env, Event, Err, glob}
use homelab_db_provisioner.Backup.Restore.{backup_dir}
use homelab_db_provisioner.Health.{off, DbHealth, migration_state, health_of_files}
use homelab_db_provisioner.Health.WarnLaws.{is_alarming, is_failed}
use homelab_db_provisioner.Health.AlarmLaws.{
  allowed, IsRecent, listed_files, fresh-IsRecent, IsRecent-fresh,
}

-- The migration of an entry is not completed, and has an error.
pub record HasFailed (db : DatabaseConfig) : Type 0 where
  pub migration : MigrateConfig
  pub planned : db.migrate ≡ some migration
  pub not_done : migration.completed ≡ false
  pub message : is_empty migration.error ≡ false

-- One of the elements.
abbrev pub AnyOf : {A : Type 0} → (A → Type 0) → List A → Type 0
AnyOf P [] = ⊥
AnyOf P (x ∷ xs) = P x ⊎ AnyOf P xs

some_not_none : {A : Type 0} (a : A) → ◌≡◌ {A = Option A} none (some a) → ⊥
some_not_none a h = cc

true_not_false : true ≡ false → ⊥
true_not_false h = cc

some-eq : {A : Type 0} (a b : A) → ◌≡◌ {A = Option A} (some a) (some b) → a ≡ b
some-eq a b h = cc

off_if :
    (enabled migrated : Bool)
    → (enabled && not migrated) ≡ false
    → migrated ≡ false
    → enabled ≡ false
off_if enabled migrated h k = ground arith

-- A Boolean test together with what it decides.
abbrev Decides : Bool → Type 0 → Type 0
Decides b P = ((b ≡ true) × P) ⊎ ((b ≡ false) × (P → ⊥))

failed-Decides :
    (db : DatabaseConfig) (o : Option MigrateConfig)
    → db.migrate ≡ o
    → Decides (is_failed (migration_state o)) (HasFailed db)
unfolding migration_state
failed-Decides db none e = inr (refl, λ f. some_not_none f.migration (sym e ∙ f.planned))
failed-Decides db (some m) e = elim (Bool-cases m.completed) [
  | inl c ↦ rw c (
      inr (
        refl,
        (λ f. true_not_false (
            sym c
            ∙ (ap (λ (x : MigrateConfig). x.completed) (some-eq m f.migration (sym e ∙ f.planned))
                ∙ f.not_done))),
      ))
  | inr c ↦ rw c (elim (Bool-cases (is_empty m.error)) [
    | inl k ↦ rw k (
        inr (
          refl,
          (λ f. true_not_false (
              sym k
              ∙ (ap (λ (x : MigrateConfig). is_empty x.error)
                    (some-eq m f.migration (sym e ∙ f.planned))
                  ∙ f.message))),
        ))
    | inr k ↦ rw k (inl (refl, record { migration = m; planned = e; not_done = c; message = k }))
  ])
]

module _ (env : Env) (days_since : Text → Option ℤ) (listing : Event → Result Err (List Text))
    (server : Text) where
  -- What the listing of the backups of a database answers.
  abbrev pub backups : Text → Result Err (List Text)
  backups database =
      listing
        (glob (env.join_path (backup_dir env server database ∷ ((database ++ txt "_*.gz") ∷ []))))

  -- Backups are enabled for an entry that is not migrated away, and the newest one listed is too
  -- old, or has no date, or there is none.
  pub record IsLate (db : DatabaseConfig) : Type 0 where
    pub backup : BackupConfig
    pub configured : db.backup ≡ some backup
    pub enabled : backup.enabled ≡ true
    pub stays : is_migrated db ≡ false
    pub late :
        IsRecent env days_since db.database
          (allowed backup)
          (listed_files env days_since (backups db.database))
        → ⊥

  -- An entry that needs attention.
  abbrev pub NeedsCare : DatabaseConfig → Type 0
  NeedsCare db = HasFailed db ⊎ IsLate db

  abbrev pub fixed : DatabaseConfig → Option BackupConfig → DbHealth
  fixed db none = record { backup = off; last_backup = [] }
  fixed db (some b) =
      if b.enabled && not (is_migrated db)
      then health_of_files env days_since (text_eq b.schedule (txt "weekly")) db.database
          (backups db.database)
      else record { backup = off; last_backup = [] }

  IsLate-Decides :
      (db : DatabaseConfig) (o : Option BackupConfig)
      → db.backup ≡ o
      → Decides (is_alarming (fixed db o).backup) (IsLate db)
  IsLate-Decides db none e = inr (refl, λ l. some_not_none l.backup (sym e ∙ l.configured))
  IsLate-Decides db (some b) e = elim (Bool-cases (b.enabled && not (is_migrated db))) [
    | inr k ↦ rw k (
        inr (
          refl,
          (λ l.
              let same = some-eq b l.backup (sym e ∙ l.configured) in
              true_not_false (
                sym (ap (λ (x : BackupConfig). x.enabled) same ∙ l.enabled)
                ∙ off_if (b.enabled) (is_migrated db) k l.stays)),
        ))
    | inl k ↦
        rw k
          (elim (Bool-cases (
            is_alarming
              (health_of_files env days_since (text_eq b.schedule (txt "weekly")) db.database
                (backups db.database)).backup)) [
                  | inl a ↦ inl (
                    a,
                    record {
                      backup = b;
                      configured = e;
                      enabled = ground arith;
                      stays = ground arith;
                      late = λ r. true_not_false (
                          sym a
                          ∙ IsRecent-fresh env days_since (text_eq b.schedule (txt "weekly"))
                              db.database (backups db.database) r);
                    },
                  )
                  | inr a ↦ inr (
                    a,
                    (λ l. l.late (
                        subst
                          (λ x.
                            IsRecent env days_since db.database (allowed x)
                              (listed_files env days_since (backups db.database)))
                          (some-eq b l.backup (sym e ∙ l.configured))
                          (fresh-IsRecent env days_since (text_eq b.schedule (txt "weekly"))
                            db.database (backups db.database) a))),
                  )
                ])
  ]

  care-Decides :
      (db : DatabaseConfig)
      → Decides
          (is_failed (migration_state db.migrate) || is_alarming (fixed db db.backup).backup)
          (NeedsCare db)
  care-Decides db = elim (failed-Decides db db.migrate refl) [
    | inl (b, f) ↦ rw b (inl (refl, inl f))
    | inr (b, f) ↦ rw b (elim (IsLate-Decides db db.backup refl) [
      | inl (c, l) ↦ rw c (inl (refl, inr l))
      | inr (c, l) ↦ rw c (inr (refl, elim [ inl x ↦ f x | inr x ↦ l x ]))
    ])
  ]

  abbrev pub care : DatabaseConfig → Bool
  care db = is_failed (migration_state db.migrate) || is_alarming (fixed db db.backup).backup

  -- The server warns, and some entry needs attention; or it does not, and none does.
  abbrev pub WarnsRightly : Bool → List DatabaseConfig → Type 0
  WarnsRightly warn dbs =
      ((warn ≡ true) × AnyOf NeedsCare dbs) ⊎ ((warn ≡ false) × All (λ db. NeedsCare db → ⊥) dbs)

  pub any-WarnsRightly : (dbs : List DatabaseConfig) → WarnsRightly (any care dbs) dbs
  any-WarnsRightly [] = inr (refl, tt)
  any-WarnsRightly (db ∷ dbs) = elim (care-Decides db) [
    | inl (b, p) ↦ inl (ground arith, inl p)
    | inr (b, p) ↦ elim (any-WarnsRightly dbs) [
      | inl (c, q) ↦ inl (ground arith, inr q)
      | inr (c, q) ↦ inr (ground arith, (p, q))
    ]
  ]
