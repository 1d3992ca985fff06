-- ===== src/Admin/EditLaws.antt =====
-- What the handlers of one row write.
use homelab_db_provisioner.Prelude.{
  ◌≡◌, refl, Bool, true, false, not, ◌&&◌, Option, none, some, Text, txt, text_eq, text_eq_iff,
  is_empty, trim_space, ℤ, atoi, arith, inl, inr, Bool-cases,
}
use homelab_db_provisioner.Config.{MigrateConfig, DatabaseConfig}
use homelab_db_provisioner.World.{Env, Event, Exec, pure, ◌>>=◌, ◌>>◌}
use homelab_db_provisioner.World.Keeps.{Only}
use homelab_db_provisioner.World.Runs.{
  Runs, Anything, Runs-pure, Runs-raise, Runs-lift, Runs-bind, Runs-on_err, Only-Runs,
}
use homelab_db_provisioner.Http.{Request, form_value, Response}
use homelab_db_provisioner.Admin.Row.{
  Row, server_index, db_index, save, replace_row, check_post, parse_index,
}
use homelab_db_provisioner.Admin.Edit
use homelab_db_provisioner.Admin.OneRow.{
  Loaded, RowWrite, Runs-require, Runs-check_post, Runs-parse_index, Runs-load_row, Runs-save,
}

-- A migration that is asked for has not run, and drops the source only if its name is typed in.
abbrev pub Confirmed : Request → DatabaseConfig → Option MigrateConfig → Type 0
Confirmed req db none = Unit
Confirmed req db (some m) =
    (m.completed ≡ false)
    × (m.confirm_drop ≡ true → trim_space (form_value req (txt "confirm_database")) ≡ db.database)

-- Only the migration is replaced, by none or by a confirmed one.
abbrev pub MigrationEdit : Request → DatabaseConfig → DatabaseConfig → Type 0
MigrationEdit req old new =
    (m : Option MigrateConfig) × (new ≡ record old { migrate = m }) × Confirmed req old m

module _ {P : Event → Type 0} {A : Type 0} {Q : A → Type 0} where
  -- The checks of the method, the form and the two indices, in front of the rest.
  pub Runs-indices :
      (req : Request) (k : ℤ → ℤ → Exec Response A)
      → ((si di : ℤ)
          → atoi (form_value req server_index) ≡ some si
          → atoi (form_value req db_index) ≡ some di
          → Runs P Q (k si di))
      → Runs P Q (do
        check_post req
        si ← parse_index req server_index
        di ← parse_index req db_index
        k si di)
  Runs-indices req k h = Runs-bind _ _ (Runs-check_post req) λ _ _.
      Runs-bind _ _ (Runs-parse_index req server_index)
        λ si hs. Runs-bind _ _ (Runs-parse_index req db_index) λ di hd. h si di hs hd

module _ (env : Env) (req : Request) where
  -- A handler's end: the row is replaced by one that is allowed, and the response is any.
  Runs-edit :
      (edit : DatabaseConfig → DatabaseConfig → Type 0) (row : Row) (new : DatabaseConfig)
      (resp : Response)
      → Loaded env req row
      → edit row.db new
      → Runs (RowWrite env req edit) Anything (do save env (replace_row row new); pure resp)
  Runs-edit edit row new resp loaded ok_edit =
      Runs-bind _ _ (Runs-save env _ (row, new, loaded, ok_edit, refl)) λ _ _. Runs-pure resp tt

  -- Each config that "update password" writes is one that was read, in which only the password
  -- of the row that the form names, and that is not stale, is replaced by the form's password,
  -- which is not empty.
  pub handle_update_password-row :
      Only
        (RowWrite env req (λ old new.
          (new ≡ record old { password = form_value req (txt "new_password") })
          × (is_empty new.password ≡ false)))
        (Edit.handle_update_password env req)
  unfolding Edit.handle_update_password
  handle_update_password-row = Only-Runs _ (
      Runs-indices req _ λ si di hs hd. Runs-bind _ _ (Runs-require _ _ _) λ _ given.
        Runs-bind _ _ (Runs-load_row env tt req si di hs hd)
          λ row loaded. Runs-edit _ row _ _ loaded (refl, ground arith))

  -- "Show password" writes nothing at all.
  pub handle_reveal_password-row :
      Only (RowWrite env req (λ old new. ⊥)) (Edit.handle_reveal_password env req)
  unfolding Edit.handle_reveal_password
  handle_reveal_password-row = Only-Runs _ (
      Runs-indices req _ λ si di hs hd.
        Runs-bind _ _ (Runs-load_row env tt req si di hs hd)
          λ row loaded. Runs-bind _ _ (Runs-require _ _ _) λ _ _. Runs-pure {Q = Anything} _ tt)

  confirmed_lem :
      (drops : Bool) (typed name : Text)
      → drops && not (text_eq typed name) ≡ false
      → drops ≡ true
      → typed ≡ name
  confirmed_lem drops typed name h e = ground (arith, text_eq_iff typed name)

  confirm_migration-Runs :
      {P : Event → Type 0} (row : Row) (target : Text)
      → Runs P (Confirmed req row.db) (Edit.confirm_migration env req row target)
  unfolding Edit.confirm_migration Edit.scheduled Edit.confirm_name
  confirm_migration-Runs row target =
      elim (Bool-cases
        (Edit.confirms_drop env req && not (text_eq (Edit.confirm_name env req) row.db.database))) [
          | inl e ↦ simp e (Runs-raise _)
          | inr e ↦ simp e (Runs-pure _ (refl, λ d. confirmed_lem _ _ _ e d))
        ]

  resolve_target-Runs :
      {P : Event → Type 0} (row : Row) (target : Text)
      → Runs P Anything (Edit.resolve_target env req row target)
  unfolding Edit.resolve_target
  resolve_target-Runs row target = Runs-on_err _ _ (Runs-lift _ (λ _ _. tt))

  requested_migration-Runs :
      {P : Event → Type 0} (row : Row) (target : Text)
      → Runs P (Confirmed req row.db) (Edit.requested_migration env req row target)
  unfolding Edit.requested_migration
  requested_migration-Runs row target = elim (Bool-cases (is_empty target)) [
    | inl e ↦ rw e (Runs-pure none tt)
    | inr e ↦
        rw e
          (Runs-bind _ _ (resolve_target-Runs row target) λ _ _. confirm_migration-Runs row target)
  ]

  -- Each config that "migrate database" writes is one that was read, in which only the migration
  -- of the row that the form names, and that is not stale, is replaced: by none, or by one that is
  -- not completed and drops the source only if the form has the database's name typed in.
  pub handle_migrate_database-row :
      Only (RowWrite env req (MigrationEdit req)) (Edit.handle_migrate_database env req)
  unfolding Edit.handle_migrate_database
  handle_migrate_database-row = Only-Runs _ (
      Runs-indices req _ λ si di hs hd.
        Runs-bind _ _ (Runs-load_row env tt req si di hs hd) λ row loaded.
          Runs-bind _ _ (requested_migration-Runs row _)
            λ m confirmed. Runs-edit _ row _ _ loaded (m, refl, confirmed))
