-- ===== src/Backup/Prune.antt =====
-- Removal of old local backups: `pruneBackups` and `pruneMongoDBBackups`.
use homelab_db_provisioner.Prelude.{
  ℕ, ◌-◌, List, [], ◌∷◌, ◌++◌, Text, txt, Result, ok, err, leb, length, take, if◌then◌else◌,
}
use homelab_db_provisioner.Prelude.Sort.{sort}
use homelab_db_provisioner.World.{
  Env, Exec, pure, ◌>>=◌, try, for_each, call_ignoring, ask_list, glob, remove_file,
}

-- The files that go: of the sorted list all but the last `keep_count`.
unfoldable pub files_to_prune : List Text → ℕ → List Text
unfolding sort
files_to_prune files keep_count =
    if leb (length files) keep_count then [] else take (length files - keep_count) (sort files)

-- The same without the sorting, in the order of `filepath.Glob`.
unfoldable pub mongodb_files_to_prune : List Text → ℕ → List Text
mongodb_files_to_prune files keep_count =
    if leb (length files) keep_count then [] else take (length files - keep_count) files

unfoldable pub remove_all : List Text → Exec ⊥ (Unit {0})
remove_all files = for_each files (λ f. call_ignoring (remove_file f))

-- An error of the listing ends the function.
unfoldable pub prune_listed :
    {A : Type 0} → (List Text → List Text) → Result A (List Text) → Exec ⊥ (Unit {0})
prune_listed choose (err e) = pure tt
prune_listed choose (ok files) = remove_all (choose files)

module _ (env : Env) where
  -- The calls are only made with a positive `keepCount`.
  unfoldable pub prune_backups : Text → Text → ℕ → Exec ⊥ (Unit {0})
  prune_backups dir database keep_count = do
    files ← try (ask_list env (glob (env.join_path (dir ∷ ((database ++ txt "_*.sql.gz") ∷ [])))))
    prune_listed (λ fs. files_to_prune fs keep_count) files

  unfoldable pub prune_mongodb_backups : Text → Text → ℕ → Exec ⊥ (Unit {0})
  prune_mongodb_backups dir database keep_count = do
    files ←
        try (ask_list env (glob (env.join_path (dir ∷ ((database ++ txt "_*.archive.gz") ∷ [])))))
    prune_listed (λ fs. mongodb_files_to_prune fs keep_count) files
