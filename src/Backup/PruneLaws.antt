-- ===== src/Backup/PruneLaws.antt =====
-- What the removal of old backups keeps.
use mathlib.Core.List.{Perm}
use homelab_db_provisioner.Prelude.{
  ◌≡◌, refl, [], ◌∷◌, txt, Result, ok, err, inl, inr, ℕ, ◌-◌, min, List, ◌++◌, Text, arith, leb,
  Bool-cases, length, drop, length-drop, All,
}
use homelab_db_provisioner.Prelude.Sort.{sort, TextLe, sort-perm, length-sort, take-drop-sort}
use homelab_db_provisioner.World.{
  Env, Event, Err, pure, ◌>>=◌, try, for_each, call_ignoring, ask_list, glob, remove_file,
}
use homelab_db_provisioner.Backup.Prune.{files_to_prune, remove_all, prune_listed, prune_backups}

-- A split of the files into those that go and those that stay: nothing is lost, as many stay as
-- are to be kept or as there are, and each one that goes is at most each one that stays.
pub record KeepsNewest (files gone : List Text) (keep_count : ℕ) : Type 0 where
  pub kept : List Text
  pub split : Perm (gone ++ kept) files
  pub size : length kept ≡ min keep_count (length files)
  pub order : All (λ f. All (TextLe f) kept) gone

-- The files that are chosen.
files_to_prune-KeepsNewest :
    (files : List Text) (keep_count : ℕ)
    → KeepsNewest files (files_to_prune files keep_count) keep_count
unfolding files_to_prune
files_to_prune-KeepsNewest files k = elim (Bool-cases (leb (length files) k)) [
  | inl e ↦ rw e (record {
    kept = sort files;
    split = sort-perm files;
    size = ground (arith, length-sort files);
    order = tt;
  })
  | inr e ↦ rw e (record {
    kept = drop (length files - k) (sort files);
    split = (take-drop-sort (length files - k) files).1;
    size = ground (arith, length-drop (length files - k) (sort files), length-sort files);
    order = (take-drop-sort (length files - k) files).0;
  })
]

-- The calls that remove the files, one behind the other, with the newest call first.
unfoldable pub removing : List Text → List Event → List Event
removing [] t = t
removing (f ∷ fs) t = removing fs (remove_file f ∷ t)

-- What is to be removed, by the answer of the listing.
abbrev pub Prunes : Result Err (List Text) → List Text → ℕ → Type 0
Prunes (err e) gone keep_count = gone ≡ []
Prunes (ok files) gone keep_count = KeepsNewest files gone keep_count

remove_all-removing :
    (files : List Text) (t : List Event) → remove_all files t ≡ (ok tt, removing files t)
unfolding remove_all removing for_each call_ignoring pure ◌>>=◌
remove_all-removing [] t = refl
remove_all-removing (f ∷ fs) t = remove_all-removing fs (remove_file f ∷ t)

prune_listed-Prunes :
    (r : Result Err (List Text)) (keep_count : ℕ) (t : List Event)
    → (gone : List Text) × Prunes r gone keep_count
      × (prune_listed (λ fs. files_to_prune fs keep_count) r t ≡ (ok tt, removing gone t))
unfolding prune_listed removing pure
prune_listed-Prunes (err e) k t = ([], refl, refl)
prune_listed-Prunes (ok files) k t = (
  files_to_prune files k,
  files_to_prune-KeepsNewest files k,
  remove_all-removing (files_to_prune files k) t,
)

-- `pruneBackups` ends without an error and lists the backups of the database in the directory,
-- those named `<database>_*.sql.gz`. If the listing fails it makes no other call. Or else the
-- other calls each remove one of the files listed, whether earlier removals failed or not, and
-- the files that it does not remove are the newest `keepCount` by the order of their names, or
-- all if there are no more.
pub prune_backups-KeepsNewest :
    (env : Env) (dir database : Text) (keep_count : ℕ) (t : List Event)
    → (gone : List Text) × Prunes
        (env.lists t (glob (env.join_path (dir ∷ ((database ++ txt "_*.sql.gz") ∷ [])))))
        gone
        keep_count
      × (prune_backups env dir database keep_count t ≡ (
        ok tt,
        removing gone (glob (env.join_path (dir ∷ ((database ++ txt "_*.sql.gz") ∷ []))) ∷ t),
      ))
unfolding prune_backups ◌>>=◌ try ask_list
prune_backups-KeepsNewest env dir database k t = prune_listed-Prunes _ k _
