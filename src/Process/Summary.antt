-- ===== src/Process/Summary.antt =====
-- What is logged of the config: the summary of backups at the start of `processConfig`, and
-- `logDryRunK8sSecret`, as the lines in their order.
use homelab_db_provisioner.Prelude.{
  ℕ, ◌+◌, Option, none, some, List, [], ◌∷◌, ◌++◌, Text, txt, is_empty, itoa, if◌then◌else◌,
}
use homelab_db_provisioner.Config.{BackupConfig, DatabaseConfig, DatabaseServer, Config}

-- `serverName`
unfoldable pub server_name : ℕ → DatabaseServer → Text
server_name index s = if is_empty s.name then txt "Server " ++ itoa (index + 1) else s.name

unfoldable pub frequency : BackupConfig → Text
frequency b =
    if b.enabled then if is_empty b.schedule then txt "daily" else b.schedule else txt "disabled"

unfoldable pub row : Text → Text → Option BackupConfig → List Text
unfolding frequency
row server database none = []
row server database (some b) =
    (txt "| " ++ (server ++ (txt " | " ++ (database ++ (txt " | " ++ (frequency b ++ txt " |"))))))
    ∷ []

unfoldable pub server_rows : Text → List DatabaseConfig → List Text
unfolding row
server_rows server [] = []
server_rows server (db ∷ dbs) = row server db.database db.backup ++ server_rows server dbs

unfoldable pub rows : ℕ → List DatabaseServer → List Text
unfolding server_rows server_name
rows index [] = []
rows index (s ∷ ss) = server_rows (server_name index s) s.databases ++ rows (index + 1) ss

abbrev or_none : List Text → List Text
or_none [] = txt "No backups configured" ∷ []
or_none (r ∷ rs) = r ∷ rs

abbrev line : Text
line = txt "========================================"

unfoldable pub backup_summary : Config → List Text
unfolding rows
backup_summary config =
    line
    ∷ (txt "Backup configuration summary:"
        ∷ (txt "| server | database | frequency |"
            ∷ (txt "|---|---|---|" ∷ (or_none (rows 0 config.servers) ++ (line ∷ [])))))

unfoldable pub log_dry_run_k8s_secret : DatabaseConfig → Text → List Text
log_dry_run_k8s_secret db server =
    let about = db.k8s_secret ++ (txt " for " ++ (db.database ++ (txt " on " ++ server))) in
    let stored =
      (txt "[DRY RUN] Would store connection_string in Kubernetes secret " ++ about) ∷ [] in
    if is_empty db.k8s_secret
    then []
    else (txt "[DRY RUN] Would reconcile Kubernetes secret " ++ about)
      ∷ (if db.requires_connect_string then stored else [])
