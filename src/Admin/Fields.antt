-- ===== src/Admin/Fields.antt =====
-- Form fields with a structure: `parseBackupFields` and the permissions of `handleAddDatabase`.
use homelab_db_provisioner.Prelude.{
  Bool, Option, none, some, List, [], Text, txt, text_eq, is_empty, trim_space, split, map, ℤ, pos,
  atoi, is_positive, if◌then◌else◌,
}
use homelab_db_provisioner.Config.{BackupConfig}
use homelab_db_provisioner.Http.{Request, form_value}

-- A checkbox.
unfoldable pub is_on : Request → Text → Bool
is_on req key = text_eq (form_value req key) (txt "on")

-- The number, if it is positive, and 0 otherwise.
unfoldable pub positive_or_zero : Option ℤ → ℤ
positive_or_zero none = pos 0
positive_or_zero (some n) = if is_positive n then n else pos 0

unfoldable pub parse_keep_count : Text → ℤ
unfolding positive_or_zero
parse_keep_count s = if is_empty s then pos 0 else positive_or_zero (atoi s)

unfoldable pub parse_backup_fields : Request → BackupConfig
unfolding parse_keep_count is_on
parse_backup_fields req = record {
  enabled = is_on req (txt "backup_enabled");
  schedule =
      if text_eq (form_value req (txt "backup_schedule")) (txt "weekly")
      then txt "weekly"
      else txt "daily";
  keep_count = parse_keep_count (trim_space (form_value req (txt "backup_keep_count")));
  restore_on_create = is_on req (txt "backup_restore_on_create");
}

unfoldable pub parse_permissions : Text → List Text
parse_permissions s =
    let p = trim_space s in if is_empty p then [] else map trim_space (split b',' p)
