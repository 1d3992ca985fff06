-- ===== src/S3/Keys.antt =====
-- Keys of objects: `s3KeyPrefix`, `selectKeysToDelete` and `newestKey`.
use homelab_db_provisioner.Prelude.{
  ◌||◌, List, [], ◌∷◌, Text, txt, is_empty, join, trim_by, ℤ, to_nat, is_positive, not, ◌==◌, ◌-◌,
  leb, length, take, if◌then◌else◌,
}
use homelab_db_provisioner.Prelude.Sort.{sort}
use homelab_db_provisioner.Config.{S3Config}

unfoldable pub s3_key_prefix : S3Config → Text → Text → Text
s3_key_prefix cfg server_slug database =
    let trimmed = trim_by (λ c. c == b'/') cfg.prefix in
    let rest = server_slug ∷ (database ∷ []) in
    join (txt "/") (if is_empty trimmed then rest else trimmed ∷ rest)

-- The sorted keys but the last `keep_count`; none if it is not positive or there are no more.
unfoldable pub select_keys_to_delete : List Text → ℤ → List Text
unfolding sort
select_keys_to_delete keys keep_count =
    if not (is_positive keep_count) || leb (length keys) (to_nat keep_count)
    then []
    else take (length keys - to_nat keep_count) (sort keys)

-- The last element, or the empty text.
unfoldable pub last_or_empty : List Text → Text
last_or_empty [] = []
last_or_empty (k ∷ []) = k
last_or_empty (k ∷ (j ∷ ks)) = last_or_empty (j ∷ ks)

unfoldable pub newest_key : List Text → Text
unfolding last_or_empty sort
newest_key keys = last_or_empty (sort keys)
