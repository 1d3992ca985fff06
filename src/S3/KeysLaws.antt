-- ===== src/S3/KeysLaws.antt =====
-- Which objects `pruneS3Backups` deletes, and which one a restore takes.
use homelab_db_provisioner.Prelude.{
  ◌≡◌, inl, inr, ◌-◌, true, List, [], ◌∷◌, Text, arith, leb, ℤ, pos, negsuc, to_nat, is_positive,
  Bool-cases, length, drop, length-drop, All,
}
use homelab_db_provisioner.Prelude.Sort.{
  sort, TextLe, IsSorted, TextLe-refl, TextLe-trans, sort-IsSorted, sort-perm, sort-All,
  length-sort, take-drop-sort,
}
use homelab_db_provisioner.S3.Keys.{select_keys_to_delete, last_or_empty, newest_key}
use homelab_db_provisioner.Backup.PruneLaws.{KeepsNewest}

-- With a positive count all objects go but the newest ones, as many as the count, by their keys.
pub select_keys_to_delete-KeepsNewest :
    (keys : List Text) (keep_count : ℤ)
    → is_positive keep_count ≡ true
    → KeepsNewest keys (select_keys_to_delete keys keep_count) (to_nat keep_count)
unfolding select_keys_to_delete
select_keys_to_delete-KeepsNewest keys (negsuc n) h = cc
select_keys_to_delete-KeepsNewest keys (pos k) h = elim (Bool-cases (leb (length keys) k)) [
  | inl e ↦
      rw (h, e)
        (record {
          kept = sort keys;
          split = sort-perm keys;
          size = ground (arith, length-sort keys);
          order = tt;
        })
  | inr e ↦
      rw (h, e)
        (record {
          kept = drop (length keys - k) (sort keys);
          split = (take-drop-sort (length keys - k) keys).1;
          size = ground (arith, length-drop (length keys - k) (sort keys), length-sort keys);
          order = (take-drop-sort (length keys - k) keys).0;
        })
]

-- The last element of a sorted list is at least all of them.
last-IsGreatest :
    (k : Text) (ks : List Text)
    → IsSorted (k ∷ ks)
    → All (λ j. TextLe j (last_or_empty (k ∷ ks))) (k ∷ ks)
unfolding last_or_empty
last-IsGreatest k [] s = (TextLe-refl k, tt)
last-IsGreatest k (j ∷ ks) s = let a = last-IsGreatest j ks s.1 in (TextLe-trans _ _ _ s.0.0 a.0, a)

greatest_of_sorted : (ks : List Text) → IsSorted ks → All (λ j. TextLe j (last_or_empty ks)) ks
greatest_of_sorted [] s = tt
greatest_of_sorted (k ∷ ks) s = last-IsGreatest k ks s

-- The key that a restore downloads is at least every key of the listing.
pub newest_key-IsGreatest : (keys : List Text) → All (λ k. TextLe k (newest_key keys)) keys
unfolding newest_key
newest_key-IsGreatest keys = sort-All _ keys (greatest_of_sorted (sort keys) (sort-IsSorted keys))
