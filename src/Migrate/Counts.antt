-- ===== src/Migrate/Counts.antt =====
-- Verification of a copy: `queryTableCounts`, `compareTableCounts`, `verifyMigration` and
-- `verifyTargetNonEmpty`.
use homelab_db_provisioner.Prelude.{
  itoa, ℕ, Option, none, some, List, [], ◌∷◌, ◌++◌, Text, txt, join, Result, ok, err, ◌==◌,
  if◌then◌else◌,
}
use homelab_db_provisioner.Prelude.Dict.{lookup, get_or, insert}
use homelab_db_provisioner.Prelude.Sort.{sort}
use homelab_db_provisioner.World.{
  Env, Err, Driver, Conn, Exec, pure, raise, lift, ◌>>=◌, ◌>>◌, on_err, wrap, new_error, ask_number,
  ask_tables, sql_open, sql_tables, sql_count,
}
use homelab_db_provisioner.Sql.Postgres.{count_rows}
use homelab_db_provisioner.Conn.{conn_str_with_db}
use homelab_db_provisioner.Provision.Statement.{call_or}

abbrev pub Counts : Type 0
Counts = List (Text × ℕ)

unfoldable pub table_key : Text → Text → Text
table_key schema name = schema ++ (txt "." ++ name)

-- The keys of a map; Go's order is arbitrary, and they are sorted before use.
unfoldable pub keys : Counts → List Text
keys [] = []
keys ((k, n) ∷ m) = k ∷ keys m

-- The decimal digits of a count, as `%d` prints them, are not modelled.
missing_error : Text → Err
missing_error k = new_error (txt "table " ++ (k ++ txt " present on source but missing on target"))

mismatch_error : Text → ℕ → ℕ → Err
mismatch_error k source target = new_error (
    txt "table "
    ++ (k
        ++ (txt " row count mismatch: source="
            ++ (itoa source ++ (txt " target=" ++ itoa target)))))

-- One round of the loop: the key, its count on the source, and the target's entry.
unfoldable pub compare_key : Text → ℕ → Option ℕ → Option Err
unfolding missing_error mismatch_error
compare_key k m none = some (missing_error k)
compare_key k m (some n) = if n == m then none else some (mismatch_error k m n)

unfoldable pub first_mismatch : Counts → Counts → List Text → Option Err
unfolding compare_key
first_mismatch source target [] = none
first_mismatch source target (k ∷ ks) = elim (compare_key k (get_or 0 k source) (lookup k target)) [
  | some e ↦ some e
  | none ↦ first_mismatch source target ks
]

-- The keys of the target that the source lacks.
unfoldable pub extra_keys : Counts → List Text → List Text
extra_keys source [] = []
extra_keys source (k ∷ ks) =
    let rest = extra_keys source ks in elim (lookup k source) [ none ↦ k ∷ rest | some n ↦ rest ]

unfoldable pub extra_error : List Text → Option Err
extra_error [] = none
extra_error (k ∷ ks) = some (
    new_error
      (txt "tables present on target but missing on source: " ++ join (txt ", ") (sort (k ∷ ks))))

-- The error, if there is one.
unfoldable pub compare_table_counts : Counts → Counts → Option Err
unfolding first_mismatch extra_keys extra_error keys
compare_table_counts source target = elim (first_mismatch source target (sort (keys source))) [
  | some e ↦ some e
  | none ↦ extra_error (extra_keys source (keys target))
]

unfoldable pub as_result : Option Err → Result Err (Unit {0})
as_result none = ok tt
as_result (some e) = err e

module _ (env : Env) where
  -- The loop over the tables, with the counts so far.
  unfoldable pub count_tables : Conn → List (Text × Text) → Counts → Exec Err Counts
  count_tables conn [] counts = pure counts
  count_tables conn ((schema, name) ∷ tables) counts = do
    c ←
        on_err (wrap (txt "count " ++ (table_key schema name ++ txt ": ")))
          (ask_number env (sql_count conn (count_rows schema name)))
    count_tables conn tables (insert (table_key schema name) c counts)

  unfoldable pub query_table_counts : Text → Exec Err Counts
  query_table_counts conn_str = do
    let conn : Conn = record { driver = Driver.postgres; dsn = conn_str }
    call_or env (txt "open: ") (sql_open conn)
    tables ← on_err (wrap (txt "list tables: ")) (ask_tables env (sql_tables conn))
    count_tables conn tables []

  unfoldable pub verify_migration : Text → Text → Text → Exec Err (Unit {0})
  verify_migration source target database = do
    src ← lift (conn_str_with_db env source database)
    tgt ← lift (conn_str_with_db env target database)
    source_counts ← on_err (wrap (txt "read source counts: ")) (query_table_counts src)
    target_counts ← on_err (wrap (txt "read target counts: ")) (query_table_counts tgt)
    lift (as_result (compare_table_counts source_counts target_counts))

  unfoldable pub check_nonempty : Text → Counts → Exec Err (Unit {0})
  check_nonempty database [] =
      raise
        (new_error (txt "target database \"" ++ (database ++ txt "\" has no tables after restore")))
  check_nonempty database (c ∷ counts) = pure tt

  unfoldable pub verify_target_nonempty : Text → Text → Exec Err (Unit {0})
  verify_target_nonempty target database = do
    tgt ← lift (conn_str_with_db env target database)
    counts ← on_err (wrap (txt "read target counts: ")) (query_table_counts tgt)
    check_nonempty database counts
