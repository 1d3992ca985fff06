-- ===== src/Secrets/Names.antt =====
-- `slugify` of backup.go, `defaultSecretName` and `claimSecretName`.
use homelab_db_provisioner.Prelude.{
  Bool, not, ◌&&◌, Option, none, some, List, [], ◌∷◌, ◌++◌, Text, txt, text_eq, is_empty,
  trim_space, join, Result, ok, err, if◌then◌else◌,
}
use homelab_db_provisioner.Config.{DatabaseConfig, DatabaseServer, Config, is_migrated}
use homelab_db_provisioner.World.{Env, Err, new_error}
use homelab_db_provisioner.Slug.{slugify}

module _ (env : Env) where
  unfoldable pub default_secret_name : Text → Text
  default_secret_name database = slugify env.to_lower database ++ txt "-credentials"

-- The test of one entry: it is live and has the name.
unfoldable pub is_claimed_by : Text → DatabaseConfig → Bool
is_claimed_by name d = text_eq d.k8s_secret name && not (is_migrated d)

-- The first live entry of a server that has the name.
unfoldable pub find_claim : Text → List DatabaseConfig → Option DatabaseConfig
find_claim name [] = none
find_claim name (d ∷ ds) =
    let rest = find_claim name ds in if is_claimed_by name d then some d else rest

-- The two loops: the first live entry that has the name, with its server.
unfoldable pub find_claim_in : Text → List DatabaseServer → Option (DatabaseServer × DatabaseConfig)
find_claim_in name [] = none
find_claim_in name (s ∷ ss) = elim (find_claim name s.databases) [
  | some d ↦ some (s, d)
  | none ↦ find_claim_in name ss
]

-- The test of a name that is not blank.
unfoldable pub claim_name : Env → Config → Text → Result Err Text
claim_name env cfg name = elim (env.secret_name_errors name) [
  | e ∷ es ↦ err (
      new_error
        (txt "invalid secret name \"" ++ (name ++ (txt "\": " ++ join (txt "; ") (e ∷ es)))))
  | [] ↦ elim (find_claim_in name cfg.servers) [
    | some (s, d) ↦ err (
        new_error (
          txt "secret name \""
          ++ (name ++ (txt "\" is already used by " ++ (s.name ++ (txt "/" ++ d.database))))))
    | none ↦ ok name
  ]
]

unfoldable pub claim_secret_name : Env → Config → Text → Text → Result Err Text
unfolding claim_name
claim_secret_name env cfg requested database =
    let name = trim_space requested in
    claim_name env cfg (if is_empty name then default_secret_name env database else name)
