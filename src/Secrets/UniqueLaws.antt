-- ===== src/Secrets/UniqueLaws.antt =====
-- How many live entries of the config use the name of a Secret.
use homelab_db_provisioner.Prelude.{
  ◌≡◌, refl, ap, subst, ◌⊎◌, inl, inr, ℕ, zero, suc, ◌+◌, ◌≤◌, true, false, Option, none, some,
  List, [], ◌∷◌, ◌++◌, Text, text_eq_iff, is_empty, Result, ok, err, arith, if◌then◌else◌,
  get_elem?, set,
}
use homelab_db_provisioner.Config.{DatabaseConfig, DatabaseServer, Config}
use homelab_db_provisioner.World.{Env, Err}
use homelab_db_provisioner.Secrets.Names.{
  is_claimed_by, find_claim, find_claim_in, claim_name, claim_secret_name,
}

-- 1 for a live entry that has the name
unfoldable pub claim : Text → DatabaseConfig → ℕ
claim name d = if is_claimed_by name d then 1 else 0

unfoldable pub claims : Text → List DatabaseConfig → ℕ
unfolding claim
claims name [] = 0
claims name (d ∷ ds) = claim name d + claims name ds

-- How many live entries of the servers have the name.
unfoldable pub claims_in : Text → List DatabaseServer → ℕ
claims_in name [] = 0
claims_in name (s ∷ ss) = claims name s.databases + claims_in name ss

-- No name but the empty one is used twice.
abbrev pub UniqueNames : Config → Type 0
UniqueNames cfg = (name : Text) → is_empty name ≡ false → claims_in name cfg.servers ≤ 1

module _ (name : Text) where
  find_claim-none : (ds : List DatabaseConfig) → find_claim name ds ≡ none → claims name ds ≡ 0
  unfolding find_claim claims claim
  find_claim-none [] h = refl
  find_claim-none (d ∷ ds) h = ground (arith, find_claim-none ds)

  pub find_claim_in-none :
      (ss : List DatabaseServer) → find_claim_in name ss ≡ none → claims_in name ss ≡ 0
  unfolding find_claim_in claims_in
  find_claim_in-none [] h = refl
  find_claim_in-none (s ∷ ss) h = ground (arith, find_claim-none s.databases, find_claim_in-none ss)

  claims-append :
      (ds : List DatabaseConfig) (d : DatabaseConfig)
      → claims name (ds ++ (d ∷ [])) ≡ claims name ds + claim name d
  unfolding claims
  claims-append [] d = omega arith
  claims-append (x ∷ ds) d = omega (arith, claims-append ds d)

  pub claims_in-set :
      (ss : List DatabaseServer) (i : ℕ) (s s' : DatabaseServer)
      → get_elem? ss i ≡ some s
      → claims_in name (set ss i s') + claims name s.databases
        ≡ claims_in name ss + claims name s'.databases
  unfolding claims_in
  claims_in-set [] i s s' h = cc
  claims_in-set (x ∷ ss) zero s s' h = ground arith
  claims_in-set (x ∷ ss) (suc i) s s' h = omega (arith, claims_in-set ss i s s' h)

  pub claim-cases :
      (d : DatabaseConfig) → (claim name d ≡ 0) ⊎ ((claim name d ≡ 1) × (d.k8s_secret ≡ name))
  unfolding claim is_claimed_by
  claim-cases d = ground (arith, text_eq_iff d.k8s_secret name)

-- A name that an entry may take: none, or one that no live entry has.
abbrev pub Free : Config → DatabaseConfig → Type 0
Free cfg d = (is_empty d.k8s_secret ≡ true) ⊎ (find_claim_in d.k8s_secret cfg.servers ≡ none)

-- Of the three outcomes, the last one alone returns a name.
chosen :
    {name got : Text} (es : List Text) (o : Option (DatabaseServer × DatabaseConfig))
    (f : Text → List Text → Err) (g : DatabaseServer → DatabaseConfig → Err)
    → ◌≡◌ {A = Result Err Text}
        (elim es [
          | e ∷ es' ↦ err (f e es')
          | [] ↦ elim o [ some (s, d) ↦ err (g s d) | none ↦ ok name ]
        ])
        (ok got)
    → (o ≡ none) × (name ≡ got)
chosen (e ∷ es) o f g h = cc
chosen [] (some (s, d)) f g h = cc
chosen [] none f g h = (refl, ground arith)

claim_name-none :
    (env : Env) (cfg : Config) (name got : Text)
    → claim_name env cfg name ≡ ok got
    → find_claim_in got cfg.servers ≡ none
unfolding claim_name
claim_name-none env cfg name got h =
    let (o, e) = chosen (env.secret_name_errors name) (find_claim_in name cfg.servers) _ _ h in
    subst (λ n. find_claim_in n cfg.servers ≡ none) e o

-- A name that `claimSecretName` returns is used by no live entry.
pub claim_secret_name-none :
    (env : Env) (cfg : Config) (requested database name : Text)
    → claim_secret_name env cfg requested database ≡ ok name
    → find_claim_in name cfg.servers ≡ none
unfolding claim_secret_name
claim_secret_name-none env cfg requested database name h = claim_name-none env cfg _ name h

module _ (cfg : Config) (i : ℕ) (server server' : DatabaseServer) (d : DatabaseConfig) where
  -- The names stay unique if an entry with a free name is appended.
  pub append-UniqueNames :
      UniqueNames cfg
      → get_elem? cfg.servers i ≡ some server
      → server'.databases ≡ server.databases ++ (d ∷ [])
      → Free cfg d
      → (name : Text) → is_empty name ≡ false
      → claims_in name (set cfg.servers i server') ≤ 1
  append-UniqueNames u found e free name given = bound (claim-cases name d) free
    where
      total : claims_in name (set cfg.servers i server') ≡ claims_in name cfg.servers + claim name d
      total = omega (
        arith,
        claims_in-set name cfg.servers i server server' found,
        claims-append name server.databases d,
        ap (claims name) e,
      )

      bound :
          (claim name d ≡ 0) ⊎ ((claim name d ≡ 1) × (d.k8s_secret ≡ name))
          → Free cfg d
          → claims_in name (set cfg.servers i server') ≤ 1
      bound (inl z) f = omega (arith, total, z, u name given)
      bound (inr (o, n)) (inl f) = absurd (ground (arith, n, f, given))
      bound (inr (o, n)) (inr f) = omega (
        arith,
        total,
        o,
        find_claim_in-none name cfg.servers (subst (λ k. find_claim_in k cfg.servers ≡ none) n f),
      )
