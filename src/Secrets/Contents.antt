-- ===== src/Secrets/Contents.antt =====
-- What a Secret holds after it was created or overwritten, and which call stores a password.
use homelab_db_provisioner.Prelude.{
  ◌≡◌, refl, ◌⊎◌, inl, inr, Bool, true, false, Option, none, some, List, [], ◌∷◌, ◌++◌, Text, txt,
  text_eq, Result, ok, err, arith, if◌then◌else◌,
}
use homelab_db_provisioner.Prelude.Dict.{
  lookup, insert, erase, get_or, lookup-erase, lookup-insert, text_eq_refl,
}
use homelab_db_provisioner.Config.{DatabaseConfig}
use homelab_db_provisioner.World.{wrap, Env, Event, Err, Secret, secret_create, secret_update}
use homelab_db_provisioner.Secrets.Manager

-- The Secret gives a pod this password.
abbrev pub HasPassword : Text → List (Text × Text) → Type 0
HasPassword password contents = lookup Manager.password_key contents ≡ some password

-- A Secret with this name in this namespace, marked as one of this program, with the password.
pub record IsNew (namespace name password : Text) (s : Secret) : Type 0 where
  pub is_named : s.name ≡ name
  pub is_placed : s.namespace ≡ namespace
  pub is_marked : Manager.is_managed s ≡ true
  pub has_password : HasPassword password s.contents

-- The Secret that was found, with the password in place of what it held, and with no text that
-- would hide it.
pub record IsChanged (password : Text) (found s : Secret) : Type 0 where
  pub was_marked : Manager.is_managed found ≡ true
  pub same_name : s.name ≡ found.name
  pub same_namespace : s.namespace ≡ found.namespace
  pub same_labels : s.labels ≡ found.labels
  pub has_password : HasPassword password s.contents
  pub not_hidden : lookup Manager.password_key s.string_contents ≡ none

-- The call that stores the password: a missing Secret is created, one that was found is updated.
abbrev pub Stores : Text → Text → Text → Option Secret → Event → Type 0
Stores namespace name password none (secret_create s) = IsNew namespace name password s
Stores namespace name password (some found) (secret_update s) = IsChanged password found s
Stores namespace name password _ _ = ⊥

module _ (password : Text) where
  connection_first :
      (value : Text) (contents : List (Text × Text))
      → HasPassword password contents
      → HasPassword password (insert Manager.connection_key value contents)
  unfolding Manager.connection_key Manager.password_key text_eq txt
  connection_first value contents h =
      ground (arith, lookup-insert Manager.connection_key Manager.password_key value contents)

  password_first :
      (contents : List (Text × Text))
      → HasPassword password (insert Manager.password_key password contents)
  password_first contents = ground (
    arith,
    lookup-insert Manager.password_key Manager.password_key password contents,
    text_eq_refl Manager.password_key,
  )

  -- The two forms of the contents of a Secret.
  abbrev alone : List (Text × Text)
  alone = (Manager.password_key, password) ∷ []

  abbrev joined : Text → List (Text × Text)
  joined value = (Manager.password_key, password) ∷ ((Manager.connection_key, value) ∷ [])

  abbrev pub Form : List (Text × Text) → Type 0
  Form entries = (entries ≡ alone) ⊎ ((value : Text) × (entries ≡ joined value))

  built-Form :
      (r : Result Err Text) (f : Err → Err) (entries : List (Text × Text))
      → ◌≡◌ {A = Result Err (List (Text × Text))}
          (elim r [ err e ↦ err (f e) | ok v ↦ ok (joined v) ])
          (ok entries)
      → Form entries
  built-Form (ok v) f entries h = inr (v, ground arith)
  built-Form (err e) f entries h = absurd (ground arith)

  if-Form :
      (b : Bool) (r : Result Err Text) (f : Err → Err) (entries : List (Text × Text))
      → ◌≡◌ {A = Result Err (List (Text × Text))}
          (if b then elim r [ err e ↦ err (f e) | ok v ↦ ok (joined v) ] else ok alone)
          (ok entries)
      → Form entries
  if-Form true r f entries h = built-Form r f entries h
  if-Form false r f entries h = inl (ground arith)

  module _ (env : Env) (root : Text) (db : DatabaseConfig) where
    pub secret_data-Form :
        (entries : List (Text × Text))
        → Manager.secret_data env root db password ≡ ok entries
        → Form entries
    unfolding Manager.secret_data
    secret_data-Form entries h =
        if-Form db.requires_connect_string (Manager.build_connect_string env root db password)
          (wrap (txt "build connection string for " ++ (db.k8s_secret ++ txt ": "))) entries h

  pub HasPassword-of_Form :
      (entries : List (Text × Text)) → Form entries → HasPassword password entries
  unfolding lookup
  HasPassword-of_Form entries (inl e) = rw e (ground (arith, text_eq_refl Manager.password_key))
  HasPassword-of_Form entries (inr (v, e)) =
      rw e (ground (arith, text_eq_refl Manager.password_key))

  alone_hidden :
      (m : List (Text × Text)) → lookup Manager.password_key (erase Manager.password_key m) ≡ none
  alone_hidden m = ground (
    arith,
    lookup-erase Manager.password_key Manager.password_key m,
    text_eq_refl Manager.password_key,
  )

  pub overwrite-IsChanged :
      (entries : List (Text × Text)) (found : Secret)
      → Manager.is_managed found ≡ true
      → Form entries
      → IsChanged password found (Manager.overwrite entries found)
  unfolding Manager.overwrite
  overwrite-IsChanged entries found marked (inl e) = rw e record {
    was_marked = marked;
    same_name = refl;
    same_namespace = refl;
    same_labels = refl;
    has_password = password_first found.contents;
    not_hidden = alone_hidden found.string_contents;
  }
  overwrite-IsChanged entries found marked (inr (v, e)) = rw e record {
    was_marked = marked;
    same_name = refl;
    same_namespace = refl;
    same_labels = refl;
    has_password =
        connection_first v (insert Manager.password_key password found.contents)
          (password_first found.contents);
    not_hidden = ground (
      arith,
      lookup-erase Manager.connection_key Manager.password_key
          (erase Manager.password_key found.string_contents),
      alone_hidden found.string_contents,
    );
  }

pub new_secret-IsNew :
    (env : Env) (namespace name password : Text) (entries : List (Text × Text))
    → HasPassword password entries
    → IsNew namespace name password (Manager.new_secret env namespace name entries)
unfolding Manager.new_secret Manager.is_managed get_or lookup text_eq Manager.managed_by_label
    Manager.managed_by_value txt
new_secret-IsNew env namespace name password entries h = record {
  is_named = refl;
  is_placed = refl;
  is_marked = refl;
  has_password = h;
}
