-- ===== src/Startup/GuardLaws.antt =====
-- What has to hold before `main` starts the admin site or the work in the foreground.
use homelab_db_provisioner.Prelude.{
  ◌≡◌, refl, sym, subst, ◌⊎◌, inl, inr, Bool-cases, All, All-append, trim_space, Bool, true, false,
  ◌||◌, Option, none, some, List, [], ◌∷◌, Text, is_empty, text_eq_iff, any, Result, ok, err, arith,
  if◌then◌else◌,
}
use homelab_db_provisioner.Site.Request.{Settings}
use homelab_db_provisioner.Site.Serve.{is_authorized}
use homelab_db_provisioner.Startup.{
  Task, Started, admin_server, backup_scheduler, watch, once, Pod, get_config_path, admin_address,
  with_manager, namespace_or_fatal, with_client, in_pod, is_on, read_namespace_file,
  service_account_namespace_file, init_k8s_secrets_manager, start_work, start_managed, main,
}

abbrev pub is_admin_server : Task → Bool
is_admin_server (admin_server address path) = true
is_admin_server _ = false

-- No admin site among tasks that had none.
with_manager-none :
    (s : Settings) (r : Result Text Text) → any is_admin_server (with_manager s [] r).tasks ≡ false
unfolding start_work
with_manager-none s (err e) = refl
with_manager-none s (ok n) = ground arith

start_managed-none :
    (s : Settings) (pod : Pod) → any is_admin_server (start_managed s pod []).tasks ≡ false
unfolding start_managed start_work
start_managed-none s pod = ground (arith, with_manager-none s (init_k8s_secrets_manager pod))

-- The admin site is started only with a name and a password.
main-credentials :
    (s : Settings) (pod : Pod)
    → any is_admin_server (main s pod).tasks ≡ true
    → (is_empty s.admin_user || is_empty s.admin_password) ≡ false
unfolding main
main-credentials s pod h = ground (arith, start_managed-none s pod)

authorized-names :
    (s : Settings) (user password : Text)
    → is_authorized s (some (user, password)) ≡ true
    → (user ≡ s.admin_user) × (password ≡ s.admin_password)
unfolding is_authorized
authorized-names s user password h =
    ground (arith, text_eq_iff user s.admin_user, text_eq_iff password s.admin_password)

-- If `main` starts the admin site, then whoever its Basic authentication lets in has given a user
-- name and a password, neither of which is empty.
pub main-login :
    (s : Settings) (pod : Pod) (login : Option (Text × Text))
    → any is_admin_server (main s pod).tasks ≡ true
    → is_authorized s login ≡ true
    → (user : Text) × (password : Text) × (login ≡ some (user, password))
      × (is_empty user ≡ false)
      × (is_empty password ≡ false)
unfolding is_authorized
main-login s pod none h k = cc
main-login s pod (some (user, password)) h k =
    let (u, p) = authorized-names s user password k in
    let e = main-credentials s pod h in
    (user, password, refl, rw u (ground arith), rw p (ground arith))

-- The pod in which managed Secrets are possible: it is in a cluster, it has a client, and its
-- file with the namespace names one.
pub record Serves (pod : Pod) (namespace : Text) : Type 0 where
  pub contents : Text
  pub in_cluster : pod.in_cluster ≡ ok tt
  pub client : pod.new_client ≡ ok tt
  pub file : pod.namespace_file ≡ ok contents
  pub trimmed : namespace ≡ trim_space contents
  pub named : is_empty namespace ≡ false

-- The work in the foreground manages Secrets in the namespace.
abbrev pub WorksIn : Text → Task → Type 0
WorksIn namespace (admin_server address path) = Unit {0}
WorksIn namespace (backup_scheduler path) = Unit {0}
WorksIn namespace (watch manager) = manager ≡ some namespace
WorksIn namespace (once manager) = manager ≡ some namespace

-- The task is the admin site.
abbrev pub IsSite : Task → Type 0
IsSite (admin_server address path) = Unit {0}
IsSite _ = ⊥

-- All is set up and the work goes on, or the process has ended with a message, and started at most
-- the admin site.
abbrev pub IsManaged : Pod → Started → Type 0
IsManaged pod started =
    ((namespace : Text) × Serves pod namespace
      × (started.fatal ≡ none)
      × All (WorksIn namespace) started.tasks)
    ⊎ ((message : Text) × (started.fatal ≡ some message) × All IsSite started.tasks)

file-names :
    (path : Text) (r : Result Text Text) (namespace : Text)
    → namespace_or_fatal (read_namespace_file path r) ≡ ok namespace
    → (contents : Text) × (r ≡ ok contents)
      × (namespace ≡ trim_space contents)
      × (is_empty namespace ≡ false)
unfolding read_namespace_file
file-names path (err e) namespace h = cc
file-names path (ok contents) namespace h = elim (Bool-cases (is_empty (trim_space contents))) [
  | inl e ↦ absurd (ground arith)
  | inr e ↦
      let same : trim_space contents ≡ namespace = ground arith in
      (contents, refl, sym same, subst (λ x. is_empty x ≡ false) same e)
]

with_client-Serves :
    (file : Result Text Text) (client : Result Text (Unit {0})) (namespace : Text)
    → with_client file client ≡ ok namespace
    → Serves (record { in_cluster = ok tt; new_client = client; namespace_file = file }) namespace
with_client-Serves file (err e) namespace h = cc
with_client-Serves file (ok _) namespace h =
    let (contents, read, trimmed, named) =
      file-names service_account_namespace_file file namespace h in
    record {
      contents = contents;
      in_cluster = refl;
      client = refl;
      file = read;
      trimmed = trimmed;
      named = named;
    }

in_pod-Serves :
    (client : Result Text (Unit {0})) (file : Result Text Text) (r : Result Text (Unit {0}))
    (namespace : Text)
    → in_pod (record { in_cluster = r; new_client = client; namespace_file = file }) r
      ≡ ok namespace
    → Serves (record { in_cluster = r; new_client = client; namespace_file = file }) namespace
in_pod-Serves client file (err e) namespace h = cc
in_pod-Serves client file (ok _) namespace h = with_client-Serves file client namespace h

init-Serves :
    (pod : Pod) (namespace : Text)
    → init_k8s_secrets_manager pod ≡ ok namespace
    → Serves pod namespace
unfolding init_k8s_secrets_manager
init-Serves pod namespace h =
    in_pod-Serves pod.new_client pod.namespace_file pod.in_cluster namespace h

IsSite-WorksIn : (namespace : Text) (t : Task) → IsSite t → WorksIn namespace t
IsSite-WorksIn namespace (admin_server address path) h = tt
IsSite-WorksIn namespace (backup_scheduler path) h = tt
IsSite-WorksIn namespace (watch m) h = absurd h
IsSite-WorksIn namespace (once m) h = absurd h

All-WorksIn : (namespace : Text) (ts : List Task) → All IsSite ts → All (WorksIn namespace) ts
All-WorksIn namespace [] h = tt
All-WorksIn namespace (t ∷ ts) (h, hs) = (IsSite-WorksIn namespace t h, All-WorksIn namespace ts hs)

work-WorksIn :
    (watched : Bool) (namespace : Text)
    → WorksIn namespace (if watched then watch (some namespace) else once (some namespace))
work-WorksIn true namespace = refl
work-WorksIn false namespace = refl

with_manager-IsManaged :
    (s : Settings) (pod : Pod) (tasks : List Task) (r : Result Text Text)
    → ((namespace : Text) → r ≡ ok namespace → Serves pod namespace)
    → All IsSite tasks
    → IsManaged pod (with_manager s tasks r)
unfolding start_work
with_manager-IsManaged s pod tasks (err e) k h = inr (e, refl, h)
with_manager-IsManaged s pod tasks (ok n) k h = inl (
  n,
  k n refl,
  refl,
  All-append (WorksIn n) tasks _ (All-WorksIn n tasks h)
      (tt, (work-WorksIn (is_on s.watch_mode) n, tt)),
)

start_managed-IsManaged :
    (s : Settings) (pod : Pod) (tasks : List Task)
    → is_on s.use_kubernetes_secrets ≡ true
    → All IsSite tasks
    → IsManaged pod (start_managed s pod tasks)
unfolding start_managed
start_managed-IsManaged s pod tasks h k =
    rw h (with_manager-IsManaged s pod tasks (init_k8s_secrets_manager pod) (init-Serves pod) k)

with_site-IsManaged :
    (missing : Bool) (s : Settings) (pod : Pod) (message : Text)
    → is_on s.use_kubernetes_secrets ≡ true
    → IsManaged pod (
        if missing
        then record { tasks = []; fatal = some message }
        else start_managed s pod (admin_server (admin_address s) (get_config_path s) ∷ []))
with_site-IsManaged true s pod message h = inr (message, refl, tt)
with_site-IsManaged false s pod message h = start_managed-IsManaged s pod _ h (tt, tt)

-- With USE_KUBERNETES_SECRETS=true, either the pod is in a cluster, has a client and has a file that
-- names a namespace, and then `main` does not end, and all work in the foreground manages Secrets
-- in that namespace; or `main` ends with a fatal message, having started at most the admin site, so
-- that no work and no backup runs.
pub main-IsManaged :
    (s : Settings) (pod : Pod) → is_on s.use_kubernetes_secrets ≡ true → IsManaged pod (main s pod)
unfolding main
main-IsManaged s pod h = elim (Bool-cases (is_on s.admin_site)) [
  | inl e ↦
      rw e (with_site-IsManaged (is_empty s.admin_user || is_empty s.admin_password) s pod _ h)
  | inr e ↦ rw e (start_managed-IsManaged s pod [] h tt)
]
