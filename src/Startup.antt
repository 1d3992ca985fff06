-- ===== src/Startup.antt =====
-- `main` and what it sets up before the program works: `getConfigPath`, `startAdminServer` up to
-- the listening, `initK8sSecretsManager` with `readNamespaceFile`, and `startBackupScheduler`.
pub mod GuardLaws
use homelab_db_provisioner.Prelude.{
  Bool, true, false, ◌||◌, Option, none, some, List, [], ◌∷◌, ◌++◌, Text, txt, text_eq, is_empty,
  trim_space, Result, ok, err, if◌then◌else◌,
}
use homelab_db_provisioner.Config.{Config}
use homelab_db_provisioner.World.{Env, Err, Exec, pure, ◌>>=◌, ◌>>◌, try}
use homelab_db_provisioner.Backup.Schedule.{Time, run_backups}
use homelab_db_provisioner.Process.Load.{load_config}
use homelab_db_provisioner.Site.Request.{Settings}

-- What `main` starts: the two goroutines, with the address and the config file, and the work in
-- the foreground, with the namespace of the Secrets if they are managed.
pub data Task : Type 0 where
  admin_server : Text → Text → Task
  backup_scheduler : Text → Task
  watch once : Option Text → Task

-- The tasks started, in their order, and the message of `log.Fatal` if that ended the process.
pub record Started : Type 0 where
  pub tasks : List Task
  pub fatal : Option Text

-- What the libraries and the file system of the pod answer: `rest.InClusterConfig`,
-- `kubernetes.NewForConfig`, and the file with the namespace.
pub record Pod : Type 0 where
  pub in_cluster : Result Text (Unit {0})
  pub new_client : Result Text (Unit {0})
  pub namespace_file : Result Text Text

unfoldable pub get_config_path : Settings → Text
get_config_path s = if is_empty s.config_path then txt "/config/config.json" else s.config_path

unfoldable pub admin_address : Settings → Text
admin_address s = txt ":" ++ (if is_empty s.admin_port then txt "8080" else s.admin_port)

unfoldable pub service_account_namespace_file : Text
service_account_namespace_file = txt "/var/run/secrets/kubernetes.io/serviceaccount/namespace"

-- The namespace in a file, by what reading the file gave.
unfoldable pub read_namespace_file : Text → Result Text Text → Result Text Text
read_namespace_file path (err e) = err (txt "read namespace file " ++ (path ++ (txt ": " ++ e)))
read_namespace_file path (ok contents) =
    if is_empty (trim_space contents)
    then err (txt "namespace file " ++ (path ++ txt " is empty"))
    else ok (trim_space contents)

abbrev namespace_or_fatal : Result Text Text → Result Text Text
namespace_or_fatal (err e) = err (txt "failed to determine Kubernetes namespace: " ++ e)
namespace_or_fatal (ok namespace) = ok namespace

abbrev with_client : Result Text Text → Result Text (Unit {0}) → Result Text Text
with_client file (err e) = err (txt "failed to create Kubernetes client: " ++ e)
with_client file (ok _) =
    namespace_or_fatal (read_namespace_file service_account_namespace_file file)

abbrev in_pod : Pod → Result Text (Unit {0}) → Result Text Text
in_pod pod (err e) =
    err (txt "USE_KUBERNETES_SECRETS=true requires running inside a Kubernetes pod: " ++ e)
in_pod pod (ok _) = with_client pod.namespace_file pod.new_client

-- The namespace of the manager, or the message of the fatal error.
unfoldable pub init_k8s_secrets_manager : Pod → Result Text Text
unfolding read_namespace_file
init_k8s_secrets_manager pod = in_pod pod pod.in_cluster

abbrev pub is_on : Text → Bool
is_on value = text_eq value (txt "true")

abbrev died : List Task → Text → Started
died tasks message = record { tasks = tasks; fatal = some message }

-- The scheduler, and the work in the foreground.
unfoldable pub start_work : Settings → List Task → Option Text → Started
start_work s tasks manager = record {
  tasks =
      tasks
      ++ (backup_scheduler (get_config_path s)
          ∷ ((if is_on s.watch_mode then watch manager else once manager) ∷ []));
  fatal = none;
}

abbrev with_manager : Settings → List Task → Result Text Text → Started
with_manager s tasks (err message) = died tasks message
with_manager s tasks (ok namespace) = start_work s tasks (some namespace)

unfoldable pub start_managed : Settings → Pod → List Task → Started
unfolding start_work
start_managed s pod tasks =
    if is_on s.use_kubernetes_secrets
    then with_manager s tasks (init_k8s_secrets_manager pod)
    else start_work s tasks none

unfoldable pub main : Settings → Pod → Started
unfolding start_managed
main s pod =
    if is_on s.admin_site
    then if is_empty s.admin_user || is_empty s.admin_password
      then died [] (txt "ADMIN_SITE=true requires ADMIN_USER and ADMIN_PASSWORD to be set")
      else start_managed s pod (admin_server (admin_address s) (get_config_path s) ∷ [])
    else start_managed s pod []

module _ (env : Env) where
  abbrev back_up_loaded : Time → Result Err Config → Exec ⊥ (Unit {0})
  back_up_loaded t (err e) = pure tt
  back_up_loaded t (ok config) = run_backups env config t

  -- The endless loop, as a function of the times at which it wakes.
  unfoldable pub start_backup_scheduler : List Time → Exec ⊥ (Unit {0})
  start_backup_scheduler [] = pure tt
  start_backup_scheduler (t ∷ ts) = do
    config ← try (load_config env)
    back_up_loaded t config
    start_backup_scheduler ts
