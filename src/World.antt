-- ===== src/World.antt =====
-- What the program asks of the outside: databases, commands, files, S3, Kubernetes, the config
-- file. Each call is an event, and an environment answers it, knowing all earlier calls. Logging,
-- sleeping, and closing of connections and readers have no event.
pub mod Keeps
pub mod Reads
pub mod Inversion
pub mod Runs
use homelab_db_provisioner.Prelude.{
  ℕ, Bool, true, false, Option, none, some, List, [], ◌∷◌, ◌++◌, Text, txt, Result, ok, err,
  if◌then◌else◌,
}
use homelab_db_provisioner.Config.{Config}

pub data Driver : Type 0 where
  postgres mysql : Driver

pub record Conn : Type 0 where
  pub driver : Driver
  pub dsn : Text

-- A program with its arguments, and what is added to its environment.
pub record Command : Type 0 where
  pub program : Text
  pub args : List Text
  pub variables : List Text

pub record Secret : Type 0 where
  pub name : Text
  pub namespace : Text
  pub labels : List (Text × Text)
  pub contents : List (Text × Text)
  pub string_contents : List (Text × Text)

pub data Event : Type 0 where
  -- database/sql: open, ping, a statement, a query by a parameter, the base tables, a count
  sql_open sql_ping : Conn → Event
  sql_exec : Conn → Text → Event
  sql_query : Conn → Text → Text → Event
  sql_tables : Conn → Event
  sql_count : Conn → Text → Event
  -- the MongoDB driver, by the connection string
  mongo_connect mongo_list : Text → Event
  mongo_drop_user : Text → Text → Event
  mongo_create_user : Text → Text → Text → Text → Event
  mongo_insert : Text → Text → Text → Event
  -- commands: alone, with the output to a gzip file, with the input from one, in a pipe
  run_command start_command kill_command wait_command open_pipe : Command → Event
  dump_to feed_from : Command → Text → Event
  -- files
  make_dir create_file close_gzip close_file open_file open_gzip remove_file glob : Text → Event
  -- S3, by the bucket
  s3_client : Event
  s3_put : Text → Text → Text → Event
  s3_list s3_delete s3_get : Text → Text → Event
  -- the copy of an object's body to a file
  save_body : Text → Event
  -- Kubernetes
  secret_get : Text → Text → Event
  secret_create secret_update : Secret → Event
  -- the config file, and the random numbers below a bound
  config_read : Event
  config_write : Config → Event
  random_below : ℕ → Event

-- An error: its text, the code and message of a PostgreSQL error that it wraps, what a failed
-- command wrote, that output again if the error wraps a `*pgDumpError`, and whether it is
-- `EROFS` or `ErrPermission`.
pub record Err : Type 0 where
  pub message : Text
  pub pq : Option (Text × Text)
  pub output : Text
  pub dump : Option Text
  pub read_only : Bool

-- `fmt.Errorf("prefix%w", e)`
unfoldable pub wrap : Text → Err → Err
wrap prefix e = record e { message = prefix ++ e.message }

-- `fmt.Errorf(message)`
unfoldable pub new_error : Text → Err
new_error message = record {
  message = message;
  pq = none;
  output = [];
  dump = none;
  read_only = false;
}

pub data ConfigRead : Type 0 where
  unreadable unparsable : Err → ConfigRead
  parsed : Config → ConfigRead

-- The answers to the calls, and the functions of other packages that the program uses.
pub record Env : Type 0 where
  pub fails : List Event → Event → Option Err
  pub asks : List Event → Event → Result Err Bool
  pub counts : List Event → Event → Result Err ℕ
  pub lists : List Event → Event → Result Err (List Text)
  -- `listDatabases`: no list in the reply, or the names; an entry may lack a name
  pub names : List Event → Event → Result Err (Option (List (Option Text)))
  pub tables : List Event → Event → Result Err (List (Text × Text))
  pub secrets : List Event → Event → Result Err (Option Secret)
  pub config : List Event → ConfigRead
  pub config_path : Text
  pub now : List Event → Text
  -- `url.Parse`, then a new path, and `String`; the same with a new user and password too
  pub url_with_path : Text → Text → Result Err Text
  pub url_with_login : Text → Text → Text → Text → Result Err Text
  -- `filepath.Join`, `filepath.Dir`, `filepath.Base`, `net.SplitHostPort`
  pub join_path : List Text → Text
  pub dir_path : Text → Text
  pub base_path : Text → Text
  pub split_host_port : Text → Result Err (Text × Text)
  -- `validation.IsDNS1123Subdomain`: the errors
  pub secret_name_errors : Text → List Text
  pub to_lower : Text → Text

-- A computation: it extends the calls made so far, the newest first, and ends with a value or
-- returns early.
abbrev pub Exec : Type 0 → Type 0 → Type 0
Exec E A = List Event → Result E A × List Event

module _ {E A : Type 0} where
  unfoldable pub pure : A → Exec E A
  pure a t = (ok a, t)

  unfoldable pub raise : E → Exec E A
  raise e t = (err e, t)

  unfoldable pub lift : Result E A → Exec E A
  lift r t = (r, t)

  -- `none` ends the computation.
  unfoldable pub from_some : E → Option A → Exec E A
  from_some e none = raise e
  from_some e (some a) = pure a

module _ {E A B : Type 0} where
  abbrev pub continue : Result E A → (A → Exec E B) → Exec E B
  continue (ok a) f t = f a t
  continue (err e) f t = (err e, t)

  infixl 5 ◌>>=◌ ◌>>◌
  unfoldable pub ◌>>=◌ : Exec E A → (A → Exec E B) → Exec E B
  unfolding pure raise lift
  ◌>>=◌ m f t = let (r, t') = m t in continue r f t'

  abbrev pub ◌>>◌ : Exec E A → Exec E B → Exec E B
  m >> n = m >>= λ _. n

module _ {E F A : Type 0} where
  -- The error of `m`, made into another.
  abbrev pub map_err : (E → F) → Result E A → Result F A
  map_err f (ok a) = ok a
  map_err f (err e) = err (f e)

  unfoldable pub on_err : (E → F) → Exec E A → Exec F A
  on_err f m t = let (r, t') = m t in (map_err f r, t')

  -- The computation never returns early: its result is a value.
  unfoldable pub try : Exec E A → Exec F (Result E A)
  try m t = let (r, t') = m t in (ok r, t')

abbrev pub from_option : Option Err → Result Err (Unit {0})
from_option none = ok tt
from_option (some e) = err e

module _ {E A : Type 0} where
  -- `for _, a := range as { m(a) }`
  unfoldable pub for_each : List A → (A → Exec E (Unit {0})) → Exec E (Unit {0})
  unfolding ◌>>=◌
  for_each [] m = pure tt
  for_each (a ∷ as') m = m a >> for_each as' m

module _ (env : Env) where
  -- A call that may fail and returns nothing.
  unfoldable pub call : Event → Exec Err (Unit {0})
  call e t = (from_option (env.fails t e), e ∷ t)

  unfoldable pub ask : Event → Exec Err Bool
  ask e t = (env.asks t e, e ∷ t)

  unfoldable pub ask_number : Event → Exec Err ℕ
  ask_number e t = (env.counts t e, e ∷ t)

  unfoldable pub ask_list : Event → Exec Err (List Text)
  ask_list e t = (env.lists t e, e ∷ t)

  unfoldable pub ask_names : Event → Exec Err (Option (List (Option Text)))
  ask_names e t = (env.names t e, e ∷ t)

  unfoldable pub ask_tables : Event → Exec Err (List (Text × Text))
  ask_tables e t = (env.tables t e, e ∷ t)

  unfoldable pub ask_secret : Event → Exec Err (Option Secret)
  ask_secret e t = (env.secrets t e, e ∷ t)

module _ {E : Type 0} where
  -- A call whose failure is ignored, or only logged.
  unfoldable pub call_ignoring : Event → Exec E (Unit {0})
  call_ignoring e t = (ok tt, e ∷ t)

  -- The clock's reading, as RFC 3339 text.
  unfoldable pub ask_now : Env → Exec E Text
  ask_now env t = (ok (env.now t), t)

  unfoldable pub ask_config : Env → Exec E ConfigRead
  ask_config env t = (ok (env.config t), config_read ∷ t)
