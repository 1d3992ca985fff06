-- ===== src/Lib.antt =====
-- A verification library for the database provisioner: a Go program that reads a JSON config of
-- database servers and creates users and databases on PostgreSQL, MariaDB and MongoDB, keeps
-- passwords in Kubernetes Secrets, backs databases up to files and S3, migrates databases between
-- PostgreSQL servers, and serves an admin site and a JSON API that edit the config.
--
-- How the program is modelled. A function that does I/O is a computation `Exec E A` (World.antt):
-- it extends the list of calls made so far, the newest first, and ends with a value or returns
-- early with an `E`. An environment `Env` answers each call and may let each answer depend on all
-- earlier calls, so a theorem about every environment holds for every behaviour of the databases,
-- the commands, the files, S3 and Kubernetes. Where Go logs an error and goes on, the model has
-- `try`; a loop with `continue` is `for_each` over computations that cannot end early.
-- `process_config` and what it calls have the error type without elements, since `processConfig`
-- always returns nil.
--
-- Which file models what (source files stand at the repository's root):
--   Config/Types      types of main.go, detectDBType
--   World             calls, answers, the computations; World/Keeps, Reads, Inversion and Runs have
--                     the predicates on computations that the proofs use
--   Sql               quoteIdentifier, escapeString and the statements of main.go and migrate.go;
--                     Sql/Reader says what a PostgreSQL statement means
--   Provision         provisionPostgreSQL, provisionPostgreSQLExtensions, provisionMariaDB
--                     (main.go), provisionMongoDB (mongo.go); Provision/Server is the abstract
--                     PostgreSQL server that the first is measured by
--   Slug, Conn        slugify, connStrWithDB, parseMariaDBConn (backup.go), the DSN of
--                     processConfig, parseMongoDBConnStr (mongo.go)
--   Secrets           k8ssecrets.go, generatePassword (admin.go)
--   S3                s3.go
--   Backup            backup.go and the dumps, restores and the schedule of mongo.go
--   Migrate           migrate.go
--   Process           processConfig, connectWithRetry, loadConfig, runOnce, runWatchMode,
--                     logDryRunK8sSecret and the logged summary (main.go)
--   Http, Admin       requests, responses, and the form handlers of admin.go
--   Api               api.go
--   Health            healthFor and backupAge of admin.go
--   Site              newAdminHandler, basicAuth, handleIndex, renderIndex (admin.go)
--   Startup           main, getConfigPath (main.go), startAdminServer, startBackupScheduler
--                     (backup.go), readNamespaceFile, initK8sSecretsManager (k8ssecrets.go)
--   Tests             the theorems at concrete inputs
--
-- How the parts interact: `main` of Startup starts the admin site, the backup scheduler and, at the
-- end, `watch` or `run_once` of Process. `process_config` runs the migrations of Migrate, then for
-- each server connects, takes passwords from Secrets, provisions, and restores a new database from
-- Backup. `serve` of Site checks a request and calls the handlers of Admin and Api, which read the
-- config, change it and write it back; that of "rotate" runs Secrets and `process_config`. Backup
-- and Migrate use Conn, Slug and S3.
--
-- The abstract server. `replay` of Provision/Server computes, from the calls made and the failures
-- that the environment reports, which roles, databases and grants a PostgreSQL server has. A
-- statement that Sql/Reader knows has its effect if it succeeds, and none if it fails. Any other
-- text is counted as unread, also if it fails or is executed on another connection, where only
-- CREATE EXTENSION is known to leave this state alone. A state with no unread text is known, and
-- only in known states do the hypotheses speak: that the server's catalogue queries agree with the
-- state, and for the theorems on success that no valid statement fails. A valid statement has
-- names that PostgreSQL takes unchanged between quotation marks (`is_plain`), a password without a
-- NUL, and all privileges if it grants any.
--
-- Choices. Texts are lists of character codes. A Go map is an association list. The config file is
-- modelled by the value that it decodes to, or the error of reading or decoding it; encoding a
-- config does not fail. A nil slice and an empty one are the same. Of the standard library and of
-- third-party packages, url.Parse with String, filepath, net.SplitHostPort, strings.ToLower and
-- validation.IsDNS1123Subdomain are fields of `Env`; the check of http.CrossOriginProtection and
-- the parsing of dates are parameters. Request paths are clean and without escapes: net/http
-- redirects an unclean one before any handler. Logging, sleeping, contexts with their timeouts, and
-- closing connections and readers have no event. `configMu` makes each handler's reading and
-- writing one step, so a handler is one computation; the goroutine of "rotate" is run after its
-- handler.
--
-- Bounds and fuel. Go's `int` is `ℤ`; `atoi` refuses what does not fit 64 bits. Counts and lengths
-- are ℕ. `squeeze` of Slug runs on fuel, the length of the text: each round that does not end makes
-- the text shorter. `itoa` runs on fuel that exceeds the number of digits. The endless loops of
-- `runWatchMode` and `startBackupScheduler` are functions of the list of the file times, or of the
-- times of waking, that they see. All other loops run over lists, or over the number of attempts.
--
-- Not modelled: the HTML template, which is text, the listening of the HTTP server, the ticking of
-- clocks, and the set-up of the S3 client, which are calls of libraries. What is logged has no
-- event, so the lines of Process/Summary stand beside `process_config`.
pub mod Prelude
pub mod Config
pub mod World
pub mod Sql
pub mod Provision
pub mod Slug
pub mod Conn
pub mod Secrets
pub mod S3
pub mod Backup
pub mod Migrate
pub mod Process
pub mod Http
pub mod Admin
pub mod Api
pub mod Health
pub mod Site
pub mod Startup
pub mod Tests
