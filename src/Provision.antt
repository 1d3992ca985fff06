-- ===== src/Provision.antt =====
-- Provisioning of one database: `provisionPostgreSQL`, `provisionPostgreSQLExtensions` and
-- `provisionMariaDB` of main.go, `provisionMongoDB` of mongo.go.
pub mod Postgres
pub mod MariaDb
pub mod MongoDb
pub mod Statement
pub mod DryRun
pub mod Calls
pub mod Server
pub mod Replay
pub mod Refines
pub mod Succeeds
