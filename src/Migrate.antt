-- ===== src/Migrate.antt =====
-- Migration of a PostgreSQL database to another server, migrate.go.
pub mod Target
pub mod Counts
pub mod Copy
pub mod Run
pub mod CountsLaws
pub mod CopyCalls
pub mod DropLaws
