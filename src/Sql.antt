-- ===== src/Sql.antt =====
-- The SQL texts of main.go: quoting of identifiers, escaping of string literals, and, in the
-- children, the statements of `provisionPostgreSQL` and `provisionMariaDB`.
pub mod Postgres
pub mod MariaDb
pub mod Literal
pub mod Reader
pub mod ReaderParts
pub mod ReaderLaws
pub mod Escape
unfoldable pub use Escape.*
