-- ===== src/Config.antt =====
-- The configuration file of main.go: its types, and the connection strings in it. A JSON file is
-- modelled by the value that it decodes to; a nil slice is the empty one.
pub mod Types
unfoldable pub use Types.*
