-- ===== src/Api.antt =====
-- The JSON API, api.go. A handler takes the path's values as texts and the body as it decodes,
-- `none` if it does not.
pub mod Common
pub mod Servers
pub mod Databases
pub mod CreateLaws
pub mod ResponseLaws
