-- ===== src/Site.antt =====
-- The admin site as a whole: the routes of `newAdminHandler`, `basicAuth`, the page of
-- `handleIndex` and `renderIndex`, all of admin.go.
pub mod Request
pub mod Routes
pub mod Page
pub mod Handlers
pub mod Serve
pub mod RefusalLaws
pub mod RouteLaws
pub mod GetLaws
