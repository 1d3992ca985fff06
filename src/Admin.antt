-- ===== src/Admin.antt =====
-- The form handlers of the admin site, admin.go.
pub mod Row
pub mod Fields
pub mod Edit
pub mod SecretEdit
pub mod Add
pub mod OneRow
pub mod EditLaws
pub mod AddLaws
pub mod MoveLaws
