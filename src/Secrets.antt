-- ===== src/Secrets.antt =====
-- Kubernetes Secrets, k8ssecrets.go: names, contents, reconciliation and rotation.
pub mod Names
pub mod Password
pub mod Contents
pub mod Manager
pub mod PasswordLaws
pub mod Laws
pub mod SeedLaws
pub mod UniqueLaws
