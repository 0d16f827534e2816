-- ===== src/Authorization.antt =====
-- Roles and permissions: internal/app/authorization.go.
pub mod Permissions
pub mod Duties
