-- ===== src/Access.antt =====
-- domain/access: departments, permissions and the rules of user management.
pub mod Departments
pub mod Permissions
pub mod Resolve
pub mod Ceiling
pub mod Catalog
pub mod UserPolicy
mod Tests
