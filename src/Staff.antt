-- ===== src/Staff.antt =====
-- app/schemas/authorization.py, app/services/authorization_service.py and
-- app/repositories/staff_repository.py: who may act in a business. The children hold the permission
-- matrix, the rows and queries, the service, and what is proved.
pub mod Permissions
pub mod Roles
pub mod Rows
pub mod Rules
pub mod Members
pub mod Invitations
pub mod Changes
pub mod Accepted
pub mod Authority
pub mod Access
pub mod Specialists
pub mod Derived
