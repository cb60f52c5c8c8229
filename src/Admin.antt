-- ===== src/Admin.antt =====
-- The administration of roles, connections and quotas: what its forms keep, show and recover.
pub mod Policies
pub mod ErrorKeys
pub mod QuotaRecovery
pub mod Roles
