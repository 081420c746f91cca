-- ===== src/Permissions.antt =====
-- modules/permissions/permissions.service.ts: the permission matrix of a tenant and its cache.
-- A tenant id is a uuid, so that the key `${tenantId}::${role}` is the pair, and a prefix of it the tenant.
-- A row is found by its tenant and role, which are unique. Each call is one step: it sees no other
-- between its read of a row and its write of the cache.
pub mod Catalog
pub mod Service
pub mod Sets
pub mod Coherence
pub mod History
pub mod Authority
