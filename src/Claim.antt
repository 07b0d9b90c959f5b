-- ===== src/Claim.antt =====
-- Address claims: api/sdn/names.go names a Port and a ServiceVIP by the address that it holds, and
-- pkg/registry/sdn/claim/atomic.go writes it so that no address is held twice.
pub mod Decimal
pub mod Name
pub mod Guard
pub mod Store
pub mod Create
pub mod Validate
pub mod Update
mod Examples
