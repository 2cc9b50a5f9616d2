-- ===== src/Infrastructure.antt =====
-- app/infrastructure: the state directory, processes and their identities.
pub mod Store
pub mod Process
pub mod Inspector
pub mod HostKeys
pub mod Keys
