-- ===== src/Domain.antt =====
-- The domain models of app/domain: check results, profiles, runtime states, snapshots and the
-- exceptions that the layers raise.
pub mod Errors
pub mod Health
pub mod Python
pub mod Profile
pub mod Runtime
pub mod Snapshot
pub mod Registry
