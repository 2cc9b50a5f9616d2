-- ===== src/Invariant.antt =====
-- The invariant of the whole core, and that every operation keeps it, whether it returns or raises.
pub mod Trace
pub mod Files
pub mod Tunnels
pub mod Profiles
pub mod Supervision
pub mod Runtime
pub mod Reachable
