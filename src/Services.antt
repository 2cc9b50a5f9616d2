-- ===== src/Services.antt =====
-- app/services: the core's services.
pub mod Options
pub mod Probe
pub mod RemotePort
pub mod Tunnel
pub mod Profiles
pub mod LocalProxy
pub mod Supervisor
pub mod Runtime
pub mod Doctor
pub mod Setup
