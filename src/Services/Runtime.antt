-- ===== src/Services/Runtime.antt =====
-- app/services/runtime_manager.py: the supervisors that run in threads of this process.
pub mod Threads
pub mod Unsupervised
