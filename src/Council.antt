-- ===== src/Council.antt =====
-- pkg/council: agents that share a conversation, and workers that a supervisor routes to.
pub mod Names
pub mod Swarm
pub mod Supervisor
