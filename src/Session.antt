-- ===== src/Session.antt =====
-- internal/session: the plan of a client session, its supervised workers, and the run around them.
pub mod Plan
pub mod Supervisor
mod Examples
pub mod Ingresses
pub mod Runtime
