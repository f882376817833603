-- ===== src/World.antt =====
-- What the service acts on, and the actions on it.
pub mod Records
pub mod State
pub mod Monad
pub mod Events
pub mod Keeps
pub mod Returns
