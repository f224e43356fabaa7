-- ===== src/Store.antt =====
-- integrations/telegram/dashboard_store.py: the tables of routes, channels, targets, listener
-- states and route events, and the operations on them. A failed operation rolls its transaction
-- back, so it has no database to return. Foreign keys are enforced.
pub mod Tables
pub mod Arms
pub mod Routes
pub mod Listeners
pub mod Channels
pub mod Joined
pub mod Commands
pub mod OneArm
