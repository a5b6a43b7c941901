-- ===== src/Interface.antt =====
-- The interface layer, kernel01/kernel/interface.
pub mod Events
pub mod Launcher
pub mod Router
mod Tests
