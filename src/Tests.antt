-- ===== src/Tests.antt =====
-- Runs of the modelled code at fixed inputs, and the theorems at concrete inputs.
pub mod Data
mod Operations
mod Pages
mod Engines
pub mod Caches
mod Injections
mod Commands
mod Startup
mod Systems
mod Files
