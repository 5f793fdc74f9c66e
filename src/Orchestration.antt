-- ===== src/Orchestration.antt =====
-- Starting and stopping a deployment: the modules of orchestration/drivers_orchestration.py and otel.py.
pub mod Json
pub mod Options
pub mod Otel
pub mod Docker
pub mod Config
pub mod Wait
pub mod Stop
pub mod Run
pub mod Runs
pub mod Tests
