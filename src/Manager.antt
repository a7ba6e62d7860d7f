-- ===== src/Manager.antt =====
-- cmd/main.go: the flags, the options of the manager, and the wiring of the controllers.
pub mod Config
pub mod Options
pub mod Builder
pub mod Setup
pub mod Main
