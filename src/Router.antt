-- ===== src/Router.antt =====
-- Routes of the applications: runtime/router.
pub mod Path
pub mod Registry
mod Tests
