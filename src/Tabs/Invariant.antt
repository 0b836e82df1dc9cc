-- ===== src/Tabs/Invariant.antt =====
-- What holds of a tab model after any history of calls. `Lookup` is about finding a tab by its
-- identifier, `Snapshots` about the snapshots that the methods store.
pub mod Lookup
pub mod Snapshots
pub mod Valid
pub mod Change
pub mod Run
