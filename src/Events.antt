-- ===== src/Events.antt =====
-- pkg/events: the check of a pull request, from its validation to its last commit status.
pub mod Reviews
pub mod Check
pub mod Manifests
pub mod Runner
pub mod Pool
pub mod Repos
pub mod Generated
