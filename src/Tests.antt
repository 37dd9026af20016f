-- ===== src/Tests.antt =====
-- The laws at concrete inputs.
mod Split
mod Report
mod Store
mod Queue
mod Archive
mod Apps
mod AppSets
mod Events
mod Generated
mod Removals
mod Clones
mod Manager
mod Kustomize
mod Watching
