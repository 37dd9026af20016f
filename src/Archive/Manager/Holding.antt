-- ===== src/Archive/Manager/Holding.antt =====
-- pkg/archive/manager.go and cache.go: a check that got its archive holds a reference to it.
use kubechecks.Common.{bytes_instance}
use kubechecks.Archive.Manager.{Manager}
