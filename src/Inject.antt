-- ===== src/Inject.antt =====
-- lazyfs/src/lazyfs.cpp: the injection of configured faults while an operation runs.
pub mod ClearCache
