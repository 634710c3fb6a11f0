-- ===== src/Dedup.antt =====
-- pkg/dedup: template mining, fingerprints, the context window and the engine that joins them.
pub mod Drain
pub mod Fingerprint
pub mod Context
pub mod Engine
