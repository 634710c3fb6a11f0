-- ===== src/Ingestion.antt =====
-- pkg/ingestion: entries, their label maps, and the memory buffer.
pub mod Entry
pub mod Parser
pub mod Handler
pub mod Disk
pub mod Buffer
pub mod Tests
