-- ===== src/Output.antt =====
-- pkg/output/router.go: routing of entries to outputs, retries and circuit breakers.
pub mod Breaker
pub mod Retry
pub mod Router
pub mod S3
pub mod Loki
pub mod Elasticsearch
pub mod Tests
pub mod Stdout
