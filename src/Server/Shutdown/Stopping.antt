-- ===== src/Server/Shutdown/Stopping.antt =====
-- What Stop of pkg/processor/processor.go leaves, as runServer of cmd/server/main.go calls it while the
-- other goroutines run.
