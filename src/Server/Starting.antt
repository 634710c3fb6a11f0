-- ===== src/Server/Starting.antt =====
-- What a server that has started (runServer of cmd/server/main.go) can rely on.
use logsieve.Config.{Config}
use logsieve.Processor.{Processor}
use logsieve.Server.{Server}
