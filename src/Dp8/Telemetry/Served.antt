-- ===== src/Dp8/Telemetry/Served.antt =====
-- The packet log names a message exactly if the engine served it (internal/dp8/engine.go).
use open_zone.Dp8.Engine.{Engine}
