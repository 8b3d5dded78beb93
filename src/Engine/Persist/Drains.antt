-- ===== src/Engine/Persist/Drains.antt =====
-- What the durable notifier does with the writes that wait for the log.
use fluxkv.Engine.Request.{Request}
