-- ===== src/Connection/Loop/Answers/Dispatch.antt =====
-- Every request that `dispatch` handles is answered once.
use fluxkv.Connection.Bucket.{Bucket}
