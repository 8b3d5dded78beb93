-- ===== src/Connection/Bucket.antt =====
-- What server/connection.cc calls on `Bucket` of server/engine.h and on its `DocCache`.
use fluxkv.Base.{ℕ, Bool, List, Option}
use fluxkv.Cache.Ops.{CachedDoc}
use fluxkv.Engine.Request.{Request}

-- `DocCache::GetResult`, with what `GetCopy` copies out.
pub data CopyResult : Type 0 where
  miss : CopyResult
  tombstone : CopyResult
  hit : CachedDoc → CopyResult

-- The operations, each on the state `W` of the engine and of the cache.
pub record Bucket (W : Type 0) : Type 0 where
  pub has_cache : Bool
  pub is_durable : Bool
  pub take_write_token : W → Bool × W
  pub stage_write : Request → W → Bool × W
  pub enqueue_read : Request → W → W
  pub flush_staged : W → W
  pub cache_put : ℕ → List ℕ → List ℕ → ℕ → ℕ → ℕ → Bool → W → W
  pub cache_put_shared : ℕ → List ℕ → List ℕ → ℕ → ℕ → ℕ → Bool → W → W
  pub cache_erase : ℕ → List ℕ → W → W
  pub cache_get : ℕ → List ℕ → W → Option CachedDoc × W
  pub cache_get_copy : ℕ → List ℕ → W → CopyResult × W
