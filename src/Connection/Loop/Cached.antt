-- ===== src/Connection/Loop/Cached.antt =====
-- What `serveCachedGets` answers against the parser and the generic path of `handleGet`.
use fluxkv.Base.{
  ℕ, Bool, ◌+◌, ◌≡◌, refl, inl, inr, true, false, List, Option, some, length, ltb, if◌then◌else◌,
  Option-cases,
}
use fluxkv.Cache.Entry.{Entry}
use fluxkv.Cache.Shard.{Shard, find}
use fluxkv.Cache.Entry.{vb_key}
use fluxkv.Cache.Ops.{
  CachedDoc, ReadStats, GetResult, get, get_copy, update, hit, count_hit, doc_of,
}
use fluxkv.Protocol.{McbpHeader, header_size}
use fluxkv.Connection.Bucket.{Bucket, CopyResult}
use fluxkv.Connection.State.{Conn, Config}
use fluxkv.Connection.Sasl.{Crypto}
use fluxkv.Connection.Handlers.{slice, get_cached}
use fluxkv.Connection.Parse.{frame, parse_frame}
use fluxkv.Connection.Loop.{arm}

-- `GetCopy` and `Get` look at the same entry and leave the same state, unless the first has a miss or does not
-- copy a value that is too large.
unfoldable pub CopyAgrees : {W : Type 0} → CopyResult × W → Option CachedDoc × W → Type 0
CopyAgrees (CopyResult.miss, w) got = Unit {0}
CopyAgrees (CopyResult.tombstone, w) got =
    (doc : CachedDoc) × (got ≡ (some doc, w)) × (doc.deleted ≡ true)
CopyAgrees (CopyResult.hit doc, w) got = (got ≡ (some doc, w)) × (doc.deleted ≡ false)

-- What `get_frame` finds is a request of the parser, whose key is the one that `handleGet` slices.
record IsFramed (bytes : List ℕ) (h : McbpHeader) (key : List ℕ) (len : ℕ) (rest : List ℕ)
    : Type 0 where
  body : List ℕ
  framed : parse_frame bytes ≡ frame h body rest
  sliced : slice body h.extras_len h.key_len ≡ some key
  long : len ≡ header_size + h.body_len

module _ {W : Type 0} (b : Bucket W) (k : Config) (y : Crypto) where
  -- `GetCopy` and `Get` of the bucket's cache agree.
  abbrev pub Agrees : Type 0
  Agrees =
      (vbucket : ℕ) (key : List ℕ) (w : W)
      → CopyAgrees (b.cache_get_copy vbucket key w) (b.cache_get vbucket key w)

  -- A run over the bytes of the front buffer: the bytes that it takes, and the connection that it leaves. It
  -- ends, at a miss with the state that the look leaves, or a request of the parser is answered by the generic
  -- path of a GET, the timer is armed, and it goes on behind that request.
  pub data AnsweredRun : List ℕ → Conn W → ℕ → Conn W → Type 0 where
    ended : (bytes : List ℕ) (c : Conn W) → AnsweredRun bytes c 0 c
    missed :
        (bytes : List ℕ) (h : McbpHeader) (body rest key : List ℕ) (c : Conn W)
        → parse_frame bytes ≡ frame h body rest
        → slice body h.extras_len h.key_len ≡ some key
        → (b.cache_get_copy h.specific key c.bucket).0 ≡ CopyResult.miss
        → AnsweredRun bytes c 0 (record c { bucket = (b.cache_get_copy h.specific key c.bucket).1 })
    answered :
        (bytes : List ℕ) (h : McbpHeader) (body rest : List ℕ) (c d e : Conn W) (n m : ℕ)
        → parse_frame bytes ≡ frame h body rest
        → get_cached b k h body c ≡ some d
        → AnsweredRun rest (arm b k y d) n e
        → m ≡ header_size + h.body_len + n
        → AnsweredRun bytes c m e

-- `GetCopy` as `serveCachedGets` calls it, with a buffer of `buf_cap` bytes, on one shard.
abbrev pub copy_of : GetResult → CopyResult
copy_of GetResult.miss = CopyResult.miss
copy_of (GetResult.found doc) = CopyResult.hit doc
copy_of (GetResult.tombstone doc) = CopyResult.tombstone
copy_of (GetResult.too_large doc) = CopyResult.miss

abbrev pub to_copy : ReadStats × Shard × GetResult → CopyResult × (ReadStats × Shard)
to_copy (st, s, r) = (copy_of r, (st, s))

agreed_entry :
    (st : ReadStats) (s' : Shard) (e : Entry) (gone large : Bool)
    → e.deleted ≡ gone
    → CopyAgrees
        (to_copy (
          if gone
          then (count_hit st true, s', GetResult.tombstone (doc_of e))
          else (if large
              then (st, s', GetResult.too_large (doc_of e))
              else (count_hit st false, s', GetResult.found (doc_of e)))))
        (some (doc_of e), (count_hit st gone, s'))
unfolding CopyAgrees
agreed_entry st s' e true large h = (doc_of e, refl, h)
agreed_entry st s' e false true h = tt
agreed_entry st s' e false false h = (refl, h)

module _ (hash_key : ℕ → List ℕ → ℕ) (buf_cap : ℕ) where
  abbrev pub shard_get : ℕ → List ℕ → ReadStats × Shard → Option CachedDoc × (ReadStats × Shard)
  shard_get vbid key (st, s) = let (st', s', o) = get hash_key st s vbid key in (o, (st', s'))

  abbrev pub shard_get_copy : ℕ → List ℕ → ReadStats × Shard → CopyResult × (ReadStats × Shard)
  shard_get_copy vbid key (st, s) = to_copy (get_copy hash_key st s vbid key buf_cap)

  -- `GetCopy` and `Get` of the cache agree.
  pub shard-CopyAgrees :
      (vbid : ℕ) (key : List ℕ) (w : ReadStats × Shard)
      → CopyAgrees (shard_get_copy vbid key w) (shard_get vbid key w)
  unfolding CopyAgrees get get_copy
  shard-CopyAgrees vbid key (st, s) =
      elim (Option-cases (find s (hash_key vbid key) (vb_key vbid key))) [
        | inl none_held ↦ rw (get_copy, none_held) tt
        | inr (e, held) ↦
            rw (get_copy, get, held)
              (agreed_entry st (update s e hit) e e.deleted (ltb buf_cap (length e.value)) refl)
      ]
