-- ===== src/Engine/Stage.antt =====
-- `Bucket::StageWrite` and `Bucket::FlushStaged` of server/engine.cc: an IO thread collects the writes of one
-- wake by vbucket, and hands each vbucket's chain to its queue at the end. The arrays over the vbuckets are
-- functions; a result `none` is an index outside of them. The size of a `Request` is a parameter.
pub mod Delivery
pub mod Order
use fluxkv.Base.{
  ℕ, ◌+◌, ◌%◌, ◌^◌, Bool, true, false, List, [], ◌∷◌, ◌++◌, Option, none, some, length, ltb, ◌==◌,
  ◌>>=◌, if◌then◌else◌,
}
use fluxkv.Engine.Request.{Request}
use fluxkv.Engine.Queue.{VbQueue, push, count_pending, arm}

abbrev pub max_vbuckets : ℕ
max_vbuckets = 1024

-- `StagedVB`: the chain from `first`, newest first.
pub record StagedVb : Type 0 where
  pub chain : List Request
  pub count : ℕ

abbrev pub new_staged : StagedVb
new_staged = record { chain = []; count = 0 }

pub record StagingTable : Type 0 where
  pub vbs : ℕ → StagedVb
  pub touched : List ℕ
  pub bytes : ℕ

abbrev pub new_table : StagingTable
new_table = record { vbs = λ _. new_staged; touched = []; bytes = 0 }

-- A store into an array.
unfoldable pub store : {A : Type 0} → (ℕ → A) → ℕ → A → ℕ → A
store f i a j = if j == i then a else f j

abbrev pub item_size : ℕ → Request → ℕ
item_size request_size r = length r.key + length r.value + request_size

-- A request that is admitted joins the chain of its vbucket.
unfoldable pub staged : ℕ → Request → StagingTable → StagingTable
unfolding store
staged request_size r t =
    let st = t.vbs r.vbucket in
    record {
      vbs =
          store t.vbs r.vbucket (record { chain = r ∷ st.chain; count = (st.count + 1) % 2 ^ 32 });
      touched = if st.count == 0 then t.touched ++ (r.vbucket ∷ []) else t.touched;
      bytes = t.bytes + item_size request_size r;
    }

-- `StageWrite`, with `writeQueueMemLimit_` and the value of `queuedBytes_` that it reads.
unfoldable pub stage_write : ℕ → ℕ → ℕ → Request → StagingTable → Option (Bool × StagingTable)
unfolding staged
stage_write request_size limit queued r t =
    if ltb limit (queued + t.bytes + item_size request_size r)
    then some (false, t)
    else (if ltb r.vbucket max_vbuckets then some (true, staged request_size r t) else none)

-- What `FlushStaged` changes: `queuedBytes_`, the write queues of all shards, and the tasks it submits.
pub record Engine : Type 0 where
  pub queued_bytes : ℕ
  pub queues : ℕ → VbQueue
  pub submitted : List ℕ

-- One round of the loop of `FlushStaged`.
unfoldable pub flush_one : ℕ → StagingTable → Engine → StagingTable × Engine
unfolding store push count_pending arm
flush_one vbid t e =
    let st = t.vbs vbid in
    let armed = arm (count_pending (push (e.queues vbid) st.chain) st.count) in
    (
      record t { vbs = store t.vbs vbid new_staged },
      record e {
        queues = store e.queues vbid armed.0;
        submitted = if armed.1 then e.submitted ++ (vbid ∷ []) else e.submitted;
      },
    )

unfoldable pub flush_all : List ℕ → StagingTable → Engine → StagingTable × Engine
unfolding flush_one
flush_all [] t e = (t, e)
flush_all (vbid ∷ vbids) t e = let next = flush_one vbid t e in flush_all vbids next.0 next.1

-- `FlushStaged`
unfoldable pub flush_staged : StagingTable → Engine → StagingTable × Engine
unfolding flush_all
flush_staged t e =
    let flushed =
      flush_all t.touched (record t { bytes = 0 })
        (record e { queued_bytes = e.queued_bytes + t.bytes }) in
    (record flushed.0 { touched = [] }, flushed.1)

-- A wake: the writes that are staged one after the other, and of these the ones that were admitted.
unfoldable pub stage_all :
    ℕ → ℕ → ℕ → List Request → StagingTable → Option (List Request × StagingTable)
unfolding stage_write
stage_all request_size limit queued [] t = some ([], t)
stage_all request_size limit queued (r ∷ rs) t = do
  (admitted, next) ← stage_write request_size limit queued r t
  (rest, last) ← stage_all request_size limit queued rs next
  some (if admitted then r ∷ rest else rest, last)
