-- ===== src/Cache/Entry.antt =====
-- `S3FifoCache::Entry` of server/cache/s3fifo_cache.cc, without the links that `Fifo` keeps.
use fluxkv.Base.{
  ℕ, ◌+◌, ◌≡◌, refl, Bool, true, false, ◌&&◌, List, [], ◌∷◌, ◌++◌, Option, none, some, arith,
  length, ltb, ◌==◌,
}
use fluxkv.Metadata.Fixed.{put_fixed}

-- `enum Queue`.
pub data Queue : Type 0 where
  small_queue main_queue : Queue

-- `shared_cap` is the capacity of the buffer that a shared entry holds on to, `none` where the value
-- is stored in the entry (`shared` is 0).
pub record Entry : Type 0 where
  pub seqno : ℕ
  pub flags : ℕ
  pub expiry : ℕ
  pub pending : ℕ
  pub vbid : ℕ
  pub datatype : ℕ
  pub deleted : Bool
  pub freq : ℕ
  pub queue : Queue
  pub shared_cap : Option ℕ
  pub key : List ℕ
  pub value : List ℕ

-- `vbid || key`
abbrev pub vb_key : ℕ → List ℕ → List ℕ
vb_key vbid key = put_fixed 2 vbid ++ key

abbrev pub map_key : Entry → List ℕ
map_key e = vb_key e.vbid e.key

abbrev pub map_slot_overhead : ℕ
map_slot_overhead = 24

abbrev pub sizeof_entry : ℕ
sizeof_entry = 56

-- Two pointers.
abbrev pub sizeof_ext : ℕ
sizeof_ext = 16

payload : Option ℕ → ℕ → ℕ
payload none val_len = val_len
payload (some capacity) val_len = sizeof_ext + capacity

-- `Entry::charge`
unfoldable pub charge : Entry → ℕ
unfolding payload
charge e =
    sizeof_entry + 2 + length e.key + payload e.shared_cap (length e.value) + map_slot_overhead

-- Writes queued to magma but not yet applied pin the entry.
abbrev pub pinned : Entry → Bool
pinned e = ltb 0 e.pending

-- Equality of two `string_view`s.
unfoldable pub bytes_eq : List ℕ → List ℕ → Bool
bytes_eq [] [] = true
bytes_eq [] (y ∷ ys) = false
bytes_eq (x ∷ xs) [] = false
bytes_eq (x ∷ xs) (y ∷ ys) = (x == y) && bytes_eq xs ys

pub bytes_eq_refl : (xs : List ℕ) → bytes_eq xs xs ≡ true
unfolding bytes_eq
bytes_eq_refl [] = refl
bytes_eq_refl (x ∷ xs) = ground (arith, bytes_eq_refl xs)

pub eq_of_bytes_eq : (xs ys : List ℕ) → bytes_eq xs ys ≡ true → xs ≡ ys
unfolding bytes_eq
eq_of_bytes_eq [] [] h = refl
eq_of_bytes_eq [] (y ∷ ys) h = cc
eq_of_bytes_eq (x ∷ xs) [] h = cc
eq_of_bytes_eq (x ∷ xs) (y ∷ ys) h = ground (arith, eq_of_bytes_eq xs ys)
