-- ===== src/Cache/Fifo.antt =====
-- `struct Fifo` of server/cache/s3fifo_cache.cc. The linked list is the list of its entries from the
-- tail, where entries leave, to the head, where they enter; an entry is told by its map key, as the
-- index tells it. The byte count never passes the memory of the machine, so it does not wrap.
use fluxkv.Base.{ℕ, ◌+◌, ◌-◌, List, [], ◌∷◌, ◌++◌, Option, none, some, if◌then◌else◌}
use fluxkv.Cache.Entry.{Entry, charge, map_key, bytes_eq}

pub record Fifo : Type 0 where
  pub items : List Entry
  pub bytes : ℕ
  pub count : ℕ

abbrev pub empty : Fifo
empty = record { items = []; bytes = 0; count = 0 }

unfoldable pub push_head : Fifo → Entry → Fifo
push_head q e = record {
  items = q.items ++ (e ∷ []);
  bytes = q.bytes + charge e;
  count = q.count + 1;
}

-- The entry with a map key, and the list without it.
unfoldable pub find_key : List ℕ → List Entry → Option Entry
find_key mk [] = none
find_key mk (e ∷ es) = if bytes_eq (map_key e) mk then some e else find_key mk es

unfoldable pub remove_key : List ℕ → List Entry → List Entry
remove_key mk [] = []
remove_key mk (e ∷ es) = if bytes_eq (map_key e) mk then es else e ∷ remove_key mk es

-- `Fifo::remove`: unlinks the entry.
unfoldable pub remove : Fifo → Entry → Fifo
remove q e = record {
  items = remove_key (map_key e) q.items;
  bytes = q.bytes - charge e;
  count = q.count - 1;
}

-- `Fifo::popTail`: the oldest entry, unlinked, or `none` for the null pointer.
unfoldable pub pop_tail : Fifo → Option (Entry × Fifo)
pop_tail q = elim q.items [
  | [] ↦ none
  | e ∷ rest ↦ some (e, record { items = rest; bytes = q.bytes - charge e; count = q.count - 1 })
]
