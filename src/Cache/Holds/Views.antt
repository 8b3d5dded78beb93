-- ===== src/Cache/Holds/Views.antt =====
-- What is held depends on the entries and slots with the key, wherever they stand in the queues.
use fluxkv.Base.{ℕ, ◌≡◌, refl, ◌∙◌, true, false, List, [], ◌∷◌, ◌++◌, Option, none, some, arith}
use fluxkv.Cache.Entry.{Entry, Queue, small_queue, main_queue, map_key, bytes_eq, eq_of_bytes_eq}
use fluxkv.Cache.Fifo.{Fifo}
use fluxkv.Cache.Shard.{Shard, hash_of, index_erase}
use fluxkv.Cache.Keys.{
  matching, slots_of, matching_hit, matching_miss, matching-nil, matching-append,
  slots_of-index_erase_self,
}
use mathlib.Core.List.{append-nil}
use fluxkv.Cache.Holds.{InQueue, Holds, Keeps}

pub InQueue-same :
    (mk : List ℕ) (small main small' main' : Fifo) (e : Entry) (q : Queue)
    → matching mk small'.items ≡ matching mk small.items
    → matching mk main'.items ≡ matching mk main.items
    → InQueue mk small main e q
    → InQueue mk small' main' e q
InQueue-same mk small main small' main' e small_queue hs hm (a, b) = (hs ∙ a, hm ∙ b)
InQueue-same mk small main small' main' e main_queue hs hm (a, b) = (hs ∙ a, hm ∙ b)

pub matching-append_miss :
    (mk : List ℕ) (xs : List Entry) (e : Entry)
    → bytes_eq (map_key e) mk ≡ false
    → matching mk (xs ++ (e ∷ [])) ≡ matching mk xs
matching-append_miss mk xs e miss = ground (
  arith,
  matching-append mk xs (e ∷ []),
  matching_miss mk e [] miss,
  matching-nil mk,
  append-nil (matching mk xs),
)

pub matching-append_hit :
    (mk : List ℕ) (xs : List Entry) (e : Entry)
    → bytes_eq (map_key e) mk ≡ true
    → matching mk xs ≡ []
    → matching mk (xs ++ (e ∷ [])) ≡ e ∷ []
matching-append_hit mk xs e hit none_left =
    ground (arith, matching-append mk xs (e ∷ []), matching_hit mk e [] hit, matching-nil mk)

module _ (hash_key : ℕ → List ℕ → ℕ) where
  -- What is held depends only on the entries and slots with the key.
  pub Holds-same :
      (s s' : Shard) (mk : List ℕ) (o : Option Entry)
      → matching mk s'.small.items ≡ matching mk s.small.items
      → matching mk s'.main.items ≡ matching mk s.main.items
      → slots_of mk s'.index ≡ slots_of mk s.index
      → Holds hash_key s mk o
      → Holds hash_key s' mk o
  Holds-same s s' mk none hs hm hi (a, b, c) = (hs ∙ a, hm ∙ b, hi ∙ c)
  Holds-same s s' mk (some e) hs hm hi (same, slot, place) =
      (same, hi ∙ slot, InQueue-same mk s.small s.main s'.small s'.main e e.queue hs hm place)

  -- An entry `e` with the key heads small, or main: then it is the one that is held.
  pub InSmall_head :
      (mk : List ℕ) (small main : Fifo) (e x : Entry) (rest : List Entry) (q : Queue)
      → small.items ≡ e ∷ rest
      → bytes_eq (map_key e) mk ≡ true
      → InQueue mk small main x q
      → (x ≡ e) × (matching mk rest ≡ []) × (matching mk main.items ≡ [])
  InSmall_head mk small main e x rest small_queue h hit (a, b) =
      let head = matching_hit mk e rest hit in ground (arith, head, rw h at a)
  InSmall_head mk small main e x rest main_queue h hit (a, b) =
      let head = matching_hit mk e rest hit in
      let gone : matching mk (e ∷ rest) ≡ [] = rw h at a in absurd (ground arith)

  pub InMain_head :
      (mk : List ℕ) (small main : Fifo) (e x : Entry) (rest : List Entry) (q : Queue)
      → main.items ≡ e ∷ rest
      → bytes_eq (map_key e) mk ≡ true
      → InQueue mk small main x q
      → (x ≡ e) × (q ≡ main_queue) × (matching mk rest ≡ []) × (matching mk small.items ≡ [])
  InMain_head mk small main e x rest main_queue h hit (a, b) =
      let head = matching_hit mk e rest hit in
      let (same, none_left) : (x ≡ e) × (matching mk rest ≡ []) = ground (arith, head, rw h at b) in
      (same, refl, none_left, a)
  InMain_head mk small main e x rest small_queue h hit (a, b) =
      let head = matching_hit mk e rest hit in
      let gone : matching mk (e ∷ rest) ≡ [] = rw h at b in absurd (ground arith)

  -- The shard after a step holds `o'` where it held `o`, and eviction may do that.
  abbrev pub Outcome : Shard → List ℕ → Option Entry → Type 0
  Outcome s' mk o = (o' : Option Entry) × Holds hash_key s' mk o' × Keeps o o'

  pub erased :
      (s : Shard) (mk : List ℕ) (e : Entry)
      → bytes_eq (map_key e) mk ≡ true
      → slots_of mk s.index ≡ (hash_of hash_key e, map_key e) ∷ []
      → slots_of mk (index_erase (hash_of hash_key e) (map_key e) s.index) ≡ []
  erased s mk e hit slot =
      let same = eq_of_bytes_eq (map_key e) mk hit in
      rw same (slots_of-index_erase_self mk (map_key e) (hash_of hash_key e) s.index [] slot)
