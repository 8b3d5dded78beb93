-- ===== src/Cache/Holds/Small.antt =====
-- One round on the small queue, seen from one key.
use fluxkv.Base.{
  ℕ, ◌≡◌, sym, true, false, List, [], ◌∷◌, Option, none, some, inl, inr, arith, Bool-cases,
}
use fluxkv.Cache.Entry.{Entry, main_queue, map_key, bytes_eq}
use fluxkv.Cache.Fifo.{push_head}
use fluxkv.Cache.Shard.{Shard, hash_of, free}
use fluxkv.Cache.Shard.Rounds.{SmallRound}
use fluxkv.Cache.Keys.{matching, slots_of, matching_hit, matching_miss, slots_of-index_erase_ne}
use fluxkv.Cache.Holds.{Holds, still_none, kept, dropped, Keeps-refl}
use fluxkv.Cache.Holds.Views.{
  matching-append_miss, matching-append_hit, Holds-same, InSmall_head, Outcome, erased,
}

module _ (hash_key : ℕ → List ℕ → ℕ) where
  module _ (s s' : Shard) (mk : List ℕ) (e : Entry) (rest : List Entry) where
    SmallRound-miss :
        (o : Option Entry)
        → s.small.items ≡ e ∷ rest
        → bytes_eq (map_key e) mk ≡ false
        → SmallRound (hash_of hash_key e) s s' e rest
        → Holds hash_key s mk o
        → Holds hash_key s' mk o
    unfolding push_head
    SmallRound-miss o h miss r v =
        let head = matching_miss mk e rest miss in
        let small : matching mk s'.small.items ≡ matching mk s.small.items =
          rw (r.small, h) (sym head) in
        elim r.main [
          | inl (moved, kept_slots) ↦
              Holds-same hash_key s s' mk o small
                (rw moved (
                  matching-append_miss mk s.main.items (record e { freq = 0; queue = main_queue })
                    miss))
                (rw kept_slots) v
          | inr (same, _, freed) ↦
              Holds-same hash_key s s' mk o small (rw same)
                (rw freed (slots_of-index_erase_ne mk (map_key e) _ s.index miss)) v
        ]

    SmallRound-hit :
        (x : Entry)
        → s.small.items ≡ e ∷ rest
        → bytes_eq (map_key e) mk ≡ true
        → SmallRound (hash_of hash_key e) s s' e rest
        → Holds hash_key s mk (some x)
        → Outcome hash_key s' mk (some x)
    unfolding push_head
    SmallRound-hit x h hit r (_, slot, place) =
        let (xe, none_small, none_main) =
          InSmall_head hash_key mk s.small s.main e x rest x.queue h hit place in
        let slot' : slots_of mk s.index ≡ (hash_of hash_key e, map_key e) ∷ [] = rw (← xe) slot in
        let cold = record e { freq = 0; queue = main_queue } in
        rw xe (elim r.main [
          | inl (moved, kept_slots) ↦ (
            some cold,
            (
              hit,
              rw kept_slots slot',
              (
                rw r.small none_small,
                rw moved (matching-append_hit mk s.main.items cold hit none_main),
              ),
            ),
            kept e 0 main_queue (omega arith),
          )
          | inr (same, free, freed) ↦ (
            none,
            (rw r.small none_small, rw same none_main, rw freed (erased hash_key s mk e hit slot')),
            dropped e free,
          )
        ])

    pub SmallRound-Holds :
        (o : Option Entry)
        → s.small.items ≡ e ∷ rest
        → SmallRound (hash_of hash_key e) s s' e rest
        → Holds hash_key s mk o
        → Outcome hash_key s' mk o
    SmallRound-Holds none h r v = elim (Bool-cases (bytes_eq (map_key e) mk)) [
      | inl hit ↦
          let gone : matching mk (e ∷ rest) ≡ [] = rw h at v.0 in
          absurd (ground (arith, matching_hit mk e rest hit))
      | inr miss ↦ (none, SmallRound-miss none h miss r v, still_none)
    ]
    SmallRound-Holds (some x) h r v = elim (Bool-cases (bytes_eq (map_key e) mk)) [
      | inl hit ↦ SmallRound-hit x h hit r v
      | inr miss ↦ (some x, SmallRound-miss (some x) h miss r v, Keeps-refl (some x))
    ]
