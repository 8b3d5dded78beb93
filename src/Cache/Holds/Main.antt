-- ===== src/Cache/Holds/Main.antt =====
-- One round on the main queue, seen from one key.
use fluxkv.Base.{
  ℕ, ◌-◌, ◌≡◌, ap, sym, ◌∙◌, subst, true, false, List, [], ◌∷◌, Option, none, some, inl, inr, arith,
  Bool-cases,
}
use fluxkv.Cache.Entry.{Entry, main_queue, map_key, bytes_eq}
use fluxkv.Cache.Fifo.{push_head}
use fluxkv.Cache.Shard.{Shard, hash_of, free}
use fluxkv.Cache.Shard.Rounds.{MainRound}
use fluxkv.Cache.Keys.{matching, slots_of, matching_hit, matching_miss, slots_of-index_erase_ne}
use fluxkv.Cache.Holds.{InQueue, Holds, still_none, kept, dropped, Keeps-refl}
use fluxkv.Cache.Holds.Views.{
  matching-append_miss, matching-append_hit, Holds-same, InMain_head, Outcome, erased,
}

module _ (hash_key : ℕ → List ℕ → ℕ) where
  module _ (s s' : Shard) (mk : List ℕ) (e : Entry) (rest : List Entry) where
    MainRound-miss :
        (o : Option Entry)
        → s.main.items ≡ e ∷ rest
        → bytes_eq (map_key e) mk ≡ false
        → MainRound (hash_of hash_key e) s s' e rest
        → Holds hash_key s mk o
        → Holds hash_key s' mk o
    unfolding push_head
    MainRound-miss o h miss r v =
        let head = matching_miss mk e rest miss in
        let small : matching mk s'.small.items ≡ matching mk s.small.items = rw r.small in
        let old : matching mk rest ≡ matching mk s.main.items = rw h (sym head) in
        elim r.main [
          | inl (round, _, kept_slots) ↦
              Holds-same hash_key s s' mk o small
                (rw round
                  (matching-append_miss mk rest (record e { freq = e.freq - 1 }) miss ∙ old))
                (rw kept_slots) v
          | inr (gone, _, freed) ↦
              Holds-same hash_key s s' mk o small (rw gone old)
                (rw freed (slots_of-index_erase_ne mk (map_key e) _ s.index miss)) v
        ]

    MainRound-hit :
        (x : Entry)
        → s.main.items ≡ e ∷ rest
        → bytes_eq (map_key e) mk ≡ true
        → MainRound (hash_of hash_key e) s s' e rest
        → Holds hash_key s mk (some x)
        → Outcome hash_key s' mk (some x)
    unfolding push_head
    MainRound-hit x h hit r (_, slot, place) =
        let (xe, xq, none_main, none_small) =
          InMain_head hash_key mk s.small s.main e x rest x.queue h hit place in
        let slot' : slots_of mk s.index ≡ (hash_of hash_key e, map_key e) ∷ [] = rw (← xe) slot in
        let in_main : e.queue ≡ main_queue = ap (λ (y : Entry). y.queue) (sym xe) ∙ xq in
        let cooler = record e { freq = e.freq - 1 } in
        rw xe (elim r.main [
          | inl (round, _, kept_slots) ↦ (
            some cooler,
            (
              hit,
              rw kept_slots slot',
              subst (InQueue mk s'.small s'.main cooler) (sym in_main) (
                rw r.small none_small,
                rw round (matching-append_hit mk rest cooler hit none_main),
              ),
            ),
            kept e (e.freq - 1) e.queue (omega arith),
          )
          | inr (gone, free, freed) ↦ (
            none,
            (rw r.small none_small, rw gone none_main, rw freed (erased hash_key s mk e hit slot')),
            dropped e free,
          )
        ])

    pub MainRound-Holds :
        (o : Option Entry)
        → s.main.items ≡ e ∷ rest
        → MainRound (hash_of hash_key e) s s' e rest
        → Holds hash_key s mk o
        → Outcome hash_key s' mk o
    MainRound-Holds none h r v = elim (Bool-cases (bytes_eq (map_key e) mk)) [
      | inl hit ↦
          let gone : matching mk (e ∷ rest) ≡ [] = rw h at v.1 in
          absurd (ground (arith, matching_hit mk e rest hit))
      | inr miss ↦ (none, MainRound-miss none h miss r v, still_none)
    ]
    MainRound-Holds (some x) h r v = elim (Bool-cases (bytes_eq (map_key e) mk)) [
      | inl hit ↦ MainRound-hit x h hit r v
      | inr miss ↦ (some x, MainRound-miss (some x) h miss r v, Keeps-refl (some x))
    ]
