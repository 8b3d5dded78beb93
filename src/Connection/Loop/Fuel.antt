-- ===== src/Connection/Loop/Fuel.antt =====
-- Every request that the loop of `parseAndDispatch` takes shortens `readBuf_`.
use fluxkv.Base.{
  ℕ, zero, suc, ◌<◌, ◌≡◌, inl, inr, refl, ap, Bool, true, false, ◌&&◌, ◌||◌, List, [], Option, none,
  some, length, length-drop, take, drop, ltb, ◌==◌, if◌then◌else◌, arith, Bool-cases, Option-cases,
}
use fluxkv.Protocol.{McbpHeader, op_get, op_set}
use fluxkv.Connection.Bucket.{Bucket}
use fluxkv.Connection.State.{Conn, Config}
use fluxkv.Connection.Sasl.{Crypto}
use fluxkv.Base.{Each, Each-some, if_both}
use fluxkv.Connection.Loop.Answers.{schedule_flush-IsFlush}
use fluxkv.Connection.Parse.{parse_frame}
use fluxkv.Connection.Parse.Front.{Parsed-cases, parse_frame-shorter}
use fluxkv.Connection.Loop.{
  dispatch, dispatch_frame, parse_and_dispatch, run_loop, serve, serve_cached_gets, go_on,
}
use fluxkv.Connection.Loop.Input.{Leaves, dispatch-Leaves, handle_get-Leaves}

module _ {W : Type 0} (b : Bucket W) (k : Config) (y : Crypto) where
  -- What goes on has less input.
  abbrev Shorter : Conn W → Option (Bool × Conn W) → Type 0
  Shorter c = Each (λ r. r.0 ≡ true → length r.1.read_buf < length c.read_buf)

  go_on-Shorter :
      (c : Conn W) (rest : List ℕ) (o : Option (Conn W))
      → length rest < length c.read_buf
      → Leaves rest o
      → Shorter c (go_on b k y o)
  go_on-Shorter c rest none less left = tt
  go_on-Shorter c rest (some d) less left = λ _. omega (arith, less, ap length left)

  serve_cached_gets-shorter :
      (front : ℕ) (c : Conn W)
      → 0 < length c.read_buf
      → ltb 0 (serve_cached_gets b k y front c).0 ≡ true
      → length (serve_cached_gets b k y front c).1.read_buf < length c.read_buf
  unfolding serve_cached_gets
  serve_cached_gets-shorter front c full h =
      let run = serve b k y (length c.read_buf) (take front c.read_buf) c in
      let cut = record run.1 { read_buf = drop run.0 c.read_buf } in
      elim (Bool-cases (ltb 0 run.0)) [
        | inl some_served ↦ rw some_served (
            let same = ap length (schedule_flush-IsFlush k cut).same_input in
            let positive : 0 < run.0 = ground (arith, some_served) in
            omega (arith, same, positive, length-drop run.0 c.read_buf, full))
        | inr none_served ↦ absurd (cc (rw none_served at h))
      ]

  dispatch_frame-Shorter :
      (front : ℕ) (h : McbpHeader) (body rest : List ℕ) (c : Conn W)
      → length rest < length c.read_buf
      → Shorter c (dispatch_frame b k y front h body rest c)
  unfolding dispatch_frame
  dispatch_frame-Shorter front h body rest c less =
      let P = Shorter c in
      let token = b.take_write_token c.bucket in
      let served = serve_cached_gets b k y front c in
      let goes : (d : Conn W)
          → P (go_on b k y (dispatch b k y h body (record d { read_buf = rest }))) =
        λ d.
          go_on-Shorter c rest _ less
            (dispatch-Leaves b k y h body (record d { read_buf = rest })) in
      if_both P (h.opcode == op_set) _ _
        (if_both P token.0 _ _ (goes (record c { bucket = token.1 })) (λ e. cc))
        (if_both P ((h.opcode == op_get) && ltb 0 (length c.echo_response_buf)) _ _
          (go_on-Shorter c rest _ less
            (handle_get-Leaves b k y h [] (record c { read_buf = rest })))
          (if_both P ((h.opcode == op_get) && b.has_cache) _ _
            (elim (Bool-cases (ltb 0 served.0)) [
              | inl yields ↦
                  rw yields (λ _. serve_cached_gets-shorter front c (omega (arith, less)) yields)
              | inr stops ↦ rw stops (goes served.1)
            ])
            (goes c)))

  pub parse_and_dispatch-Shorter :
      (front : ℕ) (c : Conn W) → Shorter c (parse_and_dispatch b k y front c)
  unfolding parse_and_dispatch
  parse_and_dispatch-Shorter front c = elim (Parsed-cases (parse_frame c.read_buf)) [
    | inl e ↦ rw (parse_and_dispatch, e) (λ e. cc)
    | inr (inl e) ↦ rw (parse_and_dispatch, e) (λ e. cc)
    | inr (inr (inl e)) ↦ rw (parse_and_dispatch, e) (λ e. cc)
    | inr (inr (inr (h, body, rest, e))) ↦
        rw (parse_and_dispatch, e)
          (dispatch_frame-Shorter front h body rest c
            (parse_frame-shorter c.read_buf h body rest e))
  ]

  -- The rounds of the loop with no fuel, from a connection to its end: it stops before a round, it takes
  -- bytes behind a body, `parseAndDispatch` answers false, or it goes on. The derivation is finite.
  pub data Runs (front : ℕ → ℕ) : Conn W → Option (Conn W) → Type 0 where
    stopped : (c : Conn W) → (c.closing || c.stage_full) ≡ true → Runs front c (some c)
    faulted :
        (c : Conn W)
        → (c.closing || c.stage_full) ≡ false
        → parse_and_dispatch b k y (front (length c.read_buf)) c ≡ none
        → Runs front c none
    halted :
        (c next : Conn W)
        → (c.closing || c.stage_full) ≡ false
        → parse_and_dispatch b k y (front (length c.read_buf)) c ≡ some (false, next)
        → Runs front c (some next)
    continued :
        (c next : Conn W) (o : Option (Conn W))
        → (c.closing || c.stage_full) ≡ false
        → parse_and_dispatch b k y (front (length c.read_buf)) c ≡ some (true, next)
        → Runs front next o
        → Runs front c o

  after_round :
      (front : ℕ → ℕ) (c next : Conn W) (rest : Option (Conn W)) (goes_on : Bool)
      → (c.closing || c.stage_full) ≡ false
      → parse_and_dispatch b k y (front (length c.read_buf)) c ≡ some (goes_on, next)
      → (goes_on ≡ true → Runs front next rest)
      → Runs front c (if goes_on then rest else some next)
  after_round front c next rest true busy e more = continued c next rest busy e (more refl)
  after_round front c next rest false busy e more = halted c next busy e

  -- The loop stops by itself, however the front buffers are cut: with more fuel than there are bytes in
  -- `readBuf_`, its result is the end of a finite run of rounds, each as `parseAndDispatch` answers it, that
  -- ends at a test of the loop's own, or at a read behind a body, and never for want of fuel.
  pub run_loop-Runs :
      (n : ℕ) (front : ℕ → ℕ) (c : Conn W)
      → length c.read_buf < n
      → Runs front c (run_loop b k y n front c)
  unfolding run_loop
  run_loop-Runs zero front c h = absurd (omega arith)
  run_loop-Runs (suc n) front c h =
      let taken = parse_and_dispatch b k y (front (length c.read_buf)) c in
      elim (Bool-cases (c.closing || c.stage_full)) [
        | inl quiet ↦ rw (run_loop, quiet) (stopped c quiet)
        | inr busy ↦ elim (Option-cases taken) [
          | inl faults ↦ rw (run_loop, busy, faults) (faulted c busy faults)
          | inr ((goes_on, next), e) ↦
              rw (run_loop, busy, e)
                (after_round front c next (run_loop b k y n front next) goes_on busy e (λ going.
                  let less =
                    (Each-some _ taken (goes_on, next)
                        (parse_and_dispatch-Shorter (front (length c.read_buf)) c) e)
                      going in
                  run_loop-Runs n front next (omega (arith, less))))
        ]
      ]
