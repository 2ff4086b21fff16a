-- ===== src/Bench/SpscRun/Facts.antt =====
-- The two threads of `spsc_bench` over a queue that is a count, under any schedule and under one
-- of their own.
use lock_free_queues.Prelude.{
  ℕ, zero, suc, ◌+◌, ◌-◌, ◌≤◌, ◌<◌, ◌≡◌, ◌≢◌, refl, ap, ◌∙◌, List, [], ◌∷◌, Bool, true, false,
  arith, lt→ltb, le→ltb, ne→==, dec_lt, ℕ_discrete, not, ◌&&◌, if◌then◌else◌, ==_iff,
}
use lock_free_queues.Bench.SpscRun.{
  ConsumerPc, looping, tried, leaving, threw, exported, Bench, Turn, producer, consumer, produce,
  consume, turn, run, start,
}

module _ (capacity n : ℕ) where
  abbrev pub Ended : ConsumerPc → ℕ → Type 0
  Ended exported received = received ≡ n
  Ended _ received = Unit {0}

  -- Every message sent is in the queue or received; a consumer that has exported received all.
  pub record Counted (s : Bench) : Type 0 where
    pub balance : s.received + s.held ≡ s.sent
    pub within : s.sent ≤ n
    pub room : s.held ≤ capacity
    pub complete : Ended s.pc s.received

  produce-Counted : {s : Bench} → Counted s → Counted (produce capacity n s)
  unfolding produce
  produce-Counted {s} c = elim (dec_lt s.sent n) [
    | yes more ↦ elim (dec_lt s.held capacity) [
      | yes free ↦
          rw (lt→ltb s.sent n more, lt→ltb s.held capacity free)
            (record {
              balance = omega (arith, c.balance);
              within = omega arith;
              room = omega arith;
              complete = c.complete;
            })
      | no full ↦ rw (lt→ltb s.sent n more, le→ltb s.held capacity (omega arith)) c
    ]
    | no all ↦
        rw (le→ltb s.sent n (omega arith))
          (record { balance = c.balance; within = c.within; room = c.room; complete = c.complete })
  ]

  -- The consumer goes on to `p`, with the counters as they are.
  Counted-at :
      {s : Bench} (p : ConsumerPc) → Ended p s.received → Counted s → Counted (record s { pc = p })
  Counted-at p e c = record { balance = c.balance; within = c.within; room = c.room; complete = e }

  consume-Counted :
      {s : Bench} (p : ConsumerPc)
      → Counted s
      → Ended p s.received
      → Counted (consume capacity n s p)
  unfolding consume
  consume-Counted {s} looping c e = elim (dec_lt s.received n) [
    | yes more ↦ elim (ℕ_discrete s.held 0) [
      | yes empty ↦
          rw (lt→ltb s.received n more, (==_iff s.held 0).1 empty) (Counted-at (tried false) tt c)
      | no some_held ↦
          rw (lt→ltb s.received n more, ne→== s.held 0 some_held)
            (record {
              balance = omega (arith, c.balance);
              within = c.within;
              room = omega (arith, c.room);
              complete = tt;
            })
    ]
    | no all ↦ rw (le→ltb s.received n (omega arith)) (Counted-at leaving tt c)
  ]
  consume-Counted {s} (tried read) c e = choose (not s.running && not read)
    where
      choose : (b : Bool) → Counted (record s { pc = if b then leaving else looping })
      choose true = Counted-at leaving tt c
      choose false = Counted-at looping tt c
  consume-Counted {s} leaving c e = elim (ℕ_discrete s.received n) [
    | yes all ↦ rw ((==_iff s.received n).1 all) (Counted-at exported all c)
    | no missing ↦ rw (ne→== s.received n missing) (Counted-at threw tt c)
  ]
  consume-Counted threw c e = c
  consume-Counted exported c e = c

  turn-Counted : (t : Turn) {s : Bench} → Counted s → Counted (turn capacity n t s)
  unfolding turn
  turn-Counted producer c = produce-Counted c
  turn-Counted consumer {s} c = consume-Counted s.pc c c.complete

  run-Counted : (ts : List Turn) {s : Bench} → Counted s → Counted (run capacity n ts s)
  unfolding run
  run-Counted [] c = c
  run-Counted (t ∷ ts) c = run-Counted ts (turn-Counted t c)

  -- Whatever the schedule, no message is counted twice or made up: what the consumer received and
  -- what the queue holds is what the producer sent, and a consumer that exports its samples has
  -- received every message.
  pub bench_counts : (ts : List Turn) → Counted (run capacity n ts start)
  unfolding start
  bench_counts ts =
      run-Counted ts
        (record { balance = refl; within = omega arith; room = omega arith; complete = tt })

  -- One message through the queue: push, `try_pop`, the test of `running`.
  abbrev round : List Turn → List Turn
  round ts = producer ∷ consumer ∷ consumer ∷ ts

  abbrev rounds : ℕ → List Turn → List Turn
  rounds zero ts = ts
  rounds (suc k) ts = round (rounds k ts)

  abbrev after : ℕ → Bench
  after k = record { held = 0; running = true; sent = k; received = k; pc = looping }

  abbrev bench : ℕ → Bool → ℕ → ℕ → ConsumerPc → Bench
  bench held running sent received pc = record {
    held = held;
    running = running;
    sent = sent;
    received = received;
    pc = pc;
  }

  abbrev step : Turn → Bench → Bench
  step = turn capacity n

  sends :
      (i r : ℕ) (p : ConsumerPc)
      → 0 < capacity
      → i < n
      → step producer (bench 0 true i r p) ≡ bench 1 true (i + 1) r p
  unfolding turn
  sends i r p room lt = rw (lt→ltb i n lt, lt→ltb 0 capacity room)

  stops : (r : ℕ) (p : ConsumerPc) → step producer (bench 1 true n r p) ≡ bench 1 false n r p
  unfolding turn
  stops r p = rw (le→ltb n n (omega arith))

  hits :
      (i r : ℕ)
      → r < n
      → step consumer (bench 1 true i r looping) ≡ bench 0 true i (r + 1) (tried true)
  unfolding turn
  hits i r lt = rw (lt→ltb r n lt)

  misses :
      (i r : ℕ) → r < n → step consumer (bench 0 true i r looping) ≡ bench 0 true i r (tried false)
  unfolding turn
  misses i r lt = rw (lt→ltb r n lt)

  goes_on : (i r : ℕ) → step consumer (bench 0 true i r (tried true)) ≡ bench 0 true i r looping
  unfolding turn
  goes_on i r = refl

  breaks : (i r : ℕ) → step consumer (bench 1 false i r (tried false)) ≡ bench 1 false i r leaving
  unfolding turn
  breaks i r = refl

  throws : (i r : ℕ) → r ≢ n → step consumer (bench 1 false i r leaving) ≡ bench 1 false i r threw
  unfolding turn
  throws i r ne = rw (ne→== r n ne)

  one_round :
      (i : ℕ)
      → 0 < capacity
      → i < n
      → step consumer (step consumer (step producer (after i))) ≡ after (i + 1)
  one_round i room lt =
      ap (λ s. step consumer (step consumer s)) (sends i i looping room lt)
      ∙ ap (step consumer) (hits (i + 1) i lt)
      ∙ goes_on (i + 1) (i + 1)

  run-rounds :
      (k i : ℕ) (ts : List Turn)
      → 0 < capacity
      → k + i ≤ n
      → run capacity n (rounds k ts) (after i) ≡ run capacity n ts (after (i + k))
  unfolding run
  run-rounds zero i ts room le = ap (λ j. run capacity n ts (after j)) (omega arith)
  run-rounds (suc k) i ts room le =
      ap (λ s. run capacity n (rounds k ts) s) (one_round i room (omega arith))
      ∙ run-rounds k (i + 1) ts room (omega arith)
      ∙ ap (λ j. run capacity n ts (after j)) (omega arith)

  -- The last `try_pop` comes too early, and the test of `running` too late.
  abbrev too_late : List Turn
  too_late = consumer ∷ producer ∷ producer ∷ consumer ∷ consumer ∷ []

  give_up :
      (m : ℕ)
      → 0 < capacity
      → m + 1 ≡ n
      → run capacity n too_late (after m) ≡ bench 1 false n m threw
  unfolding run
  give_up m room e =
      ap (λ s. step consumer (step consumer (step producer (step producer s))))
        (misses m m (omega arith))
      ∙ ap (λ s. step consumer (step consumer (step producer s)))
          (sends m m (tried false) room (omega arith) ∙ ap (λ i. bench 1 true i m (tried false)) e)
      ∙ ap (λ s. step consumer (step consumer s)) (stops m (tried false))
      ∙ ap (step consumer) (breaks n m)
      ∙ throws n m (omega arith)

  -- For a queue with room and at least one message there is a schedule in which the producer has
  -- sent all messages and the consumer throws with one still in the queue.
  pub consumer_may_throw :
      0 < capacity
      → 0 < n
      → (ts : List Turn) × ((run capacity n ts start).pc ≡ threw)
        × ((run capacity n ts start).sent ≡ n)
        × ((run capacity n ts start).held ≡ 1)
  unfolding start
  consumer_may_throw room pos = (
    rounds (n - 1) too_late,
    ap (λ (s : Bench). s.pc) end,
    ap (λ (s : Bench). s.sent) end,
    ap (λ (s : Bench). s.held) end,
  )
    where
      end : run capacity n (rounds (n - 1) too_late) start ≡ bench 1 false n (n - 1) threw
      end =
          run-rounds (n - 1) 0 too_late room (omega arith)
          ∙ ap (λ j. run capacity n too_late (after j)) (omega arith)
          ∙ give_up (n - 1) room (omega arith)
