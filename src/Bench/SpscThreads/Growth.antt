-- ===== src/Bench/SpscThreads/Growth.antt =====
-- What a step of the main thread of `spsc_bench` adds to what the two threads have done.
use lock_free_queues.Prelude.{
  ℕ, suc, ◌+◌, ◌*◌, ◌≤◌, ◌<◌, ◌≡◌, ◌≢◌, ◌⊎◌, inl, inr, refl, sym, ap, ◌∙◌, arith, Bool, false,
  if◌then◌else◌, lt→ltb, le→ltb, dec_lt,
}
use lock_free_queues.Prelude.Words.{mul_split}
use lock_free_queues.SpscQueue.Threads.{System, producer, turn}
use lock_free_queues.SpscQueue.Threads.Progress.{push_done, pop_done, push_done-lt}
use lock_free_queues.Bench.SpscThreads.{
  ProducerPc, sending, joining, through, ConsumerPc, looping, popping, tried, leaving, threw,
  exported, has_exported, Bench, produce,
}
use lock_free_queues.Bench.SpscThreads.Invariant.{Kept}
use lock_free_queues.Bench.SpscThreads.Meter.{
  gate, gate-open, gate-le, gate_mono, main_local, consumer_local, room, some_left, main_meter,
  consumer_meter, PushMoves, push_turn-PushMoves,
}

module _ (width : ℕ) {A : Type 0} (changes : ℕ → ℕ → A) (n : ℕ) where
  -- The main thread can go on.
  abbrev pub MainCan : ProducerPc → Bench A → Type 0
  MainCan sending s = (s.queue.pushes ≡ n) ⊎ (0 < room s.queue)
  MainCan joining s = s.pc ≡ exported
  MainCan through s = ⊥

  -- And the consumer can.
  abbrev pub ConsumerCan : ConsumerPc → Bench A → Type 0
  ConsumerCan threw s = ⊥
  ConsumerCan exported s = ⊥
  ConsumerCan _ s = 0 < some_left n s.queue

  abbrev pub mains : Bench A → ℕ
  mains = main_meter width

  abbrev pub consumers : Bench A → ℕ
  consumers = consumer_meter width n

  -- A step of the main thread, from the place `m`.
  abbrev pub MainGrows : ProducerPc → Bench A → Bench A → Type 0
  MainGrows m s s' =
      (mains s ≤ mains s') × (consumers s ≤ consumers s') × (MainCan m s → mains s + 1 ≤ mains s')

  pub suc_times : (w k k' : ℕ) → k' ≡ suc k → w * k' ≡ w * k + w
  suc_times w k k' e = omega (arith, ap (λ j. w * j) e, mul_split w k 1 (suc k) (omega arith))

  sending_meter :
      (s : Bench A)
      → s.main_pc ≡ sending
      → mains s ≡ (width + 3) * s.queue.pushes + gate (room s.queue) (push_done s.queue.pusher)
  sending_meter s at =
      ap
        (λ m.
          (width + 3) * s.queue.pushes
          + main_local width m (room s.queue) (push_done s.queue.pusher))
        at

  -- The consumer's number when only the producer's part of the queue changes.
  consumers_of_pushed :
      (s : Bench A) (q : System A)
      → q.pops ≡ s.queue.pops
      → q.popper ≡ s.queue.popper
      → s.queue.pushes ≤ q.pushes
      → consumers s ≤ consumers (record s { queue = q })
  consumers_of_pushed s q pops popper le =
      let same = ap (λ j. (width + 7) * j) pops in
      let local = ap (λ h. consumer_local width s.pc (pop_done h)) popper in
      omega (
        arith,
        same,
        gate_mono (some_left n s.queue) (some_left n q)
            (consumer_local width s.pc (pop_done s.queue.popper))
            (consumer_local width s.pc (pop_done q.popper)) (omega arith)
            (λ open'. omega (arith, local)),
      )

  pushed-MainGrows :
      {s : Bench A} (q : System A)
      → Kept width changes n s
      → s.main_pc ≡ sending
      → s.queue.pushes < n
      → PushMoves s.queue q
      → MainGrows sending s (record s { queue = q })
  pushed-MainGrows {s} q k at more (pops, popper, inl one) =
      let before = sending_meter s at in
      let after = sending_meter (record s { queue = q }) at in
      let small =
        push_done-lt width changes s.queue.mem s.queue.pushes s.queue.pops s.queue.pusher
          k.queue.pushing in
      let grown = suc_times (width + 3) s.queue.pushes q.pushes one in
      let less = gate-le (room s.queue) (push_done s.queue.pusher) in
      (omega arith, consumers_of_pushed s q pops popper (omega arith), λ can. omega arith)
  pushed-MainGrows {s} q k at more (pops, popper, inr (none, on)) =
      let before = sending_meter s at in
      let after = sending_meter (record s { queue = q }) at in
      let same = ap (λ j. (width + 3) * j) none in
      let up =
        gate_mono (room s.queue) (room q) (push_done s.queue.pusher) (push_done q.pusher)
          (omega arith) (λ open'. omega (arith, on open')) in
      (
        omega arith,
        consumers_of_pushed s q pops popper (omega arith),
        λ can. elim can [
          | inl all ↦ absurd (omega arith)
          | inr free ↦ omega (
            arith,
            gate-open (room s.queue) (push_done s.queue.pusher) free,
            gate-open (room q) (push_done q.pusher) (omega arith),
            on free,
          )
        ],
      )

  -- Only the main thread's place changes.
  moved-MainGrows :
      (s : Bench A) (running : Bool) (m m' : ProducerPc)
      → s.main_pc ≡ m
      → main_local width m (room s.queue) (push_done s.queue.pusher) + 1
        ≤ main_local width m' (room s.queue) (push_done s.queue.pusher)
      → MainGrows m s (record s { main_pc = m'; running = running })
  moved-MainGrows s running m m' at up =
      let before =
        ap
          (λ m.
            (width + 3) * s.queue.pushes
            + main_local width m (room s.queue) (push_done s.queue.pusher))
          at in
      (omega arith, omega arith, λ can. omega arith)

  pub produce-MainGrows :
      {s : Bench A} (m : ProducerPc)
      → Kept width changes n s
      → s.main_pc ≡ m
      → MainGrows m s (produce width changes n s m)
  unfolding produce
  produce-MainGrows {s} sending k at = elim (dec_lt s.queue.pushes n) [
    | yes more ↦ rw (lt→ltb s.queue.pushes n more) (
        pushed-MainGrows (turn width changes producer s.queue).0 k at more
          (push_turn-PushMoves width changes k.queue))
    | no all ↦ rw (le→ltb s.queue.pushes n (omega arith)) (
        moved-MainGrows s false sending joining at (
          omega (
            arith,
            gate-le (room s.queue) (push_done s.queue.pusher),
            push_done-lt width changes s.queue.mem s.queue.pushes s.queue.pops s.queue.pusher
                k.queue.pushing,
          )))
  ]
  produce-MainGrows {s} joining k at = go s.pc refl
    where
      stays :
          (p : ConsumerPc)
          → s.pc ≡ p
          → p ≢ exported
          → MainGrows joining s (record s { main_pc = joining })
      stays p here ne =
          let same = ap (λ m. main_local width m (room s.queue) (push_done s.queue.pusher)) at in
          (omega arith, omega arith, λ can. absurd (ne (sym here ∙ can)))

      go :
          (p : ConsumerPc)
          → s.pc ≡ p
          → MainGrows joining s (record s { main_pc = if has_exported p then through else joining })
      go looping here = stays looping here (λ e. cc)
      go popping here = stays popping here (λ e. cc)
      go (tried b) here = stays (tried b) here (λ e. cc)
      go leaving here = stays leaving here (λ e. cc)
      go threw here = stays threw here (λ e. cc)
      go exported here = moved-MainGrows s s.running joining through at (omega arith)
  produce-MainGrows {s} through k at = (omega arith, omega arith, λ can. absurd can)
