-- ===== src/Bench/SpscThreads/Rounds.antt =====
-- What a round of steps adds to what the threads of `spsc_bench` have done.
use lock_free_queues.Prelude.{
  ℕ, ◌+◌, ◌≤◌, ◌≡◌, ◌⊎◌, inl, inr, refl, sym, ap, ◌∙◌, subst, arith, List, [], ◌∷◌, lt→ltb, le→ltb,
  dec_lt, Has,
}
use lock_free_queues.SpscQueue.Threads.{
  Event, silent, pushed, refused, popped, missed, System, Turn, producer, consumer, turn, count,
}
use lock_free_queues.Bench.SpscThreads.{
  ProducerPc, sending, joining, through, ConsumerPc, looping, popping, tried, leaving, threw,
  exported, Bench, produce, after_pop, consume, step, run,
}
use lock_free_queues.Bench.SpscThreads.Turns.{pop_turn}
use lock_free_queues.Bench.SpscThreads.Invariant.{Kept}
use lock_free_queues.Bench.SpscThreads.Steps.{step-Kept}
use lock_free_queues.Bench.SpscThreads.Meter.{room, some_left, push_turn-PushMoves}
use lock_free_queues.Bench.SpscThreads.Growth.{
  MainCan, ConsumerCan, mains, consumers, produce-MainGrows,
}
use lock_free_queues.Bench.SpscThreads.ConsumerGrowth.{consume-ConsumerGrows}

module _ (width : ℕ) {A : Type 0} (changes : ℕ → ℕ → A) (n : ℕ) where
  abbrev next : Turn → Bench A → Bench A
  next = step width changes n

  abbrev pub total : Bench A → ℕ
  total s = mains width changes n s + consumers width changes n s

  abbrev pub Can : Turn → Bench A → Type 0
  Can producer s = MainCan width changes n s.main_pc s
  Can consumer s = ConsumerCan width changes n s.pc s

  -- What the main thread leaves to the consumer.
  abbrev Leaves : Bench A → Bench A → Type 0
  Leaves s s' = (s'.pc ≡ s.pc) × (some_left n s.queue ≤ some_left n s'.queue)

  produce-Leaves :
      (s : Bench A) (m : ProducerPc)
      → Kept width changes n s
      → Leaves s (produce width changes n s m)
  unfolding produce
  produce-Leaves s sending k = elim (dec_lt s.queue.pushes n) [
    | yes more ↦
        let (pops, popper, moved) = push_turn-PushMoves width changes k.queue in
        rw (lt→ltb s.queue.pushes n more)
          (refl, elim moved [ inl one ↦ omega arith | inr same ↦ omega (arith, same.0) ])
    | no all ↦ rw (le→ltb s.queue.pushes n (omega arith)) (refl, omega arith)
  ]
  produce-Leaves s joining k = (refl, omega arith)
  produce-Leaves s through k = (refl, omega arith)

  -- And the consumer to the main thread.
  abbrev pub Spares : Bench A → Bench A → Type 0
  Spares s s' =
      (s'.main_pc ≡ s.main_pc) × (s'.queue.pushes ≡ s.queue.pushes) × (room s.queue ≤ room s'.queue)

  after_pop-Spares :
      (s : Bench A) (q : System A) (e : Event A)
      → q.pushes ≡ s.queue.pushes
      → q.pops ≡ count e s.queue.pops
      → Spares s (after_pop width changes n (record s { queue = q }) e)
  after_pop-Spares s q silent pushes pops = (refl, pushes, omega arith)
  after_pop-Spares s q (pushed x) pushes pops = (refl, pushes, omega arith)
  after_pop-Spares s q refused pushes pops = (refl, pushes, omega arith)
  after_pop-Spares s q (popped x) pushes pops = (refl, pushes, omega arith)
  after_pop-Spares s q missed pushes pops = (refl, pushes, omega arith)

  pub consume-Spares :
      (s : Bench A) (p : ConsumerPc)
      → Kept width changes n s
      → Spares s (consume width changes n s p)
  unfolding consume
  consume-Spares s looping k = (refl, refl, omega arith)
  consume-Spares s popping k =
      let (q, e) = turn width changes consumer s.queue in
      let (inv, shows, pops, pushes) = pop_turn width changes k.queue in
      after_pop-Spares s q e pushes pops
  consume-Spares s (tried read) k = (refl, refl, omega arith)
  consume-Spares s leaving k = (refl, refl, omega arith)
  consume-Spares s threw k = (refl, refl, omega arith)
  consume-Spares s exported k = (refl, refl, omega arith)

  exported_stays : (s : Bench A) → s.pc ≡ exported → next consumer s ≡ s
  unfolding step consume
  exported_stays s at = ap (consume width changes n s) at

  -- A thread that can go on still can when the other has moved.
  ConsumerCan-Leaves :
      (p : ConsumerPc) (s s' : Bench A)
      → some_left n s.queue ≤ some_left n s'.queue
      → ConsumerCan width changes n p s
      → ConsumerCan width changes n p s'
  ConsumerCan-Leaves looping s s' le can = omega arith
  ConsumerCan-Leaves popping s s' le can = omega arith
  ConsumerCan-Leaves (tried b) s s' le can = omega arith
  ConsumerCan-Leaves leaving s s' le can = omega arith
  ConsumerCan-Leaves threw s s' le can = can
  ConsumerCan-Leaves exported s s' le can = can

  MainCan-Spares :
      (m : ProducerPc) (s s' : Bench A)
      → Spares s s'
      → (s.pc ≡ exported → s' ≡ s)
      → MainCan width changes n m s
      → MainCan width changes n m s'
  MainCan-Spares sending s s' spares stays (inl all) = inl (spares.1 ∙ all)
  MainCan-Spares sending s s' spares stays (inr free) = inr (omega (arith, spares.2))
  MainCan-Spares joining s s' spares stays can = ap (λ (t : Bench A). t.pc) (stays can) ∙ can
  MainCan-Spares through s s' spares stays can = can

  Can-next :
      (t u : Turn) (s : Bench A) → Kept width changes n s → Can t s → (t ≡ u) ⊎ Can t (next u s)
  unfolding step
  Can-next producer producer s k can = inl refl
  Can-next consumer consumer s k can = inl refl
  Can-next producer consumer s k can =
      let spares = consume-Spares s s.pc k in
      inr (
        subst (λ m. MainCan width changes n m (next consumer s)) (sym spares.0)
          (MainCan-Spares s.main_pc s (next consumer s) spares (exported_stays s) can))
  Can-next consumer producer s k can =
      let leaves = produce-Leaves s s.main_pc k in
      inr (
        subst (λ p. ConsumerCan width changes n p (next producer s)) (sym leaves.0)
          (ConsumerCan-Leaves s.pc s (next producer s) leaves.1 can))

  total-next :
      (t : Turn) (s : Bench A)
      → Kept width changes n s
      → (total s ≤ total (next t s)) × (Can t s → total s + 1 ≤ total (next t s))
  unfolding step
  total-next producer s k =
      let grows = produce-MainGrows width changes n s.main_pc k refl in
      (omega (arith, grows.0, grows.1), λ can. omega (arith, grows.2 can, grows.1))
  total-next consumer s k =
      let grows = consume-ConsumerGrows width changes n s.pc k refl k.known in
      (omega (arith, grows.0, grows.1), λ can. omega (arith, grows.2 can, grows.0))

  pub total-run :
      (ts : List Turn) (s : Bench A)
      → Kept width changes n s
      → total s ≤ total (run width changes n ts s)
  unfolding run
  total-run [] s k = omega arith
  total-run (t ∷ ts) s k =
      omega (arith, (total-next t s k).0, total-run ts (next t s) (step-Kept width changes n t k))

  -- A thread that can go on, and has a turn, adds to what they have done.
  pub total-round :
      (t : Turn) (ts : List Turn) (s : Bench A)
      → Has t ts
      → Kept width changes n s
      → Can t s
      → total s + 1 ≤ total (run width changes n ts s)
  unfolding run
  total-round t [] s has k can = absurd has
  total-round t (u ∷ ts) s has k can =
      let later = step-Kept width changes n u k in
      elim has [
        | inl same ↦ omega (
          arith,
          (total-next u s k).1 (subst (λ x. Can x s) same can),
          total-run ts (next u s) later,
        )
        | inr rest ↦ elim (Can-next t u s k can) [
          | inl same ↦ omega (
            arith,
            (total-next u s k).1 (subst (λ x. Can x s) same can),
            total-run ts (next u s) later,
          )
          | inr still ↦
              omega (arith, (total-next u s k).0, total-round t ts (next u s) rest later still)
        ]
      ]
