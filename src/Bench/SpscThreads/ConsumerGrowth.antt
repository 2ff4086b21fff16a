-- ===== src/Bench/SpscThreads/ConsumerGrowth.antt =====
-- What a step of `consumer_spsc` adds to what the two threads have done.
use lock_free_queues.Prelude.{
  ℕ, suc, ◌+◌, ◌*◌, ◌≤◌, ◌<◌, ◌≡◌, ap, arith, [], ◌∷◌, Bool, true, false, not, ◌&&◌, if◌then◌else◌,
  lt→ltb, le→ltb, dec_lt, ◌==◌,
}
use lock_free_queues.SpscQueue.Threads.{
  Event, silent, pushed, refused, popped, missed, System, consumer, turn, count,
}
use lock_free_queues.SpscQueue.Threads.Progress.{push_done, pop_done, pop_done-lt, try_pop_returns}
use lock_free_queues.Bench.SpscThreads.{
  ProducerPc, sending, joining, through, ConsumerPc, looping, popping, tried, leaving, threw,
  exported, Bench, after_pop, consume,
}
use lock_free_queues.Bench.SpscThreads.Turns.{Shows, pop_turn}
use lock_free_queues.Bench.SpscThreads.Invariant.{Kept, Known}
use lock_free_queues.Bench.SpscThreads.Meter.{
  gate, gate-open, gate-le, gate_mono, main_local, consumer_local, room, some_left, pop_paid,
}
use lock_free_queues.Bench.SpscThreads.Growth.{ConsumerCan, mains, consumers, suc_times}

main_local_mono :
    (width : ℕ) (m : ProducerPc) (k k' d : ℕ)
    → k ≤ k'
    → main_local width m k d ≤ main_local width m k' d
main_local_mono width sending k k' d le = gate_mono k k' d d le (λ open'. omega arith)
main_local_mono width joining k k' d le = omega arith
main_local_mono width through k k' d le = omega arith

module _ (width : ℕ) {A : Type 0} (changes : ℕ → ℕ → A) (n : ℕ) where
  abbrev main_number : Bench A → ℕ
  main_number = mains width changes n

  abbrev consumer_number : Bench A → ℕ
  consumer_number = consumers width changes n

  -- A step of the consumer, from the place `p`.
  abbrev pub ConsumerGrows : ConsumerPc → Bench A → Bench A → Type 0
  ConsumerGrows p s s' =
      (main_number s ≤ main_number s')
      × (consumer_number s ≤ consumer_number s')
      × (ConsumerCan width changes n p s → consumer_number s + 1 ≤ consumer_number s')

  ConsumerCan-open :
      (p : ConsumerPc) (s : Bench A) → ConsumerCan width changes n p s → 0 < some_left n s.queue
  ConsumerCan-open looping s can = can
  ConsumerCan-open popping s can = can
  ConsumerCan-open (tried b) s can = can
  ConsumerCan-open leaving s can = can
  ConsumerCan-open threw s can = absurd can
  ConsumerCan-open exported s can = absurd can

  number_at :
      (s : Bench A) (p : ConsumerPc)
      → s.pc ≡ p
      → consumer_number s
        ≡ (width + 7) * s.queue.pops
          + gate (some_left n s.queue) (consumer_local width p (pop_done s.queue.popper))
  number_at s p at =
      ap
        (λ p.
          (width + 7) * s.queue.pops
          + gate (some_left n s.queue) (consumer_local width p (pop_done s.queue.popper)))
        at

  -- Only the consumer's place changes.
  moved-ConsumerGrows :
      (s : Bench A) (p p' : ConsumerPc)
      → s.pc ≡ p
      → consumer_local width p (pop_done s.queue.popper) + 1
        ≤ consumer_local width p' (pop_done s.queue.popper)
      → ConsumerGrows p s (record s { pc = p' })
  moved-ConsumerGrows s p p' at up =
      let d = consumer_local width p (pop_done s.queue.popper) in
      let d' = consumer_local width p' (pop_done s.queue.popper) in
      let k = some_left n s.queue in
      let before = number_at s p at in
      (
        omega arith,
        omega (arith, gate_mono k k d d' (omega arith) (λ open'. omega arith)),
        λ can.
            let open' = ConsumerCan-open p s can in
            omega (arith, gate-open k d open', gate-open k d' open'),
      )

  -- The main thread's number when only the consumer's part of the queue changes.
  main_of_popped :
      (s : Bench A) (q : System A)
      → s.queue.pops ≤ q.pops
      → q.pushes ≡ s.queue.pushes
      → q.pusher ≡ s.queue.pusher
      → main_number s ≤ main_number (record s { queue = q })
  main_of_popped s q pops pushes pusher = omega (
    arith,
    ap (λ j. (width + 3) * j) pushes,
    ap (λ h. main_local width s.main_pc (room s.queue) (push_done h)) pusher,
    main_local_mono width s.main_pc (room s.queue) (room q) (push_done q.pusher) (omega arith),
  )

  -- The consumer after a step of `try_pop`, which left the queue as `q`.
  popped-ConsumerGrows :
      (s : Bench A) (q : System A) (e : Event A)
      → Kept width changes n s
      → s.pc ≡ popping
      → s.received < n
      → Shows width changes s.queue.pushes s.queue.pops e
      → q.pops ≡ count e s.queue.pops
      → q.pushes ≡ s.queue.pushes
      → (suc (pop_done s.queue.popper) ≤ pop_done q.popper + (width + 3) * try_pop_returns (e ∷ []))
      → q.pusher ≡ s.queue.pusher
      → ConsumerGrows popping s (after_pop width changes n (record s { queue = q }) e)
  popped-ConsumerGrows s q silent k at more shows pops pushes paid pusher =
      let d = consumer_local width popping (pop_done s.queue.popper) in
      let d' = consumer_local width popping (pop_done q.popper) in
      let before = number_at s popping at in
      let after = number_at (record s { queue = q }) popping at in
      let same = ap (λ j. (width + 7) * j) pops in
      (
        main_of_popped s q (omega arith) pushes pusher,
        omega (
          arith,
          gate_mono (some_left n s.queue) (some_left n q) d d' (omega arith) (λ open'. omega arith),
        ),
        λ can. omega (
          arith,
          gate-open (some_left n s.queue) d can,
          gate-open (some_left n q) d' (omega arith),
        ),
      )
  popped-ConsumerGrows s q missed k at more shows pops pushes paid pusher =
      let before = number_at s popping at in
      let shut : some_left n s.queue ≡ 0 = omega (arith, k.counts) in
      let closed = ap (λ g. gate g (consumer_local width popping (pop_done s.queue.popper))) shut in
      let same = ap (λ j. (width + 7) * j) pops in
      (main_of_popped s q (omega arith) pushes pusher, omega arith, λ can. absurd (omega arith))
  popped-ConsumerGrows s q (pushed x) k at more shows pops pushes paid pusher = absurd shows
  popped-ConsumerGrows s q refused k at more shows pops pushes paid pusher = absurd shows
  popped-ConsumerGrows s q (popped x) k at more shows pops pushes paid pusher =
      let before = number_at s popping at in
      let grown = suc_times width changes n (width + 7) s.queue.pops q.pops (omega (arith, pops)) in
      let less =
        gate-le (some_left n s.queue) (consumer_local width popping (pop_done s.queue.popper)) in
      let small =
        pop_done-lt width changes s.queue.pushes s.queue.pops s.queue.popper k.queue.popping in
      (main_of_popped s q (omega arith) pushes pusher, omega arith, λ can. omega arith)

  pub consume-ConsumerGrows :
      {s : Bench A} (p : ConsumerPc)
      → Kept width changes n s
      → s.pc ≡ p
      → Known n p s.received s.queue.pushes
      → ConsumerGrows p s (consume width changes n s p)
  unfolding consume
  consume-ConsumerGrows {s} looping k at known = elim (dec_lt s.received n) [
    | yes more ↦
        rw (lt→ltb s.received n more) (moved-ConsumerGrows s looping popping at (omega arith))
    | no all ↦
        rw (le→ltb s.received n (omega arith))
          (moved-ConsumerGrows s looping leaving at (omega arith))
  ]
  consume-ConsumerGrows {s} popping k at known =
      let (q, e) = turn width changes consumer s.queue in
      let (inv, shows, pops, pushes) = pop_turn width changes k.queue in
      let (paid, pusher) = pop_paid width changes k.queue in
      popped-ConsumerGrows s q e k at known shows pops pushes paid pusher
  consume-ConsumerGrows {s} (tried read) k at known = go (not s.running && not read)
    where
      go :
          (b : Bool)
          → ConsumerGrows (tried read) s (record s { pc = if b then leaving else looping })
      go true = moved-ConsumerGrows s (tried read) leaving at (omega arith)
      go false = moved-ConsumerGrows s (tried read) looping at (omega arith)
  consume-ConsumerGrows {s} leaving k at known = go (s.received == n)
    where
      go : (b : Bool) → ConsumerGrows leaving s (record s { pc = if b then exported else threw })
      go true = moved-ConsumerGrows s leaving exported at (omega arith)
      go false = moved-ConsumerGrows s leaving threw at (omega arith)
  consume-ConsumerGrows {s} threw k at known = (omega arith, omega arith, λ can. absurd can)
  consume-ConsumerGrows {s} exported k at known = (omega arith, omega arith, λ can. absurd can)
